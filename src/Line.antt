-- ===== src/Line.antt =====
-- The readings that the motor controller sends over the serial line: how
-- MyoNucMotor/MyoNucMotor/main.cpp (the section MAIN) and NUCServer/NUCServer/Server.cpp find a line
-- in the text that was read, and store its five numbers in the message.
-- `stof` is the parameter that stands for std::stof: `none` if it throws.
pub mod Fields
pub mod Select
pub mod Tests
use myodesignproject.Base.{ℕ, Bool, true, false, Option, none, some, List, [], ◌∷◌, if◌then◌else◌}
use myodesignproject.Sensor.{
  Float, Sensor, is_zero, set_arg0, set_arg1, set_arg2, set_arg3, set_arg4,
}
use myodesignproject.Text.{
  newline, comma, find, next, front, back, substr, contains, unique_newlines,
}

-- The variables of the `try` block: the message and the text `s`.
pub record Reading : Type 0 where
  pub sensor : Sensor
  pub text : List ℕ

-- What an exception leaves behind: the text is local to the block, the message is not.
pub data Try : Type 0 where
  ran : Reading → Try
  threw : Sensor → Try

infixl 5 ◌>>=◌
abbrev pub ◌>>=◌ : Try → (Reading → Try) → Try
ran r >>= f = f r
threw s >>= f = threw s

-- `f == 0 ? -1 : f`, with the pattern of -1.0
unfoldable pub never_zero : Float → Float
never_zero v = if is_zero v then 0xbf80_0000 else v

abbrev pub and_then : Option (List ℕ) → (List ℕ → Option Float) → Option Float
and_then none stof = none
and_then (some t) stof = stof t

-- Convert a piece of the text and store it; the text goes on as `rest`.
abbrev pub set_from : (Float → Sensor → Sensor) → Option Float → Option (List ℕ) → Sensor → Try
set_from set none rest s = threw s
set_from set (some v) none s = threw (set v s)
set_from set (some v) (some t) s = ran (record { sensor = set v s; text = t })

-- One of the five blocks of the section MAIN: up to the comma if there is one, and else up to the
-- end of the line, where the text stays as it is.
unfoldable pub read_arg : (List ℕ → Option Float) → (Float → Sensor → Sensor) → Reading → Try
read_arg stof set r = elim (find comma r.text) [
  | some i ↦
      set_from (λ v. set (never_zero v)) (and_then (front comma r.text) stof) (back comma r.text)
        r.sensor
  | none ↦
      set_from (λ v. set (never_zero v)) (and_then (front newline r.text) stof) (some r.text)
        r.sensor
]

-- The five blocks of the section MAIN.
unfoldable pub read_args : (List ℕ → Option Float) → Reading → Try
unfolding read_arg
read_args stof r = do
  r0 ← read_arg stof set_arg0 r
  r1 ← read_arg stof set_arg1 r0
  r2 ← read_arg stof set_arg2 r1
  r3 ← read_arg stof set_arg3 r2
  read_arg stof set_arg4 r3

-- One of the five blocks of the server: a missing comma makes both cuts return the whole text.
unfoldable pub server_read_arg : (List ℕ → Option Float) → (Float → Sensor → Sensor) → Reading → Try
server_read_arg stof set r =
    set_from set (and_then (front comma r.text) stof) (back comma r.text) r.sensor

unfoldable pub server_read_args : (List ℕ → Option Float) → Reading → Try
unfolding server_read_arg
server_read_args stof r = do
  r0 ← server_read_arg stof set_arg0 r
  r1 ← server_read_arg stof set_arg1 r0
  r2 ← server_read_arg stof set_arg2 r1
  r3 ← server_read_arg stof set_arg3 r2
  server_read_arg stof set_arg4 r3

-- The bytes of "set".
abbrev pub set_word : List ℕ
set_word = 115 ∷ 101 ∷ 116 ∷ []

-- What a step of the loop makes of the text that it read: it throws out_of_range (which ends the
-- program), it finds no line, or it has a line to parse.
pub data Selected : Type 0 where
  thrown skipped : Selected
  line : List ℕ → Selected

abbrev pub to_line : Option (List ℕ) → Selected
to_line none = thrown
to_line (some s) = line s

-- The section MAIN: runs of newlines are collapsed; a second newline must follow the first line;
-- the second line is taken if "set" occurs in the text, and else the first.
unfoldable pub select_line : List ℕ → Selected
select_line buff1 = elim (back newline buff1) [
  | none ↦ thrown
  | some buff2 ↦ elim (find newline buff2) [
    | none ↦ skipped
    | some i ↦
        to_line (if contains set_word buff1 then front newline buff2 else front newline buff1)
  ]
]

unfoldable pub select : List ℕ → Selected
unfolding select_line
select read = select_line (unique_newlines read)

-- The server: `buff1.substr(0, realSize)`, where the -1 of a failed read becomes the largest count
-- (`none`), then the text behind the first newline, up to the next one.
unfoldable pub server_select_line : List ℕ → Selected
server_select_line pch2 = elim (back newline pch2) [
  | none ↦ thrown
  | some s ↦ to_line (front newline s)
]

unfoldable pub server_select : Option ℕ → List ℕ → Selected
unfolding server_select_line substr
server_select real_size buff1 = elim (substr 0 real_size buff1) [
  | none ↦ thrown
  | some pch2 ↦ server_select_line pch2
]
