-- ===== src/WinClient.antt =====
-- The loop of MyoWin/MyoWin/main.cpp, and of the section MyoWin of
-- MyoNucMotor/MyoNucMotor/main.cpp, which has another period and the other copy of the listener. It
-- writes a speed command in every round and reads the serial line in some. One round is given the
-- events that `hub.run` delivers and what `port.Read` would store. `Sleep` and what is printed for
-- the user are not modelled, but for the text `pch3`.
pub mod Timer
pub mod Bounds
pub mod Tests
use myodesignproject.Base.{
  ℕ, zero, suc, ◌+◌, Bool, true, false, Option, none, some, List, [], ◌∷◌, ◌++◌, if◌then◌else◌,
  ◌==◌, length, take,
}
use myodesignproject.Text.{newline}
use myodesignproject.Collector.Sdk.{Sdk}
use myodesignproject.Collector.{Collector, Event, deliver, on_orientation_data}
use myodesignproject.Collector.WinCopy.{win_on_orientation_data}
use myodesignproject.Command.{put_command}
use myodesignproject.Rounds.{
  rounds, Fault, refused, Result, ok, stop, ◌>>=◌, or_stop, receive, as_text,
}

pub record WinClient (sdk : Sdk) : Type 0 where
  pub collector : Collector sdk
  pub buff : List ℕ
  pub timer : ℕ

pub record Input (sdk : Sdk) : Type 0 where
  pub events : List (Event sdk)
  pub received : Option (List ℕ)

pub record Output : Type 0 where
  pub written : List ℕ
  pub shown : Option (List ℕ)

-- The timer: whether this round reads the serial line, and the timer after it.
unfoldable pub tick : ℕ → ℕ → Bool × ℕ
tick period timer = if timer == period then (true, 1) else (false, suc timer)

-- `strtok_s(s, "\n", context)`: leading newlines are skipped, the newline that ends the token
-- becomes a zero byte, and the context is what follows; at the zero byte of the text it stays there.
unfoldable pub end_token : List ℕ → List ℕ × List ℕ
end_token [] = ([], [])
end_token (c ∷ s) =
    let (token, context) = end_token s in
    if c == 0 then ([], c ∷ s) else if c == newline then (0 ∷ [], s) else (c ∷ token, context)

unfoldable pub strtok_s : List ℕ → List ℕ × List ℕ
unfolding end_token
strtok_s [] = ([], [])
strtok_s (c ∷ s) =
    let (token, context) = strtok_s s in
    if c == newline then (c ∷ token, context) else end_token (c ∷ s)

-- The array after both calls of `strtok_s`.
unfoldable pub tokenize : List ℕ → List ℕ
tokenize buff =
    let (first, context) = strtok_s buff in
    let (second, rest) = strtok_s context in first ++ (second ++ rest)

-- `buff1.substr(0, n)`: the -1 of a failed read is the largest count.
abbrev pub shown_text : Option (List ℕ) → List ℕ → List ℕ
shown_text none text = text
shown_text (some bytes) text = take (length bytes) text

-- The part of a round under `if (timer == period)`.
abbrev pub poll : Bool → Option (List ℕ) → List ℕ → Result (List ℕ × Option (List ℕ))
poll false received buff = ok (buff, none)
poll true received buff = do
  b ← receive received buff
  text ← as_text b
  ok (tokenize b, some (shown_text received text))

module _ (sdk : Sdk) (handler : sdk.Quaternion → Collector sdk → Collector sdk) (period : ℕ) where
  unfoldable pub round : Input sdk → WinClient sdk → Result (WinClient sdk × Output)
  round i c = do
    let collector = deliver sdk handler c.collector i.events
    let (polls, timer) = tick period c.timer
    b1 ← or_stop refused (put_command (sdk.to_int (sdk.mul collector.speed (sdk.num 50))) c.buff)
    written ← as_text b1
    (b2, shown) ← poll polls i.received b1
    ok (
      record { collector = collector; buff = b2; timer = timer },
      record { written = written; shown = shown },
    )

  -- The rounds of the endless loop, as far as there are inputs.
  abbrev pub run : List (Input sdk) → WinClient sdk → Result (WinClient sdk × List Output)
  run = rounds round

-- The round of MyoWin/MyoWin/main.cpp, and that of the section of MyoNucMotor/MyoNucMotor/main.cpp.
abbrev pub win_round : (sdk : Sdk) → Input sdk → WinClient sdk → Result (WinClient sdk × Output)
win_round sdk = round sdk (win_on_orientation_data sdk) 100

abbrev pub client_section_round :
    (sdk : Sdk) → Input sdk → WinClient sdk → Result (WinClient sdk × Output)
client_section_round sdk = round sdk (on_orientation_data sdk) 10
