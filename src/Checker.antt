-- ===== src/Checker.antt =====
-- The program of the client, an Android application: MyoChecker/app/src/main/java/com/myoprj/myochecker,
-- of which Data.java is generated from data.proto and MainActivity.java has the thread `checkUpdate`
-- that reads the socket. The user interface and the video are not modelled.
pub mod Input
pub mod Parse
pub mod Sent
pub mod Numbers
pub mod Blocks
pub mod Shows
pub mod Socket
pub mod Termination
pub mod Tests
use myodesignproject.Base.{
  ℕ, zero, suc, Bool, true, false, Option, none, some, List, [], ◌∷◌, ◌++◌, length, ◌==◌,
  if◌then◌else◌,
}
use myodesignproject.Sensor.{Float}
use myodesignproject.Text.{overwrite}
use Input.{JavaWire}

-- The fields of `Data.Sensor` that the parser sets; all are 0 in a new one.
pub record DataSensor : Type 0 where
  pub arg0 : Float
  pub arg1 : Float
  pub arg2 : Float
  pub arg3 : Float
  pub arg4 : Float

abbrev pub new_sensor : DataSensor
new_sensor = record { arg0 = 0; arg1 = 0; arg2 = 0; arg3 = 0; arg4 = 0 }

abbrev pub put_arg0 : Float → DataSensor → DataSensor
put_arg0 v s = record s { arg0 = v }

abbrev pub put_arg1 : Float → DataSensor → DataSensor
put_arg1 v s = record s { arg1 = v }

abbrev pub put_arg2 : Float → DataSensor → DataSensor
put_arg2 v s = record s { arg2 = v }

abbrev pub put_arg3 : Float → DataSensor → DataSensor
put_arg3 v s = record s { arg3 = v }

abbrev pub put_arg4 : Float → DataSensor → DataSensor
put_arg4 v s = record s { arg4 = v }

-- `ended` has the last tag. `stuck` is no result of the code: the loop of the model ran out of fuel.
pub data JavaParsed : Type 0 where
  ended : ℕ → DataSensor → JavaParsed
  threw : JavaParsed
  stuck : JavaParsed

-- How one round of the loop ends.
pub data JavaRound : Type 0 where
  done : JavaParsed → JavaRound
  again : DataSensor → List ℕ → JavaRound

module _ (j : JavaWire) where
  -- `argK_ = input.readFloat();`
  unfoldable pub java_field : (Float → DataSensor → DataSensor) → List ℕ → DataSensor → JavaRound
  java_field put input s = elim (j.read_float input) [
    | none ↦ done threw
    | some (v, rest) ↦ again (put v s) rest
  ]

  -- `default:`
  unfoldable pub java_skip : ℕ → List ℕ → DataSensor → JavaRound
  java_skip tag input s = elim (j.skip_field tag input) [
    | none ↦ done threw
    | some (known, rest) ↦ if known then again s rest else done (ended tag s)
  ]

  -- The `switch`
  unfoldable pub java_switch : ℕ → List ℕ → DataSensor → JavaRound
  unfolding java_field java_skip
  java_switch tag input s =
      if tag == 0
      then done (ended 0 s)
      else if tag == 13
      then java_field put_arg0 input s
      else if tag == 21
      then java_field put_arg1 input s
      else if tag == 29
      then java_field put_arg2 input s
      else if tag == 37
      then java_field put_arg3 input s
      else if tag == 45
      then java_field put_arg4 input s
      else java_skip tag input s

  unfoldable pub java_round : List ℕ → DataSensor → JavaRound
  unfolding java_switch
  java_round input s = elim (j.read_tag input) [
    | none ↦ done threw
    | some (tag, rest) ↦ java_switch tag rest s
  ]

  unfoldable pub java_loop : ℕ → List ℕ → DataSensor → JavaParsed
  unfolding java_round
  java_loop zero input s = stuck
  java_loop (suc fuel) input s = elim (java_round input s) [
    | done r ↦ r
    | again s' rest ↦ java_loop fuel rest s'
  ]

  -- The constructor `Sensor(input, extensionRegistry)`: one round for each byte and one more are enough.
  unfoldable pub java_parse : List ℕ → JavaParsed
  unfolding java_loop
  java_parse input = java_loop (suc (length input)) input new_sensor

  -- `parseFrom(data)`; `none` is an exception.
  abbrev pub accepted : JavaParsed → Option DataSensor
  accepted (ended tag s) = if j.accepts tag then some s else none
  accepted threw = none
  accepted stuck = none

  unfoldable pub parse_from : List ℕ → Option DataSensor
  unfolding java_parse
  parse_from bytes = accepted (java_parse bytes)

-- What `networkReader.read(str, 0, 25)` does: it stores some bytes, at most 25; or the stream has ended
-- and it stores nothing; or it throws. Its answer is not looked at.
pub data Read : Type 0 where
  stored : List ℕ → Read
  at_end : Read
  io_error : Read

-- `str` behind the read; `none` is an exception, that of an array that is too small too.
unfoldable pub fill_str : Read → List ℕ → Option (List ℕ)
fill_str (stored bytes) str = overwrite bytes str
fill_str at_end str = some str
fill_str io_error str = none

-- The thread `checkUpdate`: the messages whose texts it hands to the screen, and whether it goes on; an
-- exception ends it and closes the socket. A connection that fails is an `io_error` of the first read.
-- The texts are in an array that the screen reads later, when a newer message may be in it: what is on
-- the screen is not modelled.
module _ (j : JavaWire) where
  unfoldable pub check_round : Read → List ℕ → Option (List ℕ × DataSensor)
  check_round r str = elim (fill_str r str) [
    | none ↦ none
    | some str' ↦ elim (parse_from j str') [ none ↦ none | some s ↦ some (str', s) ]
  ]

  unfoldable pub check_update : List Read → List ℕ → List DataSensor × Bool
  check_update [] str = ([], true)
  check_update (r ∷ rs) str = elim (check_round r str) [
    | none ↦ ([], false)
    | some (str', s) ↦ (let (shown, goes_on) = check_update rs str' in (s ∷ shown, goes_on))
  ]

abbrev pub zeros : ℕ → List ℕ
zeros zero = []
zeros (suc n) = 0 ∷ zeros n

-- `new byte[25]`
abbrev pub new_str : List ℕ
new_str = zeros 25
