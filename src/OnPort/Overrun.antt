-- ===== src/OnPort/Overrun.antt =====
-- The read of the section MAIN (MyoNucMotor/MyoNucMotor/main.cpp) that its array has no room for.
use myodesignproject.Base.{ℕ, ◌≤◌, ◌<◌, ◌≡◌, refl, Option, none, some, List, ◌∷◌, arith, length}
use myodesignproject.Sensor.{Float, Sensor}
use myodesignproject.Text.{overwrite}
use myodesignproject.Collector.Sdk.{Sdk}
use myodesignproject.Collector.{Event, deliver, on_orientation_data}
use myodesignproject.Command.Digits.{Fits}
use myodesignproject.Command.Buffer.{put_command_text}
use myodesignproject.Rounds.{overrun, stop, receive, as_text, rounds}
use myodesignproject.Serial.Win32.{Win32}
use myodesignproject.Serial.{Port, read}
use myodesignproject.Controller as Main
use myodesignproject.OnPort.{feed, main_on_port}

overwrite-long : (bytes array : List ℕ) → length array < length bytes → overwrite bytes array ≡ none
unfolding overwrite
overwrite-long bytes array h = ground arith

module _ {W : Type 0} (api : Win32 W) (port : Port) (sdk : Sdk) (stof : List ℕ → Option Float)
    (serialize_to : Sensor → List ℕ → List ℕ) where
  -- Where a read of the section MAIN delivers more bytes than its buff of ten bytes or more has,
  -- at a speed that has room in the command, the program writes behind buff.
  pub main_on_port-overruns :
      (events : List (Event sdk)) (is : List (List (Event sdk))) (c : Main.Controller sdk)
      (w w' : W) (bytes : List ℕ)
      → let d = deliver sdk (on_orientation_data sdk) c.collector events in
        Fits (sdk.to_int (sdk.mul d.speed (sdk.num 50)))
        → 10 ≤ length c.buff
        → api.read_file port 1024 w ≡ (some bytes, w')
        → length c.buff < length bytes
        → main_on_port api port sdk stof serialize_to (events ∷ is) (c, w) ≡ stop overrun
  unfolding rounds feed read Main.round receive as_text
  main_on_port-overruns events is c w w' bytes fits room e long =
      let d = deliver sdk (on_orientation_data sdk) c.collector events in
      let v = sdk.to_int (sdk.mul d.speed (sdk.num 50)) in
      let (b, put, text, size) = put_command_text v c.buff fits room in
      let lost : overwrite bytes b ≡ none = overwrite-long bytes b (omega (arith, size, long)) in
      rw (e, rounds, feed, Main.round, put, text, lost) refl
