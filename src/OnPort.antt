-- ===== src/OnPort.antt =====
-- The loops of NUCServer/NUCServer/Server.cpp, of the section MAIN of
-- MyoNucMotor/MyoNucMotor/main.cpp and of MyoWin/MyoWin/main.cpp together with the class CSerialPort:
-- each round reads its bytes by `Read` of an open port. The state is that of the loop and that of the
-- operating system.
pub mod Bounds
pub mod Client
pub mod Overrun
pub mod Tests
use myodesignproject.Base.{ℕ, Bool, true, false, Option, none, some, List}
use myodesignproject.Base.Int.{ℤ, pos, negsuc}
use myodesignproject.Sensor.{Float, Sensor}
use myodesignproject.Collector.Sdk.{Sdk}
use myodesignproject.Collector.{Collector, Event}
use myodesignproject.Rounds.{Result, ok, stop, ◌>>=◌, rounds}
use myodesignproject.Serial.Win32.{Win32}
use myodesignproject.Serial.{Port, read}
use myodesignproject.Controller as Main
use myodesignproject.Server as Server
use myodesignproject.WinClient as Win

-- What `Read` stored, by its result.
abbrev pub received_of : ℤ × List ℕ → Option (List ℕ)
received_of (pos n, bytes) = some bytes
received_of (negsuc n, bytes) = none

module _ {W : Type 0} (api : Win32 W) (port : Port) where
  -- A round that is given what `Read` of at most `size` bytes delivers.
  unfoldable pub feed :
      {I S O : Type 0}
      → ℕ
      → (I → Option (List ℕ) → S → Result (S × O))
      → I
      → S × W
      → Result ((S × W) × O)
  feed size round i (s, w) = do
    let (answer, w') = read api size port w
    (s', out) ← round i (received_of answer) s
    ok ((s', w'), out)

  -- The server reads as many bytes as `serialBuffer` has, BUFSIZ.
  abbrev pub server_on_port :
      (List ℕ → Option Float)
      → (Sensor → List ℕ → List ℕ)
      → ℕ
      → List (Unit {0})
      → Server.Server × W
      → Result ((Server.Server × W) × List (Option (List ℕ)))
  server_on_port stof serialize_to bufsiz =
      rounds (feed bufsiz (λ (next : Unit {0}) received. Server.round stof serialize_to received))

  -- The section MAIN reads up to 1024 bytes.
  abbrev pub main_on_port :
      (sdk : Sdk)
      → (List ℕ → Option Float)
      → (Sensor → List ℕ → List ℕ)
      → List (List (Event sdk))
      → Main.Controller sdk × W
      → Result ((Main.Controller sdk × W) × List Main.Output)
  main_on_port sdk stof serialize_to = rounds (
      feed 1024 (λ (events : List (Event sdk)) received.
        Main.round sdk stof serialize_to (record { events = events; received = received })))

  -- The client reads up to 1024 bytes, in the rounds of its timer only.
  abbrev pub polled_read : Bool → W → Option (List ℕ) × W
  polled_read true w = let (answer, w') = read api 1024 port w in (received_of answer, w')
  polled_read false w = (none, w)

  unfoldable pub win_port_round :
      (sdk : Sdk)
      → (sdk.Quaternion → Collector sdk → Collector sdk)
      → ℕ
      → List (Event sdk)
      → Win.WinClient sdk × W
      → Result ((Win.WinClient sdk × W) × Win.Output)
  win_port_round sdk handler period events (c, w) = do
    let (received, w') = polled_read (Win.tick period c.timer).0 w
    (c', out) ← Win.round sdk handler period (record { events = events; received = received }) c
    ok ((c', w'), out)

  abbrev pub win_on_port :
      (sdk : Sdk)
      → (sdk.Quaternion → Collector sdk → Collector sdk)
      → ℕ
      → List (List (Event sdk))
      → Win.WinClient sdk × W
      → Result ((Win.WinClient sdk × W) × List Win.Output)
  win_on_port sdk handler period = rounds (win_port_round sdk handler period)
