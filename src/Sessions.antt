-- ===== src/Sessions.antt =====
-- Two programs on a Windows system: each `main` with the calls that it makes of CSerialPort and of
-- Winsock, in their order, and with what becomes of the port at each way out.
-- MyoNucMotor/MyoNucMotor/main.cpp (the section MAIN) and MyoWin/MyoWin/main.cpp. A `return` and an
-- exception that `main` catches destroy the port; `exit` of ErrorHandling, and a program that is
-- ended, do not.
pub mod Programs
pub mod Phases
pub mod Handles
pub mod Client
pub mod Ends
pub mod Tests
use myodesignproject.Base.{ℕ, zero, suc, Bool, true, false, Option, none, some, List, [], ◌∷◌}
use myodesignproject.Base.Int.{ℤ, pos}
use myodesignproject.Sensor.{Float, Sensor, shared_ctor}
use myodesignproject.Line.{select}
use myodesignproject.Collector.Sdk.{Sdk}
use myodesignproject.Collector.{Collector, Event, deliver, initial, on_orientation_data}
use myodesignproject.Collector.WinCopy.{win_on_orientation_data}
use myodesignproject.Command.{strcpy_s, put_command}
use myodesignproject.Rounds.{
  Fault, overrun, unterminated, refused, uncaught, Result, ok, stop, ◌>>=◌, or_stop, receive,
  as_text,
}
use myodesignproject.Serial.Win32.{Win32}
use myodesignproject.Serial.{
  Settings, Port, closed, open_port, destroy, read, write, flush, set_timeout,
}
use myodesignproject.Startup.{
  Action, OnFailure, Ending, Program, throws, returns_one, error_handling, ignored, looping, ended,
  start,
}
use myodesignproject.Exits.{HubRun, waits, fails}
use myodesignproject.OnPort.{received_of, polled_read}
use myodesignproject.Sockets.{Connection, connected}
use myodesignproject.Sockets as Sockets
use myodesignproject.Controller as Main
use myodesignproject.Server as Server
use myodesignproject.WinClient as Win

-- `Open(PORT_NAME, CBR_9600, 8, ONESTOPBIT, NOPARITY)`; both of the last two are 0.
abbrev pub settings : Settings
settings = record { baud_rate = 9600; data_bits = 8; parity = 0; stop_bits = 0 }

-- How `main` is left, with the state of the system; `running` has the port that the loop uses.
pub data Left (W : Type 0) : Type 0 where
  running : Port → W → Left W
  returned : ℕ → W → Left W
  exited : ℕ → W → Left W
  aborted : Left W
  undefined : Left W

-- A computation on the system, and the next one unless it stops.
unfoldable pub and_then {ℓ κ} :
    {W : Type 0} {A : Type ℓ} {B : Type κ} → Result A × W → (A → W → Result B × W) → Result B × W
and_then (stop f, w) next = (stop f, w)
and_then (ok a, w) next = next a w

unfoldable pub session_rounds :
    {W I S : Type 0} → (I → S → W → Result S × W) → List I → S → W → Result S × W
session_rounds round [] s w = (ok s, w)
session_rounds round (i ∷ is) s w = and_then (round i s w) (session_rounds round is)

-- The two parts of a round, before the port is written to and after it was read, in the section MAIN
-- and in the client.
module _ (sdk : Sdk) where
  unfoldable pub command :
      (sdk.Quaternion → Collector sdk → Collector sdk)
      → List (Event sdk)
      → Collector sdk
      → List ℕ
      → Result (List ℕ × Collector sdk × List ℕ)
  command handler events c buff = do
    let collector = deliver sdk handler c events
    b1 ← or_stop refused (put_command (sdk.to_int (sdk.mul collector.speed (sdk.num 50))) buff)
    written ← as_text b1
    ok (written, collector, b1)

  unfoldable pub respond :
      (List ℕ → Option Float)
      → (Sensor → List ℕ → List ℕ)
      → Option (List ℕ)
      → Main.Controller sdk
      → Result (Main.Controller sdk × Option (List ℕ))
  respond stof serialize_to received c = do
    b2 ← receive received c.buff
    text ← as_text b2
    (outbox, sent) ← Main.answer stof serialize_to (select text) c.outbox
    ok (record c { buff = b2; outbox = outbox }, sent)

  unfoldable pub poll_into :
      Bool → Option (List ℕ) → ℕ → Collector sdk → List ℕ → Result (Win.WinClient sdk)
  poll_into polls received timer collector buff = do
    (b2, shown) ← Win.poll polls received buff
    ok (record { collector = collector; buff = b2; timer = timer })

module _ {W : Type 0} (api : Win32 W) where
  -- What follows a failed step.
  abbrev pub failed : Port → W → OnFailure → Left W
  failed p w throws = returned 1 (destroy api p w)
  failed p w returns_one = returned 1 (destroy api p w)
  failed p w error_handling = exited 1 w
  failed p w ignored = running p w

  unfoldable pub started : List Action × Ending → Port → W → Left W → Left W
  started (made, looping) p w next = next
  started (made, ended a f) p w next = failed p w f

  -- `if (!port.Open(…)) return 1;`
  unfoldable pub opened : Bool × Port × W → (Port → W → Left W) → Left W
  opened (false, p, w) next = returned 1 (destroy api p w)
  opened (true, p, w) next = next p w

  -- The connection to the client, with ErrorHandling behind each call of it that fails.
  unfoldable with_client : Connection W → (ℕ → W → Left W) → Left W
  with_client (Sockets.failed a w) next = exited 1 w
  with_client (connected server client w) next = next client w

  -- What follows a fault inside the `try` of `main`, and outside any `try`.
  abbrev pub in_try : Port → W → Fault → Left W
  in_try p w overrun = undefined
  in_try p w unterminated = undefined
  in_try p w refused = aborted
  in_try p w uncaught = returned 1 (destroy api p w)

  abbrev pub out_of_try : Port → W → Fault → Left W
  out_of_try p w overrun = undefined
  out_of_try p w unterminated = undefined
  out_of_try p w refused = aborted
  out_of_try p w uncaught = aborted

  -- What follows the last given round, by what its next hub.run does.
  abbrev pub left_rounds : HubRun → Port → W → Left W
  left_rounds waits p w = running p w
  left_rounds fails p w = in_try p w uncaught

  unfoldable pub finish {ℓ} :
      {A : Type ℓ} → (W → Fault → Left W) → Result A × W → (A → W → Left W) → Left W
  finish way (stop f, w) next = way w f
  finish way (ok a, w) next = next a w
