-- ===== src/Controller.antt =====
-- The loop of the section MAIN of MyoNucMotor/MyoNucMotor/main.cpp, from the armband over the motor
-- controller to the client. One round is given the events that `hub.run` delivers and what
-- `port.Read` stores, and tells what was written to the serial line and what was sent.
-- Parameters: the SDK, the protocol buffer library, std::stof. The answers of `port.Write` and
-- `send` are not looked at by the code, and what it prints is not modelled.
pub mod Rules
pub mod Frames
pub mod Repeats
pub mod Ready
pub mod Spec
pub mod Refines
pub mod Begins
pub mod Whole
pub mod Safety
pub mod Tests
use myodesignproject.Base.{ℕ, Option, none, some, List, [], ◌∷◌}
use myodesignproject.Sensor.{Float, Sensor}
use myodesignproject.Line.{
  Reading, Try, ran, threw, read_args, Selected, thrown, skipped, line, select,
}
use myodesignproject.Collector.Sdk.{Sdk}
use myodesignproject.Collector.{Collector, Event, deliver, on_orientation_data}
use myodesignproject.Command.{put_command}
use myodesignproject.Rounds.{
  rounds, Fault, overrun, unterminated, refused, uncaught, Result, ok, stop, ◌>>=◌, or_stop,
  receive, as_text, Outbox, send,
}

pub record Controller (sdk : Sdk) : Type 0 where
  pub collector : Collector sdk
  pub buff : List ℕ
  pub outbox : Outbox

pub record Input (sdk : Sdk) : Type 0 where
  pub events : List (Event sdk)
  pub received : Option (List ℕ)

pub record Output : Type 0 where
  pub written : List ℕ
  pub sent : Option (List ℕ)

-- The inner `try` block and its handler: after an exception the array keeps its bytes.
unfoldable pub parse_line :
    (List ℕ → Option Float) → (Sensor → List ℕ → List ℕ) → List ℕ → Outbox → Outbox
parse_line stof serialize_to s o = elim (read_args stof (record { sensor = o.sensor; text = s })) [
  | ran r ↦ record { sensor = r.sensor; tcp_buffer = serialize_to r.sensor o.tcp_buffer }
  | threw sensor ↦ record o { sensor = sensor }
]

-- The part of a round behind `std::string buff1 = buff`. A message is sent whether or not the line
-- could be parsed.
unfoldable pub answer :
    (List ℕ → Option Float)
    → (Sensor → List ℕ → List ℕ)
    → Selected
    → Outbox
    → Result (Outbox × Option (List ℕ))
answer stof serialize_to thrown o = stop uncaught
answer stof serialize_to skipped o = ok (o, none)
answer stof serialize_to (line s) o =
    let (o', bytes) = send (parse_line stof serialize_to s o) in ok (o', some bytes)

-- The answers to the texts of some rounds.
abbrev pub answers :
    (List ℕ → Option Float)
    → (Sensor → List ℕ → List ℕ)
    → List (List ℕ)
    → Outbox
    → Result (Outbox × List (Option (List ℕ)))
answers stof serialize_to = rounds (λ text o. answer stof serialize_to (select text) o)

module _ (sdk : Sdk) (stof : List ℕ → Option Float) (serialize_to : Sensor → List ℕ → List ℕ) where
  unfoldable pub round : Input sdk → Controller sdk → Result (Controller sdk × Output)
  round i c = do
    let collector = deliver sdk (on_orientation_data sdk) c.collector i.events
    b1 ← or_stop refused (put_command (sdk.to_int (sdk.mul collector.speed (sdk.num 50))) c.buff)
    written ← as_text b1
    b2 ← receive i.received b1
    text ← as_text b2
    (outbox, sent) ← answer stof serialize_to (select text) c.outbox
    ok (
      record { collector = collector; buff = b2; outbox = outbox },
      record { written = written; sent = sent },
    )

  -- The endless loop, as far as there are inputs.
  abbrev pub run : List (Input sdk) → Controller sdk → Result (Controller sdk × List Output)
  run = rounds round
