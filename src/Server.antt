-- ===== src/Server.antt =====
-- The loop of NUCServer/NUCServer/Server.cpp (the section NUCServer of
-- MyoNucMotor/MyoNucMotor/main.cpp has the same code). It forwards the readings of the serial line
-- to the client, and nothing after a line that cannot be parsed. The empty counting loop that delays
-- a round, and what is printed, are not modelled.
pub mod Frames
pub mod Refines
pub mod Whole
pub mod Tests
use myodesignproject.Base.{ℕ, Option, none, some, List, [], ◌∷◌, length}
use myodesignproject.Sensor.{Float, Sensor}
use myodesignproject.Line.{
  Reading, Try, ran, threw, server_read_args, Selected, thrown, skipped, line, server_select,
}
use myodesignproject.Rounds.{
  rounds, Fault, overrun, unterminated, uncaught, Result, ok, stop, ◌>>=◌, receive, as_text, Outbox,
  send,
}

pub record Server : Type 0 where
  pub serial_buffer : List ℕ
  pub outbox : Outbox

-- `realSize`, as the count of `substr`: the -1 of a failed read is the largest count.
abbrev pub real_size : Option (List ℕ) → Option ℕ
real_size none = none
real_size (some bytes) = some (length bytes)

-- `catch … continue`, or `SerializeToArray` and `send`.
abbrev pub forward : (Sensor → List ℕ → List ℕ) → Try → Outbox → Outbox × Option (List ℕ)
forward serialize_to (threw sensor) o = (record o { sensor = sensor }, none)
forward serialize_to (ran r) o =
    let stored = serialize_to r.sensor o.tcp_buffer in
    let (o', bytes) = send (record { sensor = r.sensor; tcp_buffer = stored }) in (o', some bytes)

unfoldable pub answer :
    (List ℕ → Option Float)
    → (Sensor → List ℕ → List ℕ)
    → Selected
    → Outbox
    → Result (Outbox × Option (List ℕ))
answer stof serialize_to thrown o = stop uncaught
answer stof serialize_to skipped o = ok (o, none)
answer stof serialize_to (line s) o =
    ok (forward serialize_to (server_read_args stof (record { sensor = o.sensor; text = s })) o)

-- The answers to the reads of some rounds: `realSize` and the text of each.
abbrev pub server_answers :
    (List ℕ → Option Float)
    → (Sensor → List ℕ → List ℕ)
    → List (Option ℕ × List ℕ)
    → Outbox
    → Result (Outbox × List (Option (List ℕ)))
server_answers stof serialize_to =
    rounds (λ (r : Option ℕ × List ℕ) o. answer stof serialize_to (server_select r.0 r.1) o)

module _ (stof : List ℕ → Option Float) (serialize_to : Sensor → List ℕ → List ℕ) where
  unfoldable pub round : Option (List ℕ) → Server → Result (Server × Option (List ℕ))
  round received s = do
    buffer ← receive received s.serial_buffer
    text ← as_text buffer
    (outbox, sent) ← answer stof serialize_to (server_select (real_size received) text) s.outbox
    ok (record { serial_buffer = buffer; outbox = outbox }, sent)

  -- The rounds of the loop, as far as there are reads; what was sent comes in order.
  abbrev pub run : List (Option (List ℕ)) → Server → Result (Server × List (Option (List ℕ)))
  run = rounds round

  -- The round of the section NUCServer of MyoNucMotor/MyoNucMotor/main.cpp
  abbrev pub server_section_round : Option (List ℕ) → Server → Result (Server × Option (List ℕ))
  server_section_round = round
