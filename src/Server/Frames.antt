-- ===== src/Server/Frames.antt =====
-- What the client gets for a line that was selected: NUCServer/NUCServer/Server.cpp.
use myodesignproject.Base.{
  ℕ, ◌≤◌, ◌≡◌, ◌∙◌, ap, Bool, true, false, Option, none, some, List, [], ◌++◌, arith, length, drop,
}
use myodesignproject.Sensor.{Float, IsFloat, Sensor, shared_ctor, serialize, total_size, merge_args}
use myodesignproject.Sensor.WireFormat.{Wire, IsWire}
use myodesignproject.Sensor.Parse.{success, merge_partial}
use myodesignproject.Sensor.Size.{total_size-le}
use myodesignproject.Sensor.RoundTrip.{merge_partial-serialize}
use myodesignproject.Text.{newline}
use myodesignproject.Text.Laws.{Lacks}
use myodesignproject.Line.{Try, ran, threw, server_read_args, line}
use myodesignproject.Line.Fields.{outcome, fill, setters, columns, split, server_read_args-fill}
use myodesignproject.Rounds.{ok, Outbox, IsStore}
use myodesignproject.Sensor.Size.{length-serialize}
use myodesignproject.Controller.Frames.{send_stored}
use myodesignproject.Server.{forward, answer}

forward-threw :
    (serialize_to : Sensor → List ℕ → List ℕ) (t : Try) (m : Sensor) (o : Outbox)
    → outcome t ≡ (m, false)
    → forward serialize_to t o ≡ (record o { sensor = m }, none)
forward-threw serialize_to (ran r) m o e = cc
forward-threw serialize_to (threw n) m o e =
    ap (λ (p : Sensor × Bool). (record o { sensor = p.0 }, none)) e

-- Where one of the first five columns of a line without a newline is no number, the server sends
-- nothing; its message has taken the numbers before that column, and its array keeps its bytes.
pub answer_drops :
    (stof : List ℕ → Option Float) (serialize_to : Sensor → List ℕ → List ℕ) (s : List ℕ)
    (o : Outbox) (m : Sensor)
    → Lacks newline s
    → fill stof (λ v. v) setters (columns 5 (split s)) o.sensor ≡ (m, false)
    → answer stof serialize_to (line s) o ≡ ok (record o { sensor = m }, none)
unfolding answer
answer_drops stof serialize_to s o m one failed = ap ok (
    forward-threw serialize_to (server_read_args stof (record { sensor = o.sensor; text = s })) m o
      (server_read_args-fill stof o.sensor s one ∙ failed))

module _ {w : Wire} (lawful : IsWire w) {serialize_to : Sensor → List ℕ → List ℕ}
    (store : IsStore w serialize_to) where
  pub forward-ran :
      (t : Try) (m : Sensor) (o : Outbox)
      → outcome t ≡ (m, true)
      → 25 ≤ length o.tcp_buffer
      → forward serialize_to t o ≡ (
        record {
          sensor = record m { cached_size = total_size m };
          tcp_buffer = serialize w m [] ++ drop (total_size m) o.tcp_buffer;
        },
        some (serialize w m []),
      )
  forward-ran (threw n) m o e room = cc
  forward-ran (ran r) m o e room =
      let same : r.sensor ≡ m = ap (λ (p : Sensor × Bool). p.0) e in
      rw (same, send_stored lawful store m o.tcp_buffer (omega (arith, total_size-le m)))

  -- With a library that keeps to IsWire and IsStore: where the first five columns of a line
  -- without a newline (the last column again where there are fewer) are numbers, the message then
  -- holds bit patterns below 2 ^ 32, and tcpBuffer has 25 bytes or more: the server sends ByteSize
  -- bytes, and a fresh Sensor that parses them succeeds with the message's arguments that are not
  -- a zero.
  pub answer_forwards :
      (stof : List ℕ → Option Float) (s : List ℕ) (o : Outbox) (m : Sensor)
      → Lacks newline s
      → fill stof (λ v. v) setters (columns 5 (split s)) o.sensor ≡ (m, true)
      → 25 ≤ length o.tcp_buffer
      → IsFloat m.arg0
      → IsFloat m.arg1
      → IsFloat m.arg2
      → IsFloat m.arg3
      → IsFloat m.arg4
      → (o' : Outbox) × (frame : List ℕ) × (answer stof serialize_to (line s) o
          ≡ ok (o', some frame))
        × (length frame ≡ total_size m)
        × (merge_partial w frame shared_ctor ≡ success (merge_args m shared_ctor))
  unfolding answer
  answer_forwards stof s o m one filled room h0 h1 h2 h3 h4 = (
    _,
    _,
    ap ok (
        forward-ran (server_read_args stof (record { sensor = o.sensor; text = s })) m o
          (server_read_args-fill stof o.sensor s one ∙ filled) room),
    length-serialize lawful m,
    merge_partial-serialize lawful m h0 h1 h2 h3 h4 shared_ctor,
  )
