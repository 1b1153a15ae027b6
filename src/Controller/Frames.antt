-- ===== src/Controller/Frames.antt =====
-- What the client gets of a line that could be parsed: the section MAIN of
-- MyoNucMotor/MyoNucMotor/main.cpp.
use myodesignproject.Base.{
  ℕ, ◌≤◌, ◌≡◌, refl, ◌∙◌, ap, Bool, true, false, Option, some, List, [], ◌∷◌, ◌++◌, arith, length,
  drop, take-append,
}
use myodesignproject.Sensor.{Float, IsFloat, Sensor, is_zero, shared_ctor, serialize, total_size}
use myodesignproject.Sensor.WireFormat.{Wire, IsWire}
use myodesignproject.Sensor.Parse.{success, merge_partial}
use myodesignproject.Sensor.Size.{length-serialize, total_size-full}
use myodesignproject.Sensor.Merge.{merge_args_lem}
use myodesignproject.Sensor.RoundTrip.{merge_partial-serialize}
use myodesignproject.Text.{newline}
use myodesignproject.Text.Laws.{Lacks}
use myodesignproject.Line.{Reading, Try, ran, threw, never_zero, read_args, line}
use myodesignproject.Line.Fields.{outcome, fill, setters, columns, split, read_args-fill}
use myodesignproject.Rounds.{ok, Outbox, send, IsStore}
use myodesignproject.Controller.{parse_line, answer}

pub never_zero-lem : (v : Float) → is_zero (never_zero v) ≡ false
unfolding is_zero never_zero
never_zero-lem v = ground arith

pub never_zero-IsFloat : (v : Float) → IsFloat v → IsFloat (never_zero v)
unfolding is_zero never_zero
never_zero-IsFloat v h = ground arith

pub outcome-ran :
    (m : Try) (s : Sensor) → outcome m ≡ (s, true) → (r : Reading) × (m ≡ ran r) × (r.sensor ≡ s)
outcome-ran (ran r) s e = (r, refl, ap (λ (p : Sensor × Bool). p.0) e)
outcome-ran (threw t) s e = cc

-- What a serialized message leaves in the array.
module _ {w : Wire} (lawful : IsWire w) where
  pub send_stored :
      {serialize_to : Sensor → List ℕ → List ℕ}
      → IsStore w serialize_to
      → (s : Sensor) (array : List ℕ) → total_size s ≤ length array
      → send (record { sensor = s; tcp_buffer = serialize_to s array }) ≡ (
        record {
          sensor = record s { cached_size = total_size s };
          tcp_buffer = serialize w s [] ++ drop (total_size s) array;
        },
        serialize w s [],
      )
  unfolding send
  send_stored store s array room = rw (store.stores s array room) (
      ap
        (λ (bytes : List ℕ).
          let o : Outbox = record {
            sensor = record s { cached_size = total_size s };
            tcp_buffer = serialize w s [] ++ drop (total_size s) array;
          } in
          (o, bytes))
        (rw (← length-serialize lawful s) (take-append (serialize w s []) _)))

-- The message with five numbers.
abbrev pub filled : Float → Float → Float → Float → Float → Sensor → Sensor
filled v0 v1 v2 v3 v4 s = record s { arg0 = v0; arg1 = v1; arg2 = v2; arg3 = v3; arg4 = v4 }

-- The five columns of a line, and the numbers in them.
pub record IsReading (stof : List ℕ → Option Float) (s : List ℕ) (v0 v1 v2 v3 v4 : Float)
    : Type 0 where
  pub t0 : List ℕ
  pub t1 : List ℕ
  pub t2 : List ℕ
  pub t3 : List ℕ
  pub t4 : List ℕ
  pub one_line : Lacks newline s
  pub five : columns 5 (split s) ≡ t0 ∷ t1 ∷ t2 ∷ t3 ∷ t4 ∷ []
  pub number0 : stof t0 ≡ some v0
  pub number1 : stof t1 ≡ some v1
  pub number2 : stof t2 ≡ some v2
  pub number3 : stof t3 ≡ some v3
  pub number4 : stof t4 ≡ some v4

module _ {stof : List ℕ → Option Float} {s : List ℕ} {v0 v1 v2 v3 v4 : Float}
    (reading : IsReading stof s v0 v1 v2 v3 v4) where
  pub fill-reading :
      (f : Float → Float) (m : Sensor)
      → fill stof f setters (columns 5 (split s)) m
        ≡ (filled (f v0) (f v1) (f v2) (f v3) (f v4) m, true)
  fill-reading f m = rw (
    reading.five, fill, reading.number0, fill, reading.number1, fill, reading.number2, fill,
    reading.number3, fill, reading.number4,
  )

  parse_line-reading :
      (serialize_to : Sensor → List ℕ → List ℕ) (o : Outbox)
      → let m =
          filled
            (never_zero v0)
            (never_zero v1)
            (never_zero v2)
            (never_zero v3)
            (never_zero v4)
            o.sensor in
        parse_line stof serialize_to s o
        ≡ record { sensor = m; tcp_buffer = serialize_to m o.tcp_buffer }
  unfolding parse_line
  parse_line-reading serialize_to o =
      let (r, e, same) =
        outcome-ran (read_args stof (record { sensor = o.sensor; text = s })) _
          (read_args-fill stof o.sensor s reading.one_line ∙ fill-reading never_zero o.sensor) in
      rw (e, parse_line, same)

  abbrev pub message : Sensor → Sensor
  message m =
      filled (never_zero v0) (never_zero v1) (never_zero v2) (never_zero v3) (never_zero v4) m

  message-size : (m : Sensor) → total_size (message m) ≡ 25
  message-size m =
      total_size-full (message m) (never_zero-lem v0) (never_zero-lem v1) (never_zero-lem v2)
        (never_zero-lem v3) (never_zero-lem v4)

  module _ {w : Wire} (lawful : IsWire w) {serialize_to : Sensor → List ℕ → List ℕ}
      (store : IsStore w serialize_to) where
    sent_message :
        (o : Outbox)
        → 25 ≤ length o.tcp_buffer
        → send (parse_line stof serialize_to s o) ≡ (
          record {
            sensor = record (message o.sensor) { cached_size = total_size (message o.sensor) };
            tcp_buffer =
                serialize w (message o.sensor) []
                ++ drop (total_size (message o.sensor)) o.tcp_buffer;
          },
          serialize w (message o.sensor) [],
        )
    sent_message o room = rw (parse_line-reading serialize_to o) (
        send_stored lawful store (message o.sensor) o.tcp_buffer
          (omega (arith, message-size o.sensor)))

    -- A line with five numbers makes one message of 25 bytes, the serialized numbers, and the
    -- array that it is sent from holds it too.
    pub answer-reading :
        (o : Outbox)
        → 25 ≤ length o.tcp_buffer
        → let frame = serialize w (message o.sensor) [] in
          (answer stof serialize_to (line s) o
            ≡ ok (
              record {
                sensor = record (message o.sensor) { cached_size = 25 };
                tcp_buffer = frame ++ drop 25 o.tcp_buffer;
              },
              some frame,
            ))
          × (length frame ≡ 25)
    unfolding answer
    answer-reading o room = (
      rw (sent_message o room, answer, message-size o.sensor),
      length-serialize lawful (message o.sensor) ∙ message-size o.sensor,
    )

    -- A fresh message that parses those bytes holds the five numbers, with -1 for each 0.
    pub frame_decoded :
        (m : Sensor)
        → IsFloat v0
        → IsFloat v1
        → IsFloat v2
        → IsFloat v3
        → IsFloat v4
        → merge_partial w (serialize w (message m) []) shared_ctor ≡ success (message shared_ctor)
    frame_decoded m h0 h1 h2 h3 h4 =
        merge_partial-serialize lawful (message m) (never_zero-IsFloat v0 h0)
          (never_zero-IsFloat v1 h1) (never_zero-IsFloat v2 h2) (never_zero-IsFloat v3 h3)
          (never_zero-IsFloat v4 h4) shared_ctor
        ∙ ap success (
            merge_args_lem (message m) shared_ctor
            ∙ rw (
              never_zero-lem v0,
              never_zero-lem v1,
              never_zero-lem v2,
              never_zero-lem v3,
              never_zero-lem v4,
            ))

    -- With a library that keeps to IsWire and IsStore: where std::stof converts the first five
    -- columns of a line without a newline (the last column again where there are fewer) to bit
    -- patterns below 2 ^ 32, and tcpBuffer has 25 bytes or more, the section MAIN sends exactly 25
    -- bytes, and a fresh Sensor that parses these bytes succeeds and holds the five numbers, with
    -- -1 in place of each 0.
    pub line_to_client :
        (o : Outbox)
        → 25 ≤ length o.tcp_buffer
        → IsFloat v0
        → IsFloat v1
        → IsFloat v2
        → IsFloat v3
        → IsFloat v4
        → (o' : Outbox) × (frame : List ℕ) × (answer stof serialize_to (line s) o
            ≡ ok (o', some frame))
          × (length frame ≡ 25)
          × (merge_partial w frame shared_ctor ≡ success (message shared_ctor))
    line_to_client o room h0 h1 h2 h3 h4 =
        let (e, size) = answer-reading o room in
        (_, _, e, size, frame_decoded o.sensor h0 h1 h2 h3 h4)
