-- ===== src/Server/Refines.antt =====
-- The loop of NUCServer/NUCServer/Server.cpp against what it promises its client: a line with five
-- numbers is sent as these numbers, and nothing is sent for any other read. What the server sends
-- does not depend on what it has read before.
use myodesignproject.Base.{
  ℕ, ◌≤◌, ◌≡◌, refl, ◌∙◌, ap, Bool, Option, none, some, List, [], ◌∷◌, ◌++◌, arith, length, drop,
  length-append, length-drop,
}
use myodesignproject.Sensor.{Float, Sensor, serialize, total_size}
use myodesignproject.Sensor.WireFormat.{Wire, IsWire}
use myodesignproject.Text.{newline}
use myodesignproject.Text.Laws.{Lacks}
use myodesignproject.Line.{Selected, thrown, skipped, line, server_select, server_read_args}
use myodesignproject.Line.Fields.{fill, setters, columns, split, server_read_args-fill}
use myodesignproject.Line.Select.{IsCut, server_select-IsCut}
use myodesignproject.Rounds.{Result, ok, rounds, Outbox, IsStore}
use myodesignproject.Sensor.Size.{length-serialize}
use myodesignproject.Controller.Spec.{
  Numbers, each, numbers_of, put_all, frame_of, frames_of, all_frames,
}
use myodesignproject.Controller.Refines.{length-columns, Stores, fill-Stores, same_frame}
use myodesignproject.Server.{answer, server_answers}
use myodesignproject.Server.Frames.{answer_drops, forward-ran}

-- The numbers of a read, and of all reads.
abbrev pub reading_of : (List ℕ → Option Float) → Selected → Option Numbers
reading_of stof thrown = none
reading_of stof skipped = none
reading_of stof (line s) = numbers_of stof s

abbrev pub readings_of : (List ℕ → Option Float) → List (Option ℕ × List ℕ) → List (Option Numbers)
readings_of stof [] = []
readings_of stof (r ∷ rs) = reading_of stof (server_select r.0 r.1) ∷ readings_of stof rs

each-same : (vs : Numbers) → each (λ v. v) vs ≡ vs
each-same [] = refl
each-same (v ∷ vs) = ap (λ (us : Numbers). v ∷ us) (each-same vs)

module _ {w : Wire} (lawful : IsWire w) (stof : List ℕ → Option Float)
    {serialize_to : Sensor → List ℕ → List ℕ} (store : IsStore w serialize_to) where
  -- The answer is an `ok` with those bytes, and the array keeps its room.
  abbrev Sends : Option (List ℕ) → Result (Outbox × Option (List ℕ)) → Type 0
  Sends sent m = (o : Outbox) × (m ≡ ok (o, sent)) × (25 ≤ length o.tcp_buffer)

  line-Sends :
      (s : List ℕ) (o : Outbox) (vs : Option Numbers)
      → Lacks newline s
      → 25 ≤ length o.tcp_buffer
      → Stores
          (λ v. v)
          setters
          o.sensor
          vs
          (fill stof (λ v. v) setters (columns 5 (split s)) o.sensor)
      → Sends (frames_of w vs) (answer stof serialize_to (line s) o)
  unfolding answer
  line-Sends s o none one room e =
      let r = fill stof (λ v. v) setters (columns 5 (split s)) o.sensor in
      (
        record o { sensor = r.0 },
        answer_drops stof serialize_to s o r.0 one (ap (λ (b : Bool). (r.0, b)) e),
        room,
      )
  line-Sends s o (some vs) one room (e, five) =
      let m = put_all setters (each (λ v. v) vs) o.sensor in
      let bytes : serialize w m [] ≡ frame_of w vs =
        rw (each-same vs) (same_frame w vs o.sensor five) in
      let o1 : Outbox = record {
        sensor = record m { cached_size = total_size m };
        tcp_buffer = serialize w m [] ++ drop (total_size m) o.tcp_buffer;
      } in
      let filled = server_read_args-fill stof o.sensor s one ∙ e in
      (
        o1,
        ap ok (
              forward-ran lawful store
                (server_read_args stof (record { sensor = o.sensor; text = s })) m o filled room)
            ∙ ap (λ (b : List ℕ). ok (o1, some b)) bytes,
        omega (
          arith,
          length-append (serialize w m []) (drop (total_size m) o.tcp_buffer),
          length-drop (total_size m) o.tcp_buffer,
          length-serialize lawful m,
          room,
        ),
      )

  answer-Sends :
      (c : Selected) (o : Outbox)
      → IsCut c
      → 25 ≤ length o.tcp_buffer
      → Sends (frames_of w (reading_of stof c)) (answer stof serialize_to c o)
  unfolding answer
  answer-Sends thrown o cut room = absurd cut
  answer-Sends skipped o cut room = (o, refl, room)
  answer-Sends (line s) o cut room =
      line-Sends s o (numbers_of stof s) cut room
        (fill-Stores (λ v. v) stof setters (columns 5 (split s)) o.sensor (length-columns 5 s))

  -- With a library that keeps to IsWire and IsStore, for any texts that are read, and a tcpBuffer
  -- of 25 bytes or more: the answers of the server do not stop it, and each sends the bytes of a
  -- message with the five numbers of its own line where the line has them, and nothing else,
  -- whatever was read before.
  pub server_answers-refine :
      (rs : List (Option ℕ × List ℕ)) (o : Outbox)
      → 25 ≤ length o.tcp_buffer
      → (o' : Outbox) × (server_answers stof serialize_to rs o
          ≡ ok (o', all_frames w (readings_of stof rs)))
  unfolding rounds
  server_answers-refine [] o room = (o, refl)
  server_answers-refine (r ∷ rs) o room =
      let (o1, e, room1) =
        answer-Sends (server_select r.0 r.1) o (server_select-IsCut r.0 r.1) room in
      let (o2, e2) = server_answers-refine rs o1 room1 in (o2, rw (e, rounds, e2))
