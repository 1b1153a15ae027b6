-- ===== src/Controller/Ready.antt =====
-- Every message that the section MAIN of MyoNucMotor/MyoNucMotor/main.cpp sends, once it has sent one
-- for a line with five numbers.
pub mod Runs
use myodesignproject.Base.{
  ℕ, ◌≤◌, ◌≡◌, refl, subst, sym, ◌∙◌, ap, Bool, true, false, Option, none, some, List, [], ◌∷◌,
  ◌++◌, arith, length, drop, length-append, All,
}
use myodesignproject.Sensor.{Float, Sensor, serialize, total_size}
use myodesignproject.Sensor.WireFormat.{Wire, IsWire}
use myodesignproject.Text.{newline}
use myodesignproject.Text.Laws.{Lacks}
use myodesignproject.Line.{never_zero, read_args, Selected, thrown, skipped, line, select}
use myodesignproject.Line.Fields.{outcome, fill, setters, columns, split, read_args-fill}
use myodesignproject.Line.Select.{IsCut, select-IsCut}
use myodesignproject.Collector.Sdk.{Sdk}
use myodesignproject.Collector.{Collector, deliver, on_orientation_data}
use myodesignproject.Command.{put_command}
use myodesignproject.Rounds.{
  refused, Result, ok, stop, ◌>>=◌, or_stop, receive, as_text, Outbox, IsStore,
}
use myodesignproject.Controller.{Controller, Input, Output, parse_line, answer, round, run}
use myodesignproject.Sensor.Size.{length-serialize}
use myodesignproject.Controller.Frames.{
  IsReading, message, fill-reading, never_zero-lem, send_stored, outcome-ran,
}
use myodesignproject.Controller.Repeats.{
  IsFull, IsFull-size, fill-IsFull, setters-Keeps, answer_repeats,
}

-- The message has no zero, and the array holds one like it.
pub record Ready (w : Wire) (o : Outbox) : Type 0 where
  pub full : IsFull o.sensor
  pub last : Sensor
  pub behind : List ℕ
  pub last_full : IsFull last
  pub held : o.tcp_buffer ≡ serialize w last [] ++ behind

-- Nothing was sent, or the bytes of a message without a zero.
abbrev pub Sent : Wire → Option (List ℕ) → Type 0
Sent w none = Unit
Sent w (some frame) = (m : Sensor) × IsFull m × (frame ≡ serialize w m [])

-- What a round hands on, if it does not end the program.
abbrev pub Answers : Wire → Result (Outbox × Option (List ℕ)) → Type 0
Answers w (stop f) = ⊥
Answers w (ok (o, sent)) = Ready w o × Sent w sent

module _ {w : Wire} (lawful : IsWire w) (stof : List ℕ → Option Float)
    {serialize_to : Sensor → List ℕ → List ℕ} (store : IsStore w serialize_to) where
  Ready-room : (o : Outbox) → Ready w o → 25 ≤ length o.tcp_buffer
  Ready-room o r = omega (
    arith,
    ap length r.held,
    length-append (serialize w r.last []) r.behind,
    length-serialize lawful r.last,
    IsFull-size r.last_full,
  )

  parse_line-ran :
      (s : List ℕ) (o : Outbox) (m : Sensor)
      → outcome (read_args stof (record { sensor = o.sensor; text = s })) ≡ (m, true)
      → parse_line stof serialize_to s o
        ≡ record { sensor = m; tcp_buffer = serialize_to m o.tcp_buffer }
  unfolding parse_line
  parse_line-ran s o m e =
      let (r, e', same) =
        outcome-ran (read_args stof (record { sensor = o.sensor; text = s })) m e in
      rw (e', parse_line, same)

  pub answer-ran :
      (s : List ℕ) (o : Outbox) (m : Sensor)
      → outcome (read_args stof (record { sensor = o.sensor; text = s })) ≡ (m, true)
      → total_size m ≤ length o.tcp_buffer
      → answer stof serialize_to (line s) o
        ≡ ok (
          record {
            sensor = record m { cached_size = total_size m };
            tcp_buffer = serialize w m [] ++ drop (total_size m) o.tcp_buffer;
          },
          some (serialize w m []),
        )
  unfolding answer
  answer-ran s o m e room =
      rw (parse_line-ran s o m e, send_stored lawful store m o.tcp_buffer room)

  ran-Answers :
      (s : List ℕ) (o : Outbox) (m : Sensor)
      → outcome (read_args stof (record { sensor = o.sensor; text = s })) ≡ (m, true)
      → 25 ≤ length o.tcp_buffer
      → IsFull m
      → Answers w (answer stof serialize_to (line s) o)
  ran-Answers s o m e room full =
      subst (Answers w) (sym (answer-ran s o m e (omega (arith, IsFull-size full)))) (
        record {
          full = record {
            full0 = full.full0;
            full1 = full.full1;
            full2 = full.full2;
            full3 = full.full3;
            full4 = full.full4;
          };
          last = m;
          behind = drop (total_size m) o.tcp_buffer;
          last_full = full;
          held = refl;
        },
        (m, full, refl),
      )

  -- With a library that keeps to IsWire and IsStore: from any message and any tcpBuffer of 25
  -- bytes or more, a line whose first five columns are numbers (as in
  -- Controller.Frames.line_to_client) leads to a state where the message has no zero and tcpBuffer
  -- begins with the bytes of a message without a zero, as are the bytes that are sent, if any.
  pub reading-Answers :
      {s : List ℕ} {v0 v1 v2 v3 v4 : Float}
      → IsReading stof s v0 v1 v2 v3 v4
      → (o : Outbox) → 25 ≤ length o.tcp_buffer
      → Answers w (answer stof serialize_to (line s) o)
  reading-Answers {s} {v0} {v1} {v2} {v3} {v4} reading o room =
      ran-Answers s o (message reading o.sensor)
        (read_args-fill stof o.sensor s reading.one_line ∙ fill-reading reading never_zero o.sensor)
        room
        (record {
          full0 = never_zero-lem v0;
          full1 = never_zero-lem v1;
          full2 = never_zero-lem v2;
          full3 = never_zero-lem v3;
          full4 = never_zero-lem v4;
        })

  by_outcome :
      (s : List ℕ) (o : Outbox) (m : Sensor) (all : Bool)
      → Lacks newline s
      → Ready w o
      → fill stof never_zero setters (columns 5 (split s)) o.sensor ≡ (m, all)
      → IsFull m
      → Answers w (answer stof serialize_to (line s) o)
  by_outcome s o m true one r e full =
      ran-Answers s o m (read_args-fill stof o.sensor s one ∙ e) (Ready-room o r) full
  by_outcome s o m false one r e full =
      subst (Answers w)
        (sym (
          answer_repeats lawful stof serialize_to s o m r.last r.behind one e r.full r.last_full
            r.held))
        (
          record {
            full = record {
              full0 = full.full0;
              full1 = full.full1;
              full2 = full.full2;
              full3 = full.full3;
              full4 = full.full4;
            };
            last = r.last;
            behind = r.behind;
            last_full = r.last_full;
            held = r.held;
          },
          (r.last, r.last_full, refl),
        )

  answer-Answers :
      (c : Selected) (o : Outbox) → IsCut c → Ready w o → Answers w (answer stof serialize_to c o)
  unfolding answer
  answer-Answers thrown o cut r = absurd cut
  answer-Answers skipped o cut r = (r, tt)
  answer-Answers (line s) o cut r =
      let p = fill stof never_zero setters (columns 5 (split s)) o.sensor in
      by_outcome s o p.0 p.1 cut r refl
        (fill-IsFull stof setters (columns 5 (split s)) o.sensor setters-Keeps r.full)

  -- With a library that keeps to IsWire and IsStore, whatever text is read: if the message has no
  -- zero and the array begins with the bytes of a message without a zero, both stay so, the answer
  -- does not end the program, and what is sent, if anything, is the bytes of a message without a
  -- zero.
  pub select-Answers :
      (text : List ℕ) (o : Outbox)
      → Ready w o
      → Answers w (answer stof serialize_to (select text) o)
  select-Answers text o r = answer-Answers (select text) o (select-IsCut text) r
