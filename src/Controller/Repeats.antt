-- ===== src/Controller/Repeats.antt =====
-- What the client gets where a line could not be parsed: the section MAIN of
-- MyoNucMotor/MyoNucMotor/main.cpp sends from the array all the same.
use myodesignproject.Base.{
  ℕ, ◌≡◌, refl, subst, ◌∙◌, ap, Bool, false, inl, inr, Option, some, Option-cases, List, [], ◌∷◌,
  ◌++◌, take, take-append, All,
}
use myodesignproject.Sensor.{
  set_arg0, set_arg1, set_arg2, set_arg3, set_arg4, Float, Sensor, is_zero, serialize, total_size,
}
use myodesignproject.Sensor.WireFormat.{Wire, IsWire}
use myodesignproject.Sensor.Size.{total_size-full}
use myodesignproject.Text.{newline}
use myodesignproject.Text.Laws.{Lacks}
use myodesignproject.Line.{Try, ran, threw, never_zero, read_args, line}
use myodesignproject.Line.Fields.{outcome, fill, setters, columns, split, read_args-fill}
use myodesignproject.Rounds.{ok, Outbox, send}
use myodesignproject.Controller.{parse_line, answer}
use myodesignproject.Sensor.Size.{length-serialize}
use myodesignproject.Controller.Frames.{never_zero-lem}

-- A message without a zero argument.
pub record IsFull (s : Sensor) : Type 0 where
  pub full0 : is_zero s.arg0 ≡ false
  pub full1 : is_zero s.arg1 ≡ false
  pub full2 : is_zero s.arg2 ≡ false
  pub full3 : is_zero s.arg3 ≡ false
  pub full4 : is_zero s.arg4 ≡ false

pub IsFull-size : {s : Sensor} → IsFull s → total_size s ≡ 25
IsFull-size {s} f = total_size-full s f.full0 f.full1 f.full2 f.full3 f.full4

abbrev pub Keeps : (Float → Sensor → Sensor) → Type 0
Keeps set = (v : Float) (s : Sensor) → IsFull s → IsFull (set (never_zero v) s)

-- Whatever the columns hold, the message stays without a zero.
pub fill-IsFull :
    (stof : List ℕ → Option Float) (sets : List (Float → Sensor → Sensor)) (ts : List (List ℕ))
    (s : Sensor)
    → All Keeps sets
    → IsFull s
    → IsFull (fill stof never_zero sets ts s).0
fill-IsFull stof [] ts s k f = f
fill-IsFull stof (set ∷ sets) [] s k f = f
fill-IsFull stof (set ∷ sets) (t ∷ ts) s k f = elim (Option-cases (stof t)) [
  | inl e ↦ rw (e, fill) f
  | inr (v, e) ↦ rw (e, fill) (fill-IsFull stof sets ts (set (never_zero v) s) k.1 (k.0 v s f))
]

keep0 : Keeps set_arg0
keep0 v s f = record {
  full0 = never_zero-lem v;
  full1 = f.full1;
  full2 = f.full2;
  full3 = f.full3;
  full4 = f.full4;
}

keep1 : Keeps set_arg1
keep1 v s f = record {
  full0 = f.full0;
  full1 = never_zero-lem v;
  full2 = f.full2;
  full3 = f.full3;
  full4 = f.full4;
}

keep2 : Keeps set_arg2
keep2 v s f = record {
  full0 = f.full0;
  full1 = f.full1;
  full2 = never_zero-lem v;
  full3 = f.full3;
  full4 = f.full4;
}

keep3 : Keeps set_arg3
keep3 v s f = record {
  full0 = f.full0;
  full1 = f.full1;
  full2 = f.full2;
  full3 = never_zero-lem v;
  full4 = f.full4;
}

keep4 : Keeps set_arg4
keep4 v s f = record {
  full0 = f.full0;
  full1 = f.full1;
  full2 = f.full2;
  full3 = f.full3;
  full4 = never_zero-lem v;
}

pub setters-Keeps : All Keeps setters
setters-Keeps = (keep0, (keep1, (keep2, (keep3, (keep4, tt)))))

pub parse_line-threw :
    (stof : List ℕ → Option Float) (serialize_to : Sensor → List ℕ → List ℕ) (s : List ℕ)
    (o : Outbox) (m : Sensor)
    → outcome (read_args stof (record { sensor = o.sensor; text = s })) ≡ (m, false)
    → parse_line stof serialize_to s o ≡ record o { sensor = m }
unfolding parse_line
parse_line-threw stof serialize_to s o m e =
    go (read_args stof (record { sensor = o.sensor; text = s })) e refl
  where
    go :
        (t : Try)
        → outcome t ≡ (m, false)
        → read_args stof (record { sensor = o.sensor; text = s }) ≡ t
        → parse_line stof serialize_to s o ≡ record o { sensor = m }
    go (ran r) h q = cc
    go (threw n) h q = rw (q, parse_line) (ap (λ (p : Sensor × Bool). record o { sensor = p.0 }) h)

pub send_size :
    (o : Outbox) (n : ℕ)
    → total_size o.sensor ≡ n
    → send o ≡ (record o { sensor = record o.sensor { cached_size = n } }, take n o.tcp_buffer)
unfolding send
send_size o n e = rw e

take_frame :
    {w : Wire}
    → IsWire w
    → (last : Sensor) (behind : List ℕ) → IsFull last
    → take 25 (serialize w last [] ++ behind) ≡ serialize w last []
take_frame {w} lawful last behind f =
    rw (← IsFull-size f, ← length-serialize lawful last) (take-append (serialize w last []) behind)

-- With a library that keeps to IsWire: where one of the first five columns of a line without a
-- newline is no number, the message has no zero, and the array begins with the bytes of a message
-- without a zero: the section MAIN sends just these bytes again, although its message has taken
-- the numbers before that column.
pub answer_repeats :
    {w : Wire}
    → IsWire w
    → (stof : List ℕ → Option Float) (serialize_to : Sensor → List ℕ → List ℕ) (s : List ℕ)
      (o : Outbox) (m last : Sensor) (behind : List ℕ)
    → Lacks newline s
    → fill stof never_zero setters (columns 5 (split s)) o.sensor ≡ (m, false)
    → IsFull o.sensor
    → IsFull last
    → o.tcp_buffer ≡ serialize w last [] ++ behind
    → answer stof serialize_to (line s) o
      ≡ ok (
        record { sensor = record m { cached_size = 25 }; tcp_buffer = o.tcp_buffer },
        some (serialize w last []),
      )
unfolding answer
answer_repeats {w} lawful stof serialize_to s o m last behind one failed full last_full held =
    let kept = fill-IsFull stof setters (columns 5 (split s)) o.sensor setters-Keeps full in
    let m_full : IsFull m = subst (λ (p : Sensor × Bool). IsFull p.0) failed kept in
    rw (
      parse_line-threw stof serialize_to s o m (read_args-fill stof o.sensor s one ∙ failed),
      send_size (record o { sensor = m }) 25 (IsFull-size m_full),
      answer,
      held,
      take_frame lawful last behind last_full,
    )
