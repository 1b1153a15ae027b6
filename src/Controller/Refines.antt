-- ===== src/Controller/Refines.antt =====
-- The section MAIN of MyoNucMotor/MyoNucMotor/main.cpp implements the machine of Controller/Spec.
pub mod Runs
use myodesignproject.Base.{
  ℕ, zero, suc, ◌+◌, ◌≤◌, ◌≡◌, ◌≢◌, refl, subst, sym, ◌∙◌, ap, Bool, true, false, Option, none,
  some, List, [], ◌∷◌, ◌++◌, arith, length, drop, length-append, Option-cases, inl, inr,
}
use myodesignproject.Sensor.{Float, Sensor, shared_ctor, serialize, total_size, is_zero, write_arg}
use myodesignproject.Sensor.WireFormat.{Wire, IsWire}
use myodesignproject.Text.{newline}
use myodesignproject.Text.Laws.{Lacks}
use myodesignproject.Line.{
  Reading, Try, never_zero, read_args, Selected, thrown, skipped, line, select,
}
use myodesignproject.Line.Fields.{
  outcome, fill, setters, columns, split, split_cases, read_args-fill,
}
use myodesignproject.Line.Select.{IsCut, select-IsCut}
use myodesignproject.Rounds.{Result, ok, stop, ◌>>=◌, rounds, Outbox, IsStore}
use myodesignproject.Controller.{answer}
use myodesignproject.Sensor.Size.{length-serialize}
use myodesignproject.Controller.Frames.{never_zero-lem}
use myodesignproject.Controller.Repeats.{
  IsFull, IsFull-size, answer_repeats, fill-IsFull, setters-Keeps,
}
use myodesignproject.Controller.Ready.{answer-ran}
use myodesignproject.Controller.Spec.{
  Numbers, each, cons_number, all_numbers, numbers_of, nonzero, put_all, message_of, frame_of,
  frames_of, spec_line, spec_step,
}

length-columns_of : (n : ℕ) (p : List ℕ) (ps : List (List ℕ)) → length (columns n (p ∷ ps)) ≡ n
length-columns_of zero p ps = refl
length-columns_of (suc n) p [] = ap suc (length-columns_of n p [])
length-columns_of (suc n) p (q ∷ ps) = ap suc (length-columns_of n q ps)

pub length-columns : (n : ℕ) (s : List ℕ) → length (columns n (split s)) ≡ n
length-columns n s = let (p, ps, e) = split_cases s in rw e (length-columns_of n p ps)

-- What the blocks store of numbers that `g` changes, by whether all columns are numbers.
abbrev pub Stores :
    (Float → Float)
    → List (Float → Sensor → Sensor)
    → Sensor
    → Option Numbers
    → Sensor × Bool
    → Type 0
Stores g sets s none r = r.1 ≡ false
Stores g sets s (some vs) r = (r ≡ (put_all sets (each g vs) s, true)) × (length vs ≡ length sets)

Stores-cons :
    (g : Float → Float) (set : Float → Sensor → Sensor) (sets : List (Float → Sensor → Sensor))
    (v : Float) (s : Sensor) (o : Option Numbers) (r : Sensor × Bool)
    → Stores g sets (set (g v) s) o r
    → Stores g (set ∷ sets) s (cons_number (some v) o) r
Stores-cons g set sets v s none r h = h
Stores-cons g set sets v s (some vs) r h = (h.0, ap suc h.1)

pub fill-Stores :
    (g : Float → Float) (stof : List ℕ → Option Float) (sets : List (Float → Sensor → Sensor))
    (ts : List (List ℕ)) (s : Sensor)
    → length ts ≡ length sets
    → Stores g sets s (all_numbers stof ts) (fill stof g sets ts s)
fill-Stores g stof [] [] s h = (refl, refl)
fill-Stores g stof [] (t ∷ ts) s h = absurd (omega (arith, h))
fill-Stores g stof (set ∷ sets) [] s h = absurd (omega (arith, h))
fill-Stores g stof (set ∷ sets) (t ∷ ts) s h = elim (Option-cases (stof t)) [
  | inl e ↦ rw (e, fill) refl
  | inr (v, e) ↦
      rw (e, fill)
        (Stores-cons g set sets v s (all_numbers stof ts) (fill stof g sets ts (set (g v) s))
          (fill-Stores g stof sets ts (set (g v) s) (omega (arith, h))))
]

-- Of a message with five numbers the bytes depend on the numbers alone.
pub same_frame :
    (w : Wire) (vs : Numbers) (s : Sensor)
    → length vs ≡ 5
    → serialize w (put_all setters vs s) [] ≡ frame_of w vs
unfolding serialize
same_frame w (v0 ∷ v1 ∷ v2 ∷ v3 ∷ v4 ∷ []) s h = refl
same_frame w _ s h = absurd (omega (arith, h))

put_all-IsFull :
    (vs : Numbers) (s : Sensor) → length vs ≡ 5 → IsFull (put_all setters (nonzero vs) s)
put_all-IsFull (v0 ∷ v1 ∷ v2 ∷ v3 ∷ v4 ∷ []) s h = record {
  full0 = never_zero-lem v0;
  full1 = never_zero-lem v1;
  full2 = never_zero-lem v2;
  full3 = never_zero-lem v3;
  full4 = never_zero-lem v4;
}
put_all-IsFull _ s h = absurd (omega (arith, h))

length-nonzero : (vs : Numbers) → length (nonzero vs) ≡ length vs
length-nonzero [] = refl
length-nonzero (v ∷ vs) = ap suc (length-nonzero vs)

pub message_of-IsFull : (vs : Numbers) → length vs ≡ 5 → IsFull (message_of (nonzero vs))
message_of-IsFull vs h = put_all-IsFull vs shared_ctor h

-- The outbox holds the numbers that were sent last.
pub record Holds (w : Wire) (last : Numbers) (o : Outbox) : Type 0 where
  pub full : IsFull o.sensor
  pub last_full : IsFull (message_of last)
  pub behind : List ℕ
  pub held : o.tcp_buffer ≡ frame_of w last ++ behind

-- An answer of the code and one of the machine: the outbox holds the machine's state, and the bytes of
-- its output were sent.
abbrev pub Agrees :
    (w : Wire) → Numbers × Option Numbers → Result (Outbox × Option (List ℕ)) → Type 0
Agrees w (last, out) (stop f) = ⊥
Agrees w (last, out) (ok (o, sent)) = Holds w last o × (sent ≡ frames_of w out)

module _ {w : Wire} (lawful : IsWire w) (stof : List ℕ → Option Float)
    {serialize_to : Sensor → List ℕ → List ℕ} (store : IsStore w serialize_to) where
  Holds-room : (last : Numbers) (o : Outbox) → Holds w last o → 25 ≤ length o.tcp_buffer
  Holds-room last o h = omega (
    arith,
    ap length h.held,
    length-append (frame_of w last) h.behind,
    length-serialize lawful (message_of last),
    IsFull-size h.last_full,
  )

  keeps_IsFull : (m : Sensor) (n : ℕ) → IsFull m → IsFull (record m { cached_size = n })
  keeps_IsFull m n f = record {
    full0 = f.full0;
    full1 = f.full1;
    full2 = f.full2;
    full3 = f.full3;
    full4 = f.full4;
  }

  pub line-all :
      (s : List ℕ) (o : Outbox) (last vs : Numbers)
      → Lacks newline s
      → 25 ≤ length o.tcp_buffer
      → fill stof never_zero setters (columns 5 (split s)) o.sensor
        ≡ (put_all setters (nonzero vs) o.sensor, true)
      → length vs ≡ 5
      → Agrees w (spec_line (some vs) last) (answer stof serialize_to (line s) o)
  line-all s o last vs one room e five =
      let m = put_all setters (nonzero vs) o.sensor in
      let full = put_all-IsFull vs o.sensor five in
      let bytes = same_frame w (nonzero vs) o.sensor (length-nonzero vs ∙ five) in
      rw
        (answer-ran lawful stof store s o m (read_args-fill stof o.sensor s one ∙ e)
          (omega (arith, IsFull-size full, room)))
        (
          record {
            full = keeps_IsFull m (total_size m) full;
            last_full = message_of-IsFull vs five;
            behind = drop (total_size m) o.tcp_buffer;
            held = ap (λ (b : List ℕ). b ++ drop (total_size m) o.tcp_buffer) bytes;
          },
          ap some bytes,
        )

  line-none :
      (s : List ℕ) (o : Outbox) (last : Numbers)
      → Lacks newline s
      → Holds w last o
      → (fill stof never_zero setters (columns 5 (split s)) o.sensor).1 ≡ false
      → Agrees w (spec_line none last) (answer stof serialize_to (line s) o)
  line-none s o last one h e =
      let r = fill stof never_zero setters (columns 5 (split s)) o.sensor in
      let kept = fill-IsFull stof setters (columns 5 (split s)) o.sensor setters-Keeps h.full in
      rw
        (answer_repeats lawful stof serialize_to s o r.0 (message_of last) h.behind one
          (ap (λ (b : Bool). (r.0, b)) e) h.full h.last_full h.held)
        (
          record {
            full = keeps_IsFull r.0 25 kept;
            last_full = h.last_full;
            behind = h.behind;
            held = h.held;
          },
          refl,
        )

  line-Agrees :
      (s : List ℕ) (o : Outbox) (last : Numbers) (vs : Option Numbers)
      → Lacks newline s
      → Holds w last o
      → Stores never_zero setters o.sensor vs
          (fill stof never_zero setters (columns 5 (split s)) o.sensor)
      → Agrees w (spec_line vs last) (answer stof serialize_to (line s) o)
  line-Agrees s o last none one h e = line-none s o last one h e
  line-Agrees s o last (some vs) one h e = line-all s o last vs one (Holds-room last o h) e.0 e.1

  pub answer-Agrees :
      (c : Selected) (o : Outbox) (last : Numbers)
      → IsCut c
      → Holds w last o
      → Agrees w (spec_step stof c last) (answer stof serialize_to c o)
  unfolding answer
  answer-Agrees thrown o last cut h = absurd cut
  answer-Agrees skipped o last cut h = (h, refl)
  answer-Agrees (line s) o last cut h =
      line-Agrees s o last (numbers_of stof s) cut h
        (fill-Stores never_zero stof setters (columns 5 (split s)) o.sensor (length-columns 5 s))
