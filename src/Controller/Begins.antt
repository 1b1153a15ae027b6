-- ===== src/Controller/Begins.antt =====
-- The section MAIN of MyoNucMotor/MyoNucMotor/main.cpp from its start on: what it sends before and after
-- the first line with five numbers.
use myodesignproject.Base.{
  ℕ, ◌≤◌, ◌≡◌, refl, ◌∙◌, ap, Bool, true, false, inl, inr, Option-cases, Option, none, some, List,
  [], ◌∷◌, arith, length, take,
}
use myodesignproject.Sensor.{Float, Sensor, is_zero, size_arg, total_size}
use myodesignproject.Sensor.WireFormat.{Wire, IsWire}
use myodesignproject.Text.{newline}
use myodesignproject.Text.Laws.{Lacks}
use myodesignproject.Line.{never_zero, Selected, thrown, skipped, line, select}
use myodesignproject.Line.Fields.{fill, setters, columns, split, read_args-fill}
use myodesignproject.Line.Select.{IsCut, select-IsCut}
use myodesignproject.Rounds.{Result, ok, stop, rounds, Outbox, IsStore}
use myodesignproject.Controller.{answer, answers}
use myodesignproject.Controller.Repeats.{parse_line-threw, send_size}
use myodesignproject.Controller.Spec.{
  Numbers, numbers_of, nonzero, frame_of, spec_run, all_selected, all_frames,
}
use myodesignproject.Controller.Refines.{
  Holds, Stores, Agrees, fill-Stores, length-columns, line-all,
}
use myodesignproject.Controller.Refines.Runs.{answers-refine}

-- No setter but the last one stores arg4.
abbrev LastStores : List (Float → Sensor → Sensor) → Type 0
LastStores [] = Unit
LastStores (set ∷ []) = Unit
LastStores (set ∷ next ∷ sets) =
    ((v : Float) (s : Sensor) → (set v s).arg4 ≡ s.arg4) × LastStores (next ∷ sets)

setters-LastStores : LastStores setters
setters-LastStores = ((λ v s. refl), ((λ v s. refl), ((λ v s. refl), ((λ v s. refl), tt))))

-- Blocks that throw have not come to arg4.
fill-arg4 :
    (g : Float → Float) (stof : List ℕ → Option Float) (sets : List (Float → Sensor → Sensor))
    (ts : List (List ℕ)) (s : Sensor)
    → LastStores sets
    → (fill stof g sets ts s).1 ≡ false
    → (fill stof g sets ts s).0.arg4 ≡ s.arg4
fill-arg4 g stof [] ts s k e = refl
fill-arg4 g stof (set ∷ sets) [] s k e = refl
fill-arg4 g stof (set ∷ []) (t ∷ ts) s k e = elim (Option-cases (stof t)) [
  | inl n ↦ rw (n, fill) refl
  | inr (v, n) ↦ let q : true ≡ false = rw (n, fill) at e in cc
]
fill-arg4 g stof (set ∷ next ∷ sets) (t ∷ ts) s k e = elim (Option-cases (stof t)) [
  | inl n ↦ rw (n, fill) refl
  | inr (v, n) ↦
      rw (n, fill)
        (fill-arg4 g stof (next ∷ sets) ts (set (g v) s) k.1 (rw (n, fill) at e) ∙ k.0 (g v) s)
]

total_size-last : (s : Sensor) → is_zero s.arg4 ≡ true → total_size s ≤ 20
unfolding total_size size_arg
total_size-last s z = ground arith

-- What a text asks for: nothing, or a message, of which the line has the numbers or has not.
abbrev pub asks : (List ℕ → Option Float) → Selected → Option (Option Numbers)
asks stof thrown = none
asks stof skipped = none
asks stof (line s) = some (numbers_of stof s)

-- Bytes of `array`, which nothing was stored in: fewer than a message has.
abbrev pub Unset : List ℕ → Option (List ℕ) → Type 0
Unset array out = (n : ℕ) × (n ≤ 20) × (out ≡ some (take n array))

-- What is sent from the start on, where tcpBuffer holds `array` then: up to the first line with five
-- numbers each line has bytes of the array sent, and from there on the machine of Controller/Spec
-- tells what is sent.
abbrev pub SendsBy :
    Wire → List ℕ → Option (Option Numbers) → Option (List ℕ) → (Numbers → Type 0) → Type 0 → Type 0
SendsBy w array none out then more = (out ≡ none) × more
SendsBy w array (some none) out then more = Unset array out × more
SendsBy w array (some (some vs)) out then more =
    (out ≡ some (frame_of w (nonzero vs))) × then (nonzero vs)

abbrev pub Sends :
    Wire → (List ℕ → Option Float) → List ℕ → List Selected → List (Option (List ℕ)) → Type 0
Sends w stof array [] [] = Unit
Sends w stof array [] (out ∷ outs) = ⊥
Sends w stof array (c ∷ cs) [] = ⊥
Sends w stof array (c ∷ cs) (out ∷ outs) =
    SendsBy w array (asks stof c) out (λ vs. outs ≡ all_frames w (spec_run stof cs vs).1)
      (Sends w stof array cs outs)

-- Nothing was stored in tcpBuffer yet, and the message has no arg4.
pub record Begins (array : List ℕ) (o : Outbox) : Type 0 where
  pub unset : o.tcp_buffer ≡ array
  pub no_arg4 : is_zero o.sensor.arg4 ≡ true

module _ {w : Wire} (lawful : IsWire w) (stof : List ℕ → Option Float)
    {serialize_to : Sensor → List ℕ → List ℕ} (store : IsStore w serialize_to) (array : List ℕ)
    (room : 25 ≤ length array) where
  -- The outbox behind an answer.
  abbrev Moved : Option (Option Numbers) → Outbox → Option (List ℕ) → Type 0
  Moved none o out = Begins array o × (out ≡ none)
  Moved (some none) o out = Begins array o × Unset array out
  Moved (some (some vs)) o out = Holds w (nonzero vs) o × (out ≡ some (frame_of w (nonzero vs)))

  abbrev Answered : Option (Option Numbers) → Result (Outbox × Option (List ℕ)) → Type 0
  Answered asked (stop f) = ⊥
  Answered asked (ok (o, out)) = Moved asked o out

  no_numbers :
      (s : List ℕ) (o : Outbox)
      → Lacks newline s
      → Begins array o
      → (fill stof never_zero setters (columns 5 (split s)) o.sensor).1 ≡ false
      → Answered (some none) (answer stof serialize_to (line s) o)
  unfolding answer
  no_numbers s o one b e =
      let r = fill stof never_zero setters (columns 5 (split s)) o.sensor in
      let kept =
        fill-arg4 never_zero stof setters (columns 5 (split s)) o.sensor setters-LastStores e in
      let zero4 : is_zero r.0.arg4 ≡ true = ap is_zero kept ∙ b.no_arg4 in
      rw
        (
          parse_line-threw stof serialize_to s o r.0
              (read_args-fill stof o.sensor s one ∙ ap (λ (p : Bool). (r.0, p)) e),
          send_size (record o { sensor = r.0 }) (total_size r.0) refl,
          answer,
        )
        (
          record { unset = b.unset; no_arg4 = zero4 },
          (
            total_size r.0,
            total_size-last r.0 zero4,
            ap (λ (a : List ℕ). some (take (total_size r.0) a)) b.unset,
          ),
        )

  as_Answered :
      (vs : Numbers) (m : Result (Outbox × Option (List ℕ)))
      → Agrees w (nonzero vs, some (nonzero vs)) m
      → Answered (some (some vs)) m
  as_Answered vs (stop f) h = h
  as_Answered vs (ok (o, out)) h = h

  line-Answered :
      (s : List ℕ) (o : Outbox) (vs : Option Numbers)
      → Lacks newline s
      → Begins array o
      → Stores never_zero setters o.sensor vs
          (fill stof never_zero setters (columns 5 (split s)) o.sensor)
      → Answered (some vs) (answer stof serialize_to (line s) o)
  line-Answered s o none one b e = no_numbers s o one b e
  line-Answered s o (some vs) one b e =
      as_Answered vs _
        (line-all lawful stof store s o [] vs one (omega (arith, room, ap length b.unset)) e.0 e.1)

  answer-Answered :
      (c : Selected) (o : Outbox)
      → IsCut c
      → Begins array o
      → Answered (asks stof c) (answer stof serialize_to c o)
  unfolding answer
  answer-Answered thrown o cut b = absurd cut
  answer-Answered skipped o cut b = (b, refl)
  answer-Answered (line s) o cut b =
      line-Answered s o (numbers_of stof s) cut b
        (fill-Stores never_zero stof setters (columns 5 (split s)) o.sensor (length-columns 5 s))

  as_ok :
      (asked : Option (Option Numbers)) (m : Result (Outbox × Option (List ℕ)))
      → Answered asked m
      → (o : Outbox) × (out : Option (List ℕ)) × (m ≡ ok (o, out)) × Moved asked o out
  as_ok asked (stop f) h = absurd h
  as_ok asked (ok (o, out)) h = (o, out, refl, h)

  -- The answers to the other texts, by what the first one asked for.
  more_answers :
      (asked : Option (Option Numbers)) (texts : List (List ℕ)) (o : Outbox) (out : Option (List ℕ))
      → Moved asked o out
      → ((o1 : Outbox)
          → Begins array o1
          → (o' : Outbox) × (outs : List (Option (List ℕ))) × (answers stof serialize_to texts o1
              ≡ ok (o', outs))
            × Sends w stof array (all_selected texts) outs)
      → (o' : Outbox) × (outs : List (Option (List ℕ))) × (answers stof serialize_to texts o
          ≡ ok (o', outs))
        × SendsBy w array asked out
            (λ vs. outs ≡ all_frames w (spec_run stof (all_selected texts) vs).1)
            (Sends w stof array (all_selected texts) outs)
  more_answers none texts o out (b, e) goes =
      let (o', outs, run, sends) = goes o b in (o', outs, run, (e, sends))
  more_answers (some none) texts o out (b, e) goes =
      let (o', outs, run, sends) = goes o b in (o', outs, run, (e, sends))
  more_answers (some (some vs)) texts o out (h, e) goes =
      let (o', run, _) = answers-refine lawful stof store texts o (nonzero vs) h in
      (o', _, run, (e, refl))

  -- With a library that keeps to IsWire and IsStore, for any texts that are read, a message
  -- without an arg4 and a tcpBuffer of 25 bytes or more, as the section MAIN starts with: its
  -- answers do not stop the program; where a text has no line nothing is sent; up to the first
  -- line with five numbers each line that is answered has at most 20 bytes of tcpBuffer as it was
  -- at the start sent; that line has the bytes of its numbers sent, with -1 for each 0; and from
  -- there on each answer is the bytes of the numbers that the machine of Controller/Spec puts out,
  -- nothing where it puts out nothing.
  pub answers_from_start :
      (texts : List (List ℕ)) (o : Outbox)
      → Begins array o
      → (o' : Outbox) × (outs : List (Option (List ℕ))) × (answers stof serialize_to texts o
          ≡ ok (o', outs))
        × Sends w stof array (all_selected texts) outs
  unfolding rounds
  answers_from_start [] o b = (o, [], refl, tt)
  answers_from_start (text ∷ texts) o b =
      let asked = asks stof (select text) in
      let (o1, out, e, moved) =
        as_ok asked (answer stof serialize_to (select text) o)
          (answer-Answered (select text) o (select-IsCut text) b) in
      let (o2, outs, e2, sends) =
        more_answers asked texts o1 out moved (answers_from_start texts) in
      (o2, out ∷ outs, rw (e, rounds, e2), sends)
