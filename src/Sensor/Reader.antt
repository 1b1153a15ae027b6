-- ===== src/Sensor/Reader.antt =====
-- One argument under the reader of NUCServer/NUCServer/data.pb.cc
-- (`MergePartialFromCodedStream`), and the loop around it.
use myodesignproject.Base.{
  ℕ, zero, suc, ◌+◌, ◌*◌, ◌≤◌, ◌<◌, ◌≡◌, refl, sym, ◌∙◌, ap, true, inl, inr, Option, some, List, [],
  ◌∷◌, ◌++◌, arith, Bool-cases, Option-cases, length,
}
use myodesignproject.Sensor.{Float, IsFloat, Sensor, is_zero, merge_arg}
use myodesignproject.Sensor.WireFormat.{Wire, IsWire, fixed32}
use myodesignproject.Sensor.Parse.{
  Parsed, success, Round, done, again, parse_field, dispatch, round, handle_unusual, loop, at_end,
}
use myodesignproject.Sensor.Size.{arg_bytes}

-- The loop, once a round has ended.
abbrev pub resume : ℕ → Wire → Round → Parsed
resume fuel w (done r) = r
resume fuel w (again s rest) = loop fuel w rest s

pub loop-resume :
    (fuel : ℕ) (w : Wire) (input : List ℕ) (s : Sensor)
    → loop (suc fuel) w input s ≡ resume fuel w (round w input s)
unfolding loop
loop-resume fuel w input s = ground arith

-- The loop merges what is left by `finish`, if it has a round for each byte.
abbrev pub Loops : Wire → List ℕ → (Sensor → Sensor) → Type 0
Loops w tail finish =
    (fuel : ℕ) (s : Sensor) → length tail ≤ fuel → loop (suc fuel) w tail s ≡ success (finish s)

-- So does the rest of the round behind a tag that was expected.
abbrev pub Jumps :
    Wire
    → List ℕ
    → (Sensor → Sensor)
    → (List ℕ → Option (List ℕ))
    → (List ℕ → Sensor → Round)
    → Type 0
Jumps w tail finish expect jump =
    (fuel : ℕ) (s : Sensor) (behind : List ℕ)
    → length tail ≤ fuel
    → expect tail ≡ some behind
    → resume fuel w (jump behind s) ≡ success (finish s)

module _ {w : Wire} (lawful : IsWire w) where
  pub loop-end : (fuel : ℕ) (s : Sensor) → loop (suc fuel) w [] s ≡ success s
  unfolding loop round dispatch handle_unusual
  loop-end fuel s = ground (arith, lawful.read_tag_end, lawful.field_number_lem 0)

  -- A tag of the message leads to its reader.
  pub round_tag :
      (tag : ℕ) (rest : List ℕ) (s : Sensor)
      → 1 ≤ tag
      → tag < 128
      → round w (tag ∷ rest) s ≡ dispatch w tag rest s
  unfolding round
  round_tag tag rest s lo hi = rw (lawful.read_tag_small tag rest lo hi)

  round_found :
      (tag : ℕ) (tail behind : List ℕ) (s : Sensor)
      → w.read_tag tail ≡ ((tag, true), behind)
      → round w tail s ≡ dispatch w tag behind s
  unfolding round
  round_found tag tail behind s e = rw e refl

  -- A tag that is expected and found is the one that the loop reads: the jump saves a round.
  pub Jumps-tag :
      (tag : ℕ) (tail : List ℕ) (finish : Sensor → Sensor) (parse : List ℕ → Sensor → Round)
      → 1 ≤ tag
      → tag < 128
      → ((rest : List ℕ) (s : Sensor) → dispatch w tag rest s ≡ parse rest s)
      → Loops w tail finish
      → Jumps w tail finish (w.expect_tag tag) parse
  Jumps-tag tag tail finish parse lo hi tagged loops fuel s behind h e =
      let found = round_found tag tail behind s (lawful.expect_tag_sound tag tail behind lo hi e) in
      ap (resume fuel w) (sym (found ∙ tagged behind s))
      ∙ sym (loop-resume fuel w tail s)
      ∙ loops fuel s h

  at_end_sound : (tail behind : List ℕ) → at_end w tail ≡ some behind → tail ≡ []
  unfolding at_end
  at_end_sound tail behind e = lawful.expect_at_end_sound tail (ground arith)

  -- So is an end of the input that is found.
  pub Jumps-end :
      (tail : List ℕ) (finish : Sensor → Sensor)
      → Loops w tail finish
      → Jumps w tail finish (at_end w) (λ behind s. done (success s))
  Jumps-end tail finish loops fuel s behind h e =
      let empty = at_end_sound tail behind e in
      sym (loop-end fuel s)
      ∙ ap (λ (input : List ℕ). loop (suc fuel) w input s) (sym empty)
      ∙ loops fuel s h

  -- A reader finds its value; then it does not matter whether the jump is taken.
  pub parse_field-resume :
      (fuel : ℕ) (set : Float → Sensor → Sensor) (expect : List ℕ → Option (List ℕ))
      (jump : List ℕ → Sensor → Round) (v : Float) (rest : List ℕ) (s : Sensor) (r : Parsed)
      → IsFloat v
      → loop fuel w rest (set v s) ≡ r
      → ((behind : List ℕ) → expect rest ≡ some behind → resume fuel w (jump behind (set v s)) ≡ r)
      → resume fuel w (parse_field w set expect jump (fixed32 v ++ rest) s) ≡ r
  unfolding parse_field
  parse_field-resume fuel set expect jump v rest s r bound on jumped =
      elim (Option-cases (expect rest)) [
        | inl e ↦ ground (arith, lawful.read_float_lem v rest bound)
        | inr (behind, e) ↦ ground (arith, lawful.read_float_lem v rest bound, jumped behind e)
      ]

  pub length-fixed32 : (v : Float) (tail : List ℕ) → length (fixed32 v ++ tail) ≡ 4 + length tail
  unfolding fixed32
  length-fixed32 v tail = omega arith

  -- One argument: the reader `parse` for the tag of field `k`.
  module _ (k : ℕ) (klo : 1 ≤ k) (khi : k ≤ 15) (v : Float) (bound : IsFloat v)
      (set : Float → Sensor → Sensor) (tail : List ℕ) (finish : Sensor → Sensor)
      (expect : List ℕ → Option (List ℕ)) (jump : List ℕ → Sensor → Round)
      (tagged : (rest : List ℕ) (s : Sensor)
        → dispatch w (8 * k + 5) rest s ≡ parse_field w set expect jump rest s)
      (loops : Loops w tail finish) (jumps : Jumps w tail finish expect jump) where
    pub reads :
        (fuel : ℕ) (s : Sensor)
        → 4 + length tail ≤ fuel
        → resume fuel w (parse_field w set expect jump (fixed32 v ++ tail) s)
          ≡ success (finish (set v s))
    reads zero s h = absurd (omega arith)
    reads (suc fuel) s h =
        parse_field-resume (suc fuel) set expect jump v tail s _ bound
          (loops fuel (set v s) (omega arith))
          (λ behind e. jumps (suc fuel) (set v s) behind (omega arith) e)

    pub Loops-arg_bytes : Loops w (arg_bytes w k v ++ tail) (λ s. finish (merge_arg set v s))
    unfolding arg_bytes merge_arg
    Loops-arg_bytes fuel s h = elim (Bool-cases (is_zero v)) [
      | inl z ↦ ground (arith, loops fuel s)
      | inr z ↦ ground (
        arith,
        lawful.write_float_lem k v klo khi,
        length-fixed32 v tail,
        loop-resume fuel w ((8 * k + 5) ∷ (fixed32 v ++ tail)) s,
        round_tag (8 * k + 5) (fixed32 v ++ tail) s (omega arith) (omega arith),
        tagged (fixed32 v ++ tail) s,
        reads fuel s,
      )
    ]
