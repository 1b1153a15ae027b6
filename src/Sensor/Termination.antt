-- ===== src/Sensor/Termination.antt =====
-- The loop of `MergePartialFromCodedStream` (NUCServer/NUCServer/data.pb.cc) ends on every input.
use myodesignproject.Base.{
  ℕ, zero, suc, ◌≤◌, ◌<◌, ◌≡◌, ◌≢◌, Bool, true, false, inl, inr, Option, some, List, arith,
  Option-cases, length, if◌then◌else◌,
}
use native.Mathlib.Decide.{ℕ_discrete}
use myodesignproject.Sensor.{Float, Sensor, set_arg4}
use myodesignproject.Sensor.WireFormat.{Wire, IsWire}
use myodesignproject.Sensor.Reader.{resume, loop-resume}
use myodesignproject.Sensor.Parse.{
  success, stuck, Round, done, again, parse_field, at_end, parse_arg0, parse_arg1, parse_arg2,
  parse_arg3, parse_arg4, dispatch, round, handle_unusual, loop, merge_partial,
}

-- A round that ends with a result of the code, or that leaves at most `n` bytes.
abbrev Ends : ℕ → Round → Type 0
Ends n (done r) = r ≢ stuck
Ends n (again s rest) = length rest ≤ n

Ends-mono : (m n : ℕ) (r : Round) → m ≤ n → Ends m r → Ends n r
Ends-mono m n (done r) h e = e
Ends-mono m n (again s rest) h e = omega arith

module _ {w : Wire} (lawful : IsWire w) where
  parse_field-Ends :
      (set : Float → Sensor → Sensor) (expect : List ℕ → Option (List ℕ))
      (jump : List ℕ → Sensor → Round)
      → ((rest behind : List ℕ) → expect rest ≡ some behind → length behind ≤ length rest)
      → ((behind : List ℕ) (s : Sensor) → Ends (length behind) (jump behind s))
      → (input : List ℕ) (s : Sensor) → Ends (length input) (parse_field w set expect jump input s)
  unfolding parse_field
  parse_field-Ends set expect jump shorter ends input s = elim (Option-cases (w.read_float input)) [
    | inl e ↦ rw (e, parse_field) (λ p. cc)
    | inr ((v, rest), e) ↦ elim (Option-cases (expect rest)) [
      | inl e' ↦ rw (e, e', parse_field) (omega (arith, lawful.read_float_shrinks input v rest e))
      | inr (behind, e') ↦
          rw (e, e', parse_field)
            (Ends-mono (length behind) (length input) (jump behind (set v s))
              (omega (arith, lawful.read_float_shrinks input v rest e, shorter rest behind e'))
              (ends behind (set v s)))
    ]
  ]

  expect_tag_shrinks :
      (tag : ℕ)
      → 1 ≤ tag
      → tag < 128
      → (rest behind : List ℕ) → w.expect_tag tag rest ≡ some behind
      → length behind ≤ length rest
  expect_tag_shrinks tag lo hi rest behind e =
      ground (arith, lawful.expect_tag_sound tag rest behind lo hi e, lawful.read_tag_shrinks rest)

  parse_arg4-Ends : (input : List ℕ) (s : Sensor) → Ends (length input) (parse_arg4 w input s)
  unfolding parse_arg4 at_end
  parse_arg4-Ends =
      parse_field-Ends set_arg4 (at_end w) (λ behind s. done (success s))
        (λ rest behind e. ground arith) (λ behind s p. cc)

  parse_arg3-Ends : (input : List ℕ) (s : Sensor) → Ends (length input) (parse_arg3 w input s)
  unfolding parse_arg3
  parse_arg3-Ends =
      parse_field-Ends _ _ _ (expect_tag_shrinks 45 (omega arith) (omega arith)) parse_arg4-Ends

  parse_arg2-Ends : (input : List ℕ) (s : Sensor) → Ends (length input) (parse_arg2 w input s)
  unfolding parse_arg2
  parse_arg2-Ends =
      parse_field-Ends _ _ _ (expect_tag_shrinks 37 (omega arith) (omega arith)) parse_arg3-Ends

  parse_arg1-Ends : (input : List ℕ) (s : Sensor) → Ends (length input) (parse_arg1 w input s)
  unfolding parse_arg1
  parse_arg1-Ends =
      parse_field-Ends _ _ _ (expect_tag_shrinks 29 (omega arith) (omega arith)) parse_arg2-Ends

  parse_arg0-Ends : (input : List ℕ) (s : Sensor) → Ends (length input) (parse_arg0 w input s)
  unfolding parse_arg0
  parse_arg0-Ends =
      parse_field-Ends _ _ _ (expect_tag_shrinks 21 (omega arith) (omega arith)) parse_arg1-Ends

  handle_unusual-Ends :
      (tag : ℕ) (input : List ℕ) (s : Sensor) → Ends (length input) (handle_unusual w tag input s)
  unfolding handle_unusual
  handle_unusual-Ends tag input s = elim (Option-cases (w.skip_field tag input)) [
    | inl e ↦ ground arith
    | inr (rest, e) ↦ ground (arith, lawful.skip_field_shrinks tag input rest e)
  ]

  dispatch-Ends :
      (tag : ℕ) (input : List ℕ) (s : Sensor) → Ends (length input) (dispatch w tag input s)
  unfolding dispatch
  dispatch-Ends tag input s = ground (
    arith,
    handle_unusual-Ends tag input s,
    parse_arg0-Ends input s,
    parse_arg1-Ends input s,
    parse_arg2-Ends input s,
    parse_arg3-Ends input s,
    parse_arg4-Ends input s,
  )

  -- A tag 0 ends the parse.
  dispatch_zero : (input : List ℕ) (s : Sensor) → dispatch w 0 input s ≡ done (success s)
  unfolding dispatch handle_unusual
  dispatch_zero input s = ground (arith, lawful.field_number_lem 0)

  abbrev Shrinks : ℕ → Round → Type 0
  Shrinks n (done r) = r ≢ stuck
  Shrinks n (again s rest) = length rest < n

  Ends-Shrinks : (m n : ℕ) (r : Round) → m < n → Ends m r → Shrinks n r
  Ends-Shrinks m n (done r) h e = e
  Ends-Shrinks m n (again s rest) h e = omega arith

  round_zero :
      (tag : ℕ) (n : ℕ) (known : Bool) (input : List ℕ) (s : Sensor)
      → tag ≡ 0
      → Shrinks n (if known then dispatch w tag input s else handle_unusual w tag input s)
  unfolding handle_unusual
  round_zero tag n true input s e = rw (e, dispatch_zero input s) (λ p. cc)
  round_zero tag n false input s e = rw e (λ p. cc)

  round_more :
      (tag m n : ℕ) (known : Bool) (input : List ℕ) (s : Sensor)
      → length input < n
      → Shrinks n (if known then dispatch w tag input s else handle_unusual w tag input s)
  round_more tag m n true input s h =
      Ends-Shrinks (length input) n (dispatch w tag input s) h (dispatch-Ends tag input s)
  round_more tag m n false input s h =
      Ends-Shrinks (length input) n (handle_unusual w tag input s) h
        (handle_unusual-Ends tag input s)

  round-Shrinks : (input : List ℕ) (s : Sensor) → Shrinks (length input) (round w input s)
  unfolding round
  round-Shrinks input s = elim (ℕ_discrete (w.read_tag input).0.0 0) [
    | yes e ↦ round_zero _ (length input) (w.read_tag input).0.1 (w.read_tag input).1 s e
    | no h ↦
        round_more _ 0 (length input) (w.read_tag input).0.1 (w.read_tag input).1 s
          (lawful.read_tag_shrinks input h)
  ]

  resume-ne-stuck :
      (fuel n : ℕ) (r : Round)
      → n ≤ fuel
      → ((rest : List ℕ) (s : Sensor) → length rest < fuel → loop fuel w rest s ≢ stuck)
      → Shrinks n r
      → resume fuel w r ≢ stuck
  resume-ne-stuck fuel n (done r) h loops ok = ok
  resume-ne-stuck fuel n (again s rest) h loops ok = loops rest s (omega arith)

  loop-ne-stuck :
      (fuel : ℕ) (input : List ℕ) (s : Sensor) → length input < fuel → loop fuel w input s ≢ stuck
  loop-ne-stuck zero input s h = absurd (omega arith)
  loop-ne-stuck (suc fuel) input s h = rw (loop-resume fuel w input s) (
      resume-ne-stuck fuel (length input) (round w input s) (omega arith) (loop-ne-stuck fuel)
        (round-Shrinks input s))

  -- With a library that keeps to IsWire: on any input, well formed or not,
  -- MergePartialFromCodedStream ends with a success or a failure: one round for each byte and one
  -- more are enough.
  pub merge_partial-ne-stuck : (input : List ℕ) (s : Sensor) → merge_partial w input s ≢ stuck
  unfolding merge_partial
  merge_partial-ne-stuck input s = loop-ne-stuck (suc (length input)) input s (omega arith)
