-- ===== src/Checker/Termination.antt =====
-- The parser of Data.java (MyoChecker/app/src/main/java/com/myoprj/myochecker) ends on every input.
use myodesignproject.Base.{
  ℕ, zero, suc, ◌≤◌, ◌<◌, ◌≢◌, Bool, true, false, inl, inr, List, arith, Option-cases, length,
  if◌then◌else◌,
}
use native.Mathlib.Decide.{ℕ_discrete}
use myodesignproject.Sensor.{Float}
use myodesignproject.Checker.Input.{JavaWire, IsJavaWire}
use myodesignproject.Checker.{
  DataSensor, new_sensor, put_arg0, put_arg1, put_arg2, put_arg3, put_arg4, ended, stuck, JavaRound,
  done, again, java_field, java_skip, java_switch, java_round, java_loop, java_parse,
}

-- A round that ends with a result of the code, or that leaves at most `n` bytes.
abbrev Ends : ℕ → JavaRound → Type 0
Ends n (done r) = r ≢ stuck
Ends n (again s rest) = length rest ≤ n

abbrev Shrinks : ℕ → JavaRound → Type 0
Shrinks n (done r) = r ≢ stuck
Shrinks n (again s rest) = length rest < n

Ends-Shrinks : (m n : ℕ) (r : JavaRound) → m < n → Ends m r → Shrinks n r
Ends-Shrinks m n (done r) h e = e
Ends-Shrinks m n (again s rest) h e = omega arith

module _ {j : JavaWire} (java : IsJavaWire j) where
  field-Ends :
      (put : Float → DataSensor → DataSensor) (input : List ℕ) (s : DataSensor)
      → Ends (length input) (java_field j put input s)
  unfolding java_field
  field-Ends put input s = elim (Option-cases (j.read_float input)) [
    | inl e ↦ rw (e, java_field) (λ p. cc)
    | inr ((v, rest), e) ↦ rw (e, java_field) (java.read_float_shrinks input v rest e)
  ]

  skip-Ends :
      (tag : ℕ) (input : List ℕ) (s : DataSensor) → Ends (length input) (java_skip j tag input s)
  unfolding java_skip
  skip-Ends tag input s = elim (Option-cases (j.skip_field tag input)) [
    | inl e ↦ rw (e, java_skip) (λ p. cc)
    | inr ((known, rest), e) ↦
        rw (e, java_skip) (by_answer known rest (java.skip_field_shrinks tag input known rest e))
  ]
    where
      by_answer :
          (known : Bool) (rest : List ℕ)
          → length rest ≤ length input
          → Ends (length input) (if known then again s rest else done (ended tag s))
      by_answer true rest h = h
      by_answer false rest h = λ p. cc

  switch-Ends :
      (tag : ℕ) (input : List ℕ) (s : DataSensor) → Ends (length input) (java_switch j tag input s)
  unfolding java_switch
  switch-Ends tag input s = ground (
    arith,
    field-Ends put_arg0 input s,
    field-Ends put_arg1 input s,
    field-Ends put_arg2 input s,
    field-Ends put_arg3 input s,
    field-Ends put_arg4 input s,
    skip-Ends tag input s,
  )

  round-Shrinks : (input : List ℕ) (s : DataSensor) → Shrinks (length input) (java_round j input s)
  unfolding java_round java_switch
  round-Shrinks input s = elim (Option-cases (j.read_tag input)) [
    | inl e ↦ rw (e, java_round) (λ p. cc)
    | inr ((tag, rest), e) ↦ elim (ℕ_discrete tag 0) [
      | yes z ↦ rw (e, java_round, z) (λ p. cc)
      | no z ↦
          rw (e, java_round)
            (Ends-Shrinks (length rest) (length input) (java_switch j tag rest s)
              (java.read_tag_shrinks input tag rest e z) (switch-Ends tag rest s))
    ]
  ]

  by_round :
      (fuel n : ℕ) (r : JavaRound)
      → n ≤ fuel
      → ((rest : List ℕ) (s : DataSensor) → length rest < fuel → java_loop j fuel rest s ≢ stuck)
      → Shrinks n r
      → (elim r [ done p ↦ p | again s rest ↦ java_loop j fuel rest s ]) ≢ stuck
  by_round fuel n (done p) h loops ok = ok
  by_round fuel n (again s rest) h loops ok = loops rest s (omega arith)

  loop-ne-stuck :
      (fuel : ℕ) (input : List ℕ) (s : DataSensor)
      → length input < fuel
      → java_loop j fuel input s ≢ stuck
  unfolding java_loop
  loop-ne-stuck zero input s h = absurd (omega arith)
  loop-ne-stuck (suc fuel) input s h =
      by_round fuel (length input) (java_round j input s) (omega arith) (loop-ne-stuck fuel)
        (round-Shrinks input s)

  -- With a library that keeps to IsJavaWire: on any input, well formed or not, the loop of the
  -- constructor that parses in the Java class ends, with a message or with an exception: one round
  -- for each byte and one more are enough.
  pub java_parse-ne-stuck : (input : List ℕ) → java_parse j input ≢ stuck
  unfolding java_parse
  java_parse-ne-stuck input = loop-ne-stuck (suc (length input)) input new_sensor (omega arith)
