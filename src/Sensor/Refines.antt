-- ===== src/Sensor/Refines.antt =====
-- The methods of Sensor (NUCServer/NUCServer/data.pb.{h,cc}) against the list of the five values: what
-- each method makes of the list is said without the message.
use myodesignproject.Base.{ℕ, zero, suc, ◌≡◌, refl, ◌∙◌, ap, Option, none, some, List, [], ◌∷◌, All}
use myodesignproject.Sensor.{
  Float, Sensor, itself, other, shared_ctor, clear, merge_args, merge_from, copy_from, swap,
  internal_swap, byte_size,
}
use myodesignproject.Sensor.WireFormat.{Wire, IsWire}
use myodesignproject.Sensor.Merge.{merged, merge_args_lem}
use myodesignproject.Sensor.Stream.{HasFloats, stream, latest, merge_partial-stream}
use myodesignproject.Sensor.Operations.{
  this, sensor, foreign, Operation, sets0, sets1, sets2, sets3, sets4, clears0, clears1, clears2,
  clears3, clears4, clears, sizes, merges, copies, swaps, merges_message, copies_message, parses,
  merge_from_message, copy_from_message, left_by, step, run,
}

-- A call of a method, or of the parser on messages that stand behind one another.
pub data Step (M : Type 0) : Type 0 where
  calls : Operation M → Step M
  receives : List Sensor → Step M

abbrev pub as_call : {M : Type 0} → Wire → Step M → Operation M
as_call w (calls o) = o
as_call w (receives ms) = parses (stream w ms)

abbrev pub all_calls : {M : Type 0} → Wire → List (Step M) → List (Operation M)
all_calls w [] = []
all_calls w (c ∷ cs) = as_call w c ∷ all_calls w cs

-- The parser is called on such messages only.
abbrev pub Sound : {M : Type 0} → Step M → Type 0
Sound (calls (parses input)) = ⊥
Sound (calls _) = Unit
Sound (receives ms) = All HasFloats ms

abbrev pub values_of : Sensor → List Float
values_of s = s.arg0 ∷ s.arg1 ∷ s.arg2 ∷ s.arg3 ∷ s.arg4 ∷ []

abbrev pub values : Option Sensor → Option (List Float)
values none = none
values (some s) = some (values_of s)

abbrev pub replace : ℕ → Float → List Float → List Float
replace k v [] = []
replace zero v (u ∷ us) = v ∷ us
replace (suc k) v (u ∷ us) = u ∷ replace k v us

-- Each value that is not a zero in place of the old one.
abbrev pub merge_values : List Float → List Float → List Float
merge_values (v ∷ vs) (u ∷ us) = merged v u ∷ merge_values vs us
merge_values vs us = us

abbrev pub merge_messages : List Sensor → List Float → List Float
merge_messages [] us = us
merge_messages (m ∷ ms) us = merge_messages ms (merge_values (values_of m) us)

abbrev pub no_values : List Float
no_values = 0 ∷ 0 ∷ 0 ∷ 0 ∷ 0 ∷ []

module _ {M : Type 0} (reflect : M → List Float → Option (List Float)) where
  abbrev pub spec_step : Step M → List Float → Option (List Float)
  spec_step (calls (sets0 v)) us = some (replace 0 v us)
  spec_step (calls (sets1 v)) us = some (replace 1 v us)
  spec_step (calls (sets2 v)) us = some (replace 2 v us)
  spec_step (calls (sets3 v)) us = some (replace 3 v us)
  spec_step (calls (sets4 v)) us = some (replace 4 v us)
  spec_step (calls clears0) us = some (replace 0 0 us)
  spec_step (calls clears1) us = some (replace 1 0 us)
  spec_step (calls clears2) us = some (replace 2 0 us)
  spec_step (calls clears3) us = some (replace 3 0 us)
  spec_step (calls clears4) us = some (replace 4 0 us)
  spec_step (calls clears) us = some no_values
  spec_step (calls sizes) us = some us
  spec_step (calls (merges itself)) us = none
  spec_step (calls (merges (other from))) us = some (merge_values (values_of from) us)
  spec_step (calls (copies itself)) us = some us
  spec_step (calls (copies (other from))) us = some (merge_values (values_of from) no_values)
  spec_step (calls (swaps itself)) us = some us
  spec_step (calls (swaps (other with))) us = some (values_of with)
  spec_step (calls (merges_message this)) us = none
  spec_step (calls (merges_message (sensor from))) us = some (merge_values (values_of from) us)
  spec_step (calls (merges_message (foreign m))) us = reflect m us
  spec_step (calls (copies_message this)) us = some us
  spec_step (calls (copies_message (sensor from))) us =
      some (merge_values (values_of from) no_values)
  spec_step (calls (copies_message (foreign m))) us = reflect m no_values
  spec_step (calls (parses input)) us = none
  spec_step (receives ms) us = some (merge_messages ms us)

  abbrev pub spec_run : List (Step M) → List Float → Option (List Float)
  spec_run [] us = some us
  spec_run (c ∷ cs) us = elim (spec_step c us) [ none ↦ none | some us' ↦ spec_run cs us' ]

merge_args-values :
    (from s : Sensor) → values_of (merge_args from s) ≡ merge_values (values_of from) (values_of s)
merge_args-values from s = ap values_of (merge_args_lem from s)

latest-values :
    (ms : List Sensor) (a0 a1 a2 a3 a4 : Float)
    → latest (λ m. m.arg0) ms a0
        ∷ latest (λ m. m.arg1) ms a1
        ∷ latest (λ m. m.arg2) ms a2
        ∷ latest (λ m. m.arg3) ms a3
        ∷ latest (λ m. m.arg4) ms a4
        ∷ []
      ≡ merge_messages ms (a0 ∷ a1 ∷ a2 ∷ a3 ∷ a4 ∷ [])
latest-values [] a0 a1 a2 a3 a4 = refl
latest-values (m ∷ ms) a0 a1 a2 a3 a4 =
    latest-values ms (merged m.arg0 a0) (merged m.arg1 a1) (merged m.arg2 a2) (merged m.arg3 a3)
      (merged m.arg4 a4)

module _ {M : Type 0} {w : Wire} (lawful : IsWire w) (reflection_merge : M → Sensor → Option Sensor)
    (reflect : M → List Float → Option (List Float))
    (reflects : (m : M) (s : Sensor)
      → values (reflection_merge m s) ≡ reflect m (values_of s)) where
  step-refines :
      (c : Step M) (s : Sensor)
      → Sound c
      → values (step w reflection_merge (as_call w c) s) ≡ spec_step reflect c (values_of s)
  unfolding step clear merge_from copy_from swap internal_swap byte_size merge_from_message
      copy_from_message
  step-refines (calls (sets0 v)) s h = refl
  step-refines (calls (sets1 v)) s h = refl
  step-refines (calls (sets2 v)) s h = refl
  step-refines (calls (sets3 v)) s h = refl
  step-refines (calls (sets4 v)) s h = refl
  step-refines (calls clears0) s h = refl
  step-refines (calls clears1) s h = refl
  step-refines (calls clears2) s h = refl
  step-refines (calls clears3) s h = refl
  step-refines (calls clears4) s h = refl
  step-refines (calls clears) s h = refl
  step-refines (calls sizes) s h = refl
  step-refines (calls (merges itself)) s h = refl
  step-refines (calls (merges (other from))) s h = ap some (merge_args-values from s)
  step-refines (calls (copies itself)) s h = refl
  step-refines (calls (copies (other from))) s h = ap some (merge_args-values from (clear s))
  step-refines (calls (swaps itself)) s h = refl
  step-refines (calls (swaps (other with))) s h = refl
  step-refines (calls (merges_message this)) s h = refl
  step-refines (calls (merges_message (sensor from))) s h = ap some (merge_args-values from s)
  step-refines (calls (merges_message (foreign m))) s h = reflects m s
  step-refines (calls (copies_message this)) s h = refl
  step-refines (calls (copies_message (sensor from))) s h =
      ap some (merge_args-values from (clear s))
  step-refines (calls (copies_message (foreign m))) s h = reflects m (clear s)
  step-refines (calls (parses input)) s h = absurd h
  step-refines (receives ms) s h =
      ap (λ p. values (left_by p)) (merge_partial-stream lawful ms s h)
      ∙ ap some (latest-values ms s.arg0 s.arg1 s.arg2 s.arg3 s.arg4)

  run-values :
      (cs : List (Step M)) (s : Sensor)
      → All Sound cs
      → values (run w reflection_merge (all_calls w cs) s) ≡ spec_run reflect cs (values_of s)
  unfolding run
  run-values [] s h = refl
  run-values (c ∷ cs) s h =
      by_step (step w reflection_merge (as_call w c) s) _ (λ s'. run-values cs s' h.1)
        (step-refines c s h.0)
    where
      by_step :
          (r : Option Sensor) (u : Option (List Float))
          → ((s' : Sensor)
              → values (run w reflection_merge (all_calls w cs) s')
                ≡ spec_run reflect cs (values_of s'))
          → values r ≡ u
          → values (elim r [ none ↦ none | some s' ↦ run w reflection_merge (all_calls w cs) s' ])
            ≡ elim u [ none ↦ none | some us ↦ spec_run reflect cs us ]
      by_step none u goes e = rw (← e) refl
      by_step (some s') u goes e = rw (← e) (goes s')

  -- With a library that keeps to IsWire, and a ReflectionOps::Merge that does to the values what
  -- `reflect` says: for any sequence of calls of the methods of Sensor on a new message, in which
  -- the parser is called on serialized messages behind one another, whose arguments are bit
  -- patterns below 2 ^ 32: the five arguments are what a list of five values becomes by setting,
  -- clearing, merging each value that is not a zero, copying with 0 for a zero, and swapping; and
  -- the program is ended just where the message is merged into itself, or where the reflection
  -- ends it.
  pub run-refines :
      (cs : List (Step M))
      → All Sound cs
      → values (run w reflection_merge (all_calls w cs) shared_ctor) ≡ spec_run reflect cs no_values
  run-refines cs h = run-values cs shared_ctor h
