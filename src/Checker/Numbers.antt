-- ===== src/Checker/Numbers.antt =====
-- The numbers that are sent: those of the machine of Controller/Spec (the section MAIN of
-- MyoNucMotor/MyoNucMotor/main.cpp) and those of NUCServer/NUCServer/Server.cpp.
use myodesignproject.Base.{
  ℕ, suc, ◌≡◌, refl, ap, Option, none, some, List, [], ◌∷◌, arith, length, All, Option-cases, inl,
  inr,
}
use myodesignproject.Sensor.{Float, IsFloat}
use myodesignproject.Sensor.Stream.{HasFloats}
use myodesignproject.Line.{never_zero, Selected, thrown, skipped, line}
use myodesignproject.Line.Fields.{columns, split}
use myodesignproject.Controller.Repeats.{IsFull}
use myodesignproject.Controller.Refines.{length-columns, message_of-IsFull}
use myodesignproject.Server.Refines.{reading_of}
use myodesignproject.Controller.Spec.{
  Numbers, cons_number, all_numbers, numbers_of, nonzero, message_of, spec_line, spec_step,
}

-- std::stof answers with bit patterns.
abbrev pub GivesFloats : (List ℕ → Option Float) → Type 0
GivesFloats stof = (t : List ℕ) (v : Float) → stof t ≡ some v → IsFloat v

-- `n` floats, if there are numbers.
abbrev pub Floats : ℕ → Option Numbers → Type 0
Floats n none = Unit
Floats n (some vs) = All IsFloat vs × (length vs ≡ n)

Floats-cons :
    (n : ℕ) (v : Float) (o : Option Numbers)
    → IsFloat v
    → Floats n o
    → Floats (suc n) (cons_number (some v) o)
Floats-cons n v none f h = tt
Floats-cons n v (some vs) f (fs, e) = ((f, fs), ap suc e)

all_numbers-Floats :
    (stof : List ℕ → Option Float)
    → GivesFloats stof
    → (ts : List (List ℕ)) → Floats (length ts) (all_numbers stof ts)
all_numbers-Floats stof gives [] = (tt, refl)
all_numbers-Floats stof gives (t ∷ ts) = elim (Option-cases (stof t)) [
  | inl e ↦ rw e tt
  | inr (v, e) ↦ rw e (
      Floats-cons (length ts) v (all_numbers stof ts) (gives t v e)
        (all_numbers-Floats stof gives ts))
]

pub numbers_of-Floats :
    (stof : List ℕ → Option Float) → GivesFloats stof → (s : List ℕ) → Floats 5 (numbers_of stof s)
numbers_of-Floats stof gives s =
    rw (length-columns 5 s) at (all_numbers-Floats stof gives (columns 5 (split s)))

never_zero-IsFloat : (v : Float) → IsFloat v → IsFloat (never_zero v)
unfolding never_zero
never_zero-IsFloat v h = ground arith

pub message_of-HasFloats :
    (vs : Numbers) → All IsFloat vs → length vs ≡ 5 → HasFloats (message_of vs)
message_of-HasFloats (v0 ∷ v1 ∷ v2 ∷ v3 ∷ v4 ∷ []) (f0, (f1, (f2, (f3, (f4, f))))) h = record {
  float0 = f0;
  float1 = f1;
  float2 = f2;
  float3 = f3;
  float4 = f4;
}
message_of-HasFloats _ f h = absurd (omega (arith, h))

nonzero-Floats :
    (vs : Numbers) → All IsFloat vs → All IsFloat (nonzero vs) × (length (nonzero vs) ≡ length vs)
nonzero-Floats [] h = (tt, refl)
nonzero-Floats (v ∷ vs) h =
    let (fs, e) = nonzero-Floats vs h.1 in ((never_zero-IsFloat v h.0, fs), ap suc e)

-- Five floats, none of them a zero.
pub record Whole (ns : Numbers) : Type 0 where
  pub full : IsFull (message_of ns)
  pub floats : HasFloats (message_of ns)

-- A step puts out nothing and keeps the numbers, or it puts out the new ones.
abbrev pub Steps : Numbers → Numbers × Option Numbers → Type 0
Steps last (next, none) = next ≡ last
Steps last (next, some out) = (out ≡ next) × Whole next

spec_line-Steps :
    (last : Numbers) (o : Option Numbers) → Floats 5 o → Whole last → Steps last (spec_line o last)
spec_line-Steps last none h g = (refl, g)
spec_line-Steps last (some vs) (fs, five) g =
    let (gs, e) = nonzero-Floats vs fs in
    (
      refl,
      record {
        full = message_of-IsFull vs five;
        floats = message_of-HasFloats (nonzero vs) gs (omega (arith, e, five));
      },
    )

pub spec_step-Steps :
    (stof : List ℕ → Option Float)
    → GivesFloats stof
    → (c : Selected) (last : Numbers) → Whole last
    → Steps last (spec_step stof c last)
spec_step-Steps stof gives thrown last g = refl
spec_step-Steps stof gives skipped last g = refl
spec_step-Steps stof gives (line s) last g =
    spec_line-Steps last (numbers_of stof s) (numbers_of-Floats stof gives s) g

pub Steps-Whole :
    (last : Numbers) (r : Numbers × Option Numbers) → Whole last → Steps last r → Whole r.0
Steps-Whole last (next, none) good e = rw e good
Steps-Whole last (next, some out) good (e, g) = g

pub reading_of-Floats :
    (stof : List ℕ → Option Float)
    → GivesFloats stof
    → (c : Selected) → Floats 5 (reading_of stof c)
reading_of-Floats stof gives thrown = tt
reading_of-Floats stof gives skipped = tt
reading_of-Floats stof gives (line s) = numbers_of-Floats stof gives s
