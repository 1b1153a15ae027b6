-- ===== src/Line/Fields.antt =====
-- The five blocks that parse a line, of MyoNucMotor/MyoNucMotor/main.cpp (the section MAIN) and
-- NUCServer/NUCServer/Server.cpp, against the columns of the line.
use native.Mathlib.Decide.{ℕ_discrete}
use myodesignproject.Base.{
  ℕ, zero, suc, ◌≡◌, refl, subst, Bool, true, false, inl, inr, Option, none, some, List, [], ◌∷◌,
  ◌++◌, arith, ◌==◌, if◌then◌else◌, length,
}
use myodesignproject.Sensor.{Float, Sensor, set_arg0, set_arg1, set_arg2, set_arg3, set_arg4}
use myodesignproject.Text.{newline, comma}
use myodesignproject.Text.Laws.{
  Lacks, cut_at, find-none, find-append, front-lacks, back-lacks, front-append, back-append,
}
use myodesignproject.Line.{
  Reading, Try, ran, threw, ◌>>=◌, never_zero, set_from, read_arg, read_args, server_read_arg,
  server_read_args,
}

abbrev pub first_longer : ℕ → List (List ℕ) → List (List ℕ)
first_longer c [] = []
first_longer c (p ∷ ps) = (c ∷ p) ∷ ps

-- The pieces between the commas.
unfoldable pub split : List ℕ → List (List ℕ)
split [] = [] ∷ []
split (c ∷ s) = if c == comma then [] ∷ split s else first_longer c (split s)

-- The first `n` pieces, the last of them again and again where there are fewer.
abbrev pub columns : ℕ → List (List ℕ) → List (List ℕ)
columns zero ps = []
columns (suc n) [] = []
columns (suc n) (p ∷ []) = p ∷ columns n (p ∷ [])
columns (suc n) (p ∷ q ∷ ps) = p ∷ columns n (q ∷ ps)

-- The fields take the numbers in turn, as far as they can be converted; the flag says whether all
-- could.
abbrev pub fill :
    (List ℕ → Option Float)
    → (Float → Float)
    → List (Float → Sensor → Sensor)
    → List (List ℕ)
    → Sensor
    → Sensor × Bool
fill stof f [] ts s = (s, true)
fill stof f (set ∷ sets) [] s = (s, true)
fill stof f (set ∷ sets) (t ∷ ts) s = elim (stof t) [
  | none ↦ (s, false)
  | some v ↦ fill stof f sets ts (set (f v) s)
]

abbrev pub setters : List (Float → Sensor → Sensor)
setters = set_arg0 ∷ set_arg1 ∷ set_arg2 ∷ set_arg3 ∷ set_arg4 ∷ []

abbrev pub outcome : Try → Sensor × Bool
outcome (ran r) = (r.sensor, true)
outcome (threw s) = (s, false)

split-Lacks : (s : List ℕ) → Lacks comma s → split s ≡ s ∷ []
unfolding split
split-Lacks [] h = refl
split-Lacks (c ∷ s) h = ground (arith, h.0, split-Lacks s h.1)

split-append : (s t : List ℕ) → Lacks comma s → split (s ++ comma ∷ t) ≡ s ∷ split t
unfolding split
split-append [] t h = refl
split-append (c ∷ s) t h = ground (arith, h.0, split-append s t h.1)

pub split_cases : (s : List ℕ) → (p : List ℕ) × (ps : List (List ℕ)) × (split s ≡ p ∷ ps)
unfolding split
split_cases [] = ([], [], refl)
split_cases (c ∷ s) =
    let (p, ps, e) = split_cases s in
    elim (ℕ_discrete c comma) [
      | yes e' ↦ ([], split s, ground arith)
      | no ne ↦ (c ∷ p, ps, ground arith)
    ]

-- What one block does to the columns of its text: `step` is either program's block.
record IsBlock (stof : List ℕ → Option Float) (f : Float → Float)
    (step : (Float → Sensor → Sensor) → Reading → Try) : Type 0 where
  at_last :
      (set : Float → Sensor → Sensor) (s : Sensor) (t : List ℕ)
      → Lacks comma t
      → Lacks newline t
      → step set (record { sensor = s; text = t }) ≡ set_from (λ v. set (f v)) (stof t) (some t) s
  at_comma :
      (set : Float → Sensor → Sensor) (s : Sensor) (t rest : List ℕ)
      → Lacks comma t
      → step set (record { sensor = s; text = t ++ comma ∷ rest })
        ≡ set_from (λ v. set (f v)) (stof t) (some rest) s

read_arg-IsBlock : (stof : List ℕ → Option Float) → IsBlock stof never_zero (read_arg stof)
unfolding read_arg
read_arg-IsBlock stof = record {
  at_last = λ set s t c n. rw (find-none comma t c, read_arg, front-lacks newline t n) refl;
  at_comma = λ set s t rest c.
      rw
        (
          find-append comma t rest c,
          read_arg,
          front-append comma t c rest,
          back-append comma t c rest,
        )
        refl;
}

server_read_arg-IsBlock :
    (stof : List ℕ → Option Float) → IsBlock stof (λ v. v) (server_read_arg stof)
unfolding server_read_arg
server_read_arg-IsBlock stof = record {
  at_last = λ set s t c n. rw (front-lacks comma t c, back-lacks comma t c);
  at_comma = λ set s t rest c. rw (front-append comma t c rest, back-append comma t c rest);
}

-- The blocks for some fields, one after the other.
abbrev chain :
    ((Float → Sensor → Sensor) → Reading → Try) → List (Float → Sensor → Sensor) → Reading → Try
chain step [] r = ran r
chain step (set ∷ sets) r = step set r >>= chain step sets

Lacks-behind : (c d : ℕ) (s t : List ℕ) → Lacks c (s ++ d ∷ t) → Lacks c t
Lacks-behind c d [] t h = h.1
Lacks-behind c d (x ∷ s) t h = Lacks-behind c d s t h.1

columns-split : (n : ℕ) (p t : List ℕ) → columns (suc n) (p ∷ split t) ≡ p ∷ columns n (split t)
columns-split n p t = let (q, qs, e) = split_cases t in rw e

>>=-ran : (m : Try) → (m >>= λ r. ran r) ≡ m
>>=-ran (ran r) = refl
>>=-ran (threw s) = refl

module _ {stof : List ℕ → Option Float} {f : Float → Float}
    {step : (Float → Sensor → Sensor) → Reading → Try} (block : IsBlock stof f step) where
  set_from-fill :
      (set : Float → Sensor → Sensor) (sets : List (Float → Sensor → Sensor)) (s : Sensor)
      (t rest : List ℕ) (cols : List (List ℕ)) (o : Option Float)
      → stof t ≡ o
      → ((v : Float)
          → outcome (chain step sets (record { sensor = set (f v) s; text = rest }))
            ≡ fill stof f sets cols (set (f v) s))
      → outcome (set_from (λ v. set (f v)) o (some rest) s >>= chain step sets)
        ≡ fill stof f (set ∷ sets) (t ∷ cols) s
  set_from-fill set sets s t rest cols none e ih = rw (e, fill)
  set_from-fill set sets s t rest cols (some v) e ih = rw (e, fill) (ih v)

  chain-fill :
      (sets : List (Float → Sensor → Sensor)) (s : Sensor) (t : List ℕ)
      → Lacks newline t
      → outcome (chain step sets (record { sensor = s; text = t }))
        ≡ fill stof f sets (columns (length sets) (split t)) s
  chain-fill [] s t h = refl
  chain-fill (set ∷ sets) s t h = elim (cut_at comma t) [
    | inl lacks ↦
        let ih = λ (v : Float). chain-fill sets (set (f v) s) t h in
        rw (block.at_last set s t lacks h, split-Lacks t lacks)
          (set_from-fill set sets s t t _ (stof t) refl (λ v. rw (split-Lacks t lacks) at (ih v)))
    | inr (before, behind, lacks, e) ↦
        let ends = Lacks-behind newline comma before behind (subst (Lacks newline) e h) in
        let ih = λ (v : Float). chain-fill sets (set (f v) s) behind ends in
        rw
          (
            e,
            block.at_comma set s before behind lacks,
            split-append before behind lacks,
            columns-split (length sets) before behind,
          )
          (set_from-fill set sets s before behind _ (stof before) refl ih)
  ]

-- On a line without a newline, the five blocks of the section MAIN store the numbers in its first
-- five columns (the last column again where there are fewer), with -1 for 0, up to the first
-- column that std::stof does not convert, and they throw just if there is one.
pub read_args-fill :
    (stof : List ℕ → Option Float) (s : Sensor) (t : List ℕ)
    → Lacks newline t
    → outcome (read_args stof (record { sensor = s; text = t }))
      ≡ fill stof never_zero setters (columns 5 (split t)) s
unfolding read_args
read_args-fill stof s t h = simp >>=-ran at (chain-fill (read_arg-IsBlock stof) setters s t h)

-- On a line without a newline, the five blocks of the server store the numbers in its first five
-- columns (the last column again where there are fewer) as they are, up to the first column that
-- std::stof does not convert, and they throw just if there is one.
pub server_read_args-fill :
    (stof : List ℕ → Option Float) (s : Sensor) (t : List ℕ)
    → Lacks newline t
    → outcome (server_read_args stof (record { sensor = s; text = t }))
      ≡ fill stof (λ v. v) setters (columns 5 (split t)) s
unfolding server_read_args
server_read_args-fill stof s t h =
    simp >>=-ran at (chain-fill (server_read_arg-IsBlock stof) setters s t h)
