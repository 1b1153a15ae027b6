-- ===== src/Text/Laws.antt =====
-- Cutting a text at a character, and the shape of what the cuts return.
use native.Mathlib.Decide.{ℕ_discrete}
use myodesignproject.Base.{
  ℕ, suc, ◌≡◌, ◌≢◌, refl, ◌&&◌, inl, inr, none, some, List, [], ◌∷◌, ◌++◌, arith, ◌==◌,
  if◌then◌else◌, Bool-cases, length, take, drop, All, length-append, length-drop, ◌⊎◌,
}
use myodesignproject.Text.{
  newline, find, substr, front, back, unique_after, unique_newlines, c_string, overwrite,
}

-- `c` does not occur.
abbrev pub Lacks : ℕ → List ℕ → Type 0
Lacks c = All (λ x. x ≢ c)

pub find-none : (c : ℕ) (s : List ℕ) → Lacks c s → find c s ≡ none
unfolding find
find-none c [] h = refl
find-none c (x ∷ s) h = ground (arith, h.0, find-none c s h.1)

pub find-append : (c : ℕ) (s t : List ℕ) → Lacks c s → find c (s ++ c ∷ t) ≡ some (length s)
unfolding find
find-append c [] t h = ground arith
find-append c (x ∷ s) t h = ground (arith, h.0, find-append c s t h.1)

-- A text either lacks `c` or splits at its first one.
abbrev pub Split : ℕ → List ℕ → Type 0
Split c s =
    Lacks c s
    ⊎ ((before : List ℕ) × (behind : List ℕ) × Lacks c before × (s ≡ before ++ c ∷ behind))

Split-cons : (c x : ℕ) (s : List ℕ) → x ≢ c → Split c s → Split c (x ∷ s)
Split-cons c x s ne (inl lacks) = inl (ne, lacks)
Split-cons c x s ne (inr (before, behind, lacks, e)) =
    inr (x ∷ before, behind, (ne, lacks), ground arith)

pub cut_at : (c : ℕ) (s : List ℕ) → Split c s
cut_at c [] = inl tt
cut_at c (x ∷ s) = elim (ℕ_discrete x c) [
  | yes e ↦ inr ([], s, tt, ground arith)
  | no ne ↦ Split-cons c x s ne (cut_at c s)
]

take-length : (s t : List ℕ) → take (length s) (s ++ t) ≡ s
take-length [] t = refl
take-length (x ∷ s) t = ground (arith, take-length s t)

drop-length : (c : ℕ) (s t : List ℕ) → drop (suc (length s)) (s ++ c ∷ t) ≡ t
drop-length c [] t = refl
drop-length c (x ∷ s) t = drop-length c s t

module _ (c : ℕ) (s : List ℕ) (lacks : Lacks c s) where
  pub front-lacks : front c s ≡ some s
  unfolding front substr
  front-lacks = ground (arith, find-none c s lacks)

  pub back-lacks : back c s ≡ some s
  unfolding back substr
  back-lacks = ground (arith, find-none c s lacks)

  pub front-append : (t : List ℕ) → front c (s ++ c ∷ t) ≡ some s
  unfolding front substr
  front-append t = ground (arith, find-append c s t lacks, take-length s (c ∷ t))

  pub back-append : (t : List ℕ) → back c (s ++ c ∷ t) ≡ some t
  unfolding back substr
  back-append t =
      ground (arith, find-append c s t lacks, drop-length c s t, length-append s (c ∷ t))

-- The cuts never throw, and what `front` returns is free of the character.
pub front-cases : (c : ℕ) (s : List ℕ) → (t : List ℕ) × (front c s ≡ some t) × Lacks c t
front-cases c s = elim (cut_at c s) [
  | inl lacks ↦ (s, front-lacks c s lacks, lacks)
  | inr (before, behind, lacks, e) ↦ (before, rw e (front-append c before lacks behind), lacks)
]

-- Collapsing drops newlines only, and leaves no two of them side by side.
abbrev pub NoPair : List ℕ → Type 0
NoPair [] = Unit
NoPair (x ∷ []) = Unit
NoPair (x ∷ y ∷ s) = ¬ ((x ≡ newline) × (y ≡ newline)) × NoPair (y ∷ s)

unique_after-NoPair : (last : ℕ) (s : List ℕ) → NoPair (last ∷ unique_after last s)
unfolding unique_after
unique_after-NoPair last [] = tt
unique_after-NoPair last (c ∷ s) = elim (Bool-cases (last == newline && c == newline)) [
  | inl e ↦ rw (e, unique_after) (unique_after-NoPair last s)
  | inr e ↦ rw (e, unique_after) ((λ h. ground arith), unique_after-NoPair c s)
]

pub unique_newlines-NoPair : (s : List ℕ) → NoPair (unique_newlines s)
unfolding unique_newlines
unique_newlines-NoPair [] = tt
unique_newlines-NoPair (c ∷ s) = unique_after-NoPair c s

-- The characters other than newlines.
abbrev pub printed : List ℕ → List ℕ
printed [] = []
printed (c ∷ s) = if c == newline then printed s else c ∷ printed s

printed-unique_after : (last : ℕ) (s : List ℕ) → printed (unique_after last s) ≡ printed s
unfolding unique_after
printed-unique_after last [] = refl
printed-unique_after last (c ∷ s) =
    ground (arith, printed-unique_after last s, printed-unique_after c s)

pub printed-unique_newlines : (s : List ℕ) → printed (unique_newlines s) ≡ printed s
unfolding unique_newlines
printed-unique_newlines [] = refl
printed-unique_newlines (c ∷ s) = ground (arith, printed-unique_after c s)

unique_after_id : (last : ℕ) (s : List ℕ) → NoPair (last ∷ s) → unique_after last s ≡ s
unfolding unique_after
unique_after_id last [] h = refl
unique_after_id last (c ∷ s) h = ground (arith, h.0, unique_after_id c s h.1)

pub unique_newlines_id : (s : List ℕ) → NoPair s → unique_newlines s ≡ s
unfolding unique_newlines
unique_newlines_id [] h = refl
unique_newlines_id (c ∷ s) h = ground (arith, unique_after_id c s h)

-- A text that is stored with its zero byte is read back, whatever stands behind it.
pub c_string-append : (s t : List ℕ) → Lacks 0 s → c_string (s ++ 0 ∷ t) ≡ some s
unfolding c_string
c_string-append [] t h = refl
c_string-append (x ∷ s) t h = ground (arith, h.0, c_string-append s t h.1)

-- Bytes that are stored without one are read back with what the array held behind them.
pub c_string-append_stale :
    (s t : List ℕ) {u : List ℕ}
    → Lacks 0 s
    → c_string t ≡ some u
    → c_string (s ++ t) ≡ some (s ++ u)
unfolding c_string
c_string-append_stale [] t h e = e
c_string-append_stale (x ∷ s) t {u} h e = ground (arith, h.0, c_string-append_stale s t h.1 e)

pub overwrite-length :
    (bytes array : List ℕ) {after : List ℕ}
    → overwrite bytes array ≡ some after
    → length after ≡ length array
unfolding overwrite
overwrite-length bytes array {after} e =
    ground
      (arith, length-append bytes (drop (length bytes) array), length-drop (length bytes) array)
