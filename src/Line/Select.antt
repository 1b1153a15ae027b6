-- ===== src/Line/Select.antt =====
-- Which line of the text is parsed: the section MAIN of MyoNucMotor/MyoNucMotor/main.cpp and
-- NUCServer/NUCServer/Server.cpp.
use myodesignproject.Base.{
  ℕ, ◌≡◌, Bool, true, false, inl, inr, Option, none, some, List, [], ◌∷◌, ◌++◌, arith,
  if◌then◌else◌, take,
}
use myodesignproject.Text.{newline, contains, unique_newlines, front}
use myodesignproject.Text.Laws.{
  Lacks, NoPair, cut_at, find-none, find-append, back-lacks, front-append, back-append, front-cases,
  unique_newlines_id,
}
use myodesignproject.Line.{
  Selected, thrown, skipped, line, to_line, set_word, select_line, select, server_select_line,
  server_select,
}

abbrev pub two_lines : List ℕ → List ℕ → List ℕ → List ℕ
two_lines first second rest = first ++ newline ∷ (second ++ newline ∷ rest)

Lacks-NoPair : (s : List ℕ) → Lacks newline s → NoPair s
Lacks-NoPair [] lacks = tt
Lacks-NoPair (x ∷ []) lacks = tt
Lacks-NoPair (x ∷ y ∷ s) lacks = ((λ h. lacks.0 h.0), Lacks-NoPair (y ∷ s) lacks.1)

choose :
    (b : Bool) (s t : List ℕ) {first second : List ℕ}
    → front newline s ≡ some second
    → front newline t ≡ some first
    → to_line (if b then front newline s else front newline t) ≡ line (if b then second else first)
choose true s t e e' = rw e
choose false s t e e' = rw e'

module _ (first : List ℕ) (lf : Lacks newline first) where
  select_line_none : select_line first ≡ skipped
  unfolding select_line
  select_line_none = rw (back-lacks newline first lf, select_line, find-none newline first lf)

  select_line_one :
      (second : List ℕ) → Lacks newline second → select_line (first ++ newline ∷ second) ≡ skipped
  unfolding select_line
  select_line_one second ls =
      rw (back-append newline first lf second, select_line, find-none newline second ls)

  select_line_two :
      (second rest : List ℕ)
      → Lacks newline second
      → select_line (two_lines first second rest)
        ≡ line (if contains set_word (two_lines first second rest) then second else first)
  unfolding select_line
  select_line_two second rest ls =
      rw
        (
          back-append newline first lf (second ++ newline ∷ rest),
          select_line,
          find-append newline second rest ls,
        )
        (choose (contains set_word (two_lines first second rest)) (second ++ newline ∷ rest)
          (two_lines first second rest) (front-append newline second ls rest)
          (front-append newline first lf (second ++ newline ∷ rest)))

-- A step does not throw here, and the line that it hands on is free of newlines.
abbrev pub IsCut : Selected → Type 0
IsCut thrown = ⊥
IsCut skipped = Unit
IsCut (line s) = Lacks newline s

if-Lacks :
    (b : Bool) (s t : List ℕ)
    → Lacks newline s
    → Lacks newline t
    → Lacks newline (if b then s else t)
if-Lacks true s t hs ht = hs
if-Lacks false s t hs ht = ht

select_line-IsCut : (s : List ℕ) → IsCut (select_line s)
select_line-IsCut s = elim (cut_at newline s) [
  | inl lacks ↦ rw (select_line_none s lacks) tt
  | inr (first, buff2, lf, e) ↦ elim (cut_at newline buff2) [
    | inl lacks ↦ rw (e, select_line_one first lf buff2 lacks) tt
    | inr (second, rest, ls, e2) ↦
        rw (e, e2, select_line_two first lf second rest ls)
          (if-Lacks (contains set_word (two_lines first second rest)) second first ls lf)
  ]
]

-- Whatever was read, the section MAIN does not throw while it looks for a line, and a line that it
-- hands on is free of newlines.
pub select-IsCut : (read : List ℕ) → IsCut (select read)
unfolding select
select-IsCut read = select_line-IsCut (unique_newlines read)

-- Where a text, after its runs of newlines are collapsed, begins with two lines that are ended by
-- newlines, the section MAIN parses the second line if "set" occurs anywhere in it, and the first
-- line else.
pub select-two_lines :
    (read first second rest : List ℕ)
    → Lacks newline first
    → Lacks newline second
    → unique_newlines read ≡ two_lines first second rest
    → select read ≡ line (if contains set_word (two_lines first second rest) then second else first)
unfolding select
select-two_lines read first second rest lf ls e =
    rw (e, select) (select_line_two first lf second rest ls)

-- Where a text, after its runs of newlines are collapsed, has one newline only, the section MAIN
-- parses nothing.
pub select-one_line :
    (read first second : List ℕ)
    → Lacks newline first
    → Lacks newline second
    → unique_newlines read ≡ first ++ newline ∷ second
    → select read ≡ skipped
unfolding select
select-one_line read first second lf ls e = rw (e, select) (select_line_one first lf second ls)

-- A text without a newline is not looked at.
pub select-no_line : (s : List ℕ) → Lacks newline s → select s ≡ skipped
unfolding select
select-no_line s lacks = rw (unique_newlines_id s (Lacks-NoPair s lacks)) (select_line_none s lacks)

front-IsCut : (s : List ℕ) → IsCut (to_line (front newline s))
front-IsCut s = let (t, e, lacks) = front-cases newline s in rw e lacks

server_select_line-IsCut : (pch2 : List ℕ) → IsCut (server_select_line pch2)
unfolding server_select_line
server_select_line-IsCut pch2 = elim (cut_at newline pch2) [
  | inl lacks ↦ rw (back-lacks newline pch2 lacks, server_select_line) (front-IsCut pch2)
  | inr (first, rest, lacks, e) ↦
      rw (e, back-append newline first lacks rest, server_select_line) (front-IsCut rest)
]

-- The part of the text that was read in this step.
abbrev pub part : Option ℕ → List ℕ → List ℕ
part none s = s
part (some n) s = take n s

server_select-part :
    (count : Option ℕ) (s : List ℕ) → server_select count s ≡ server_select_line (part count s)
unfolding server_select
server_select-part none s = ground arith
server_select-part (some n) s = ground arith

-- The server does not throw there either.
pub server_select-IsCut :
    (real_size : Option ℕ) (buff1 : List ℕ) → IsCut (server_select real_size buff1)
server_select-IsCut real_size buff1 =
    rw (server_select-part real_size buff1) (server_select_line-IsCut (part real_size buff1))

-- Where the part of the text that was read begins with two lines that are ended by newlines, the
-- server parses the second one.
pub server_select-two_lines :
    (real_size : Option ℕ) (buff1 first second rest : List ℕ)
    → part real_size buff1 ≡ two_lines first second rest
    → Lacks newline first
    → Lacks newline second
    → server_select real_size buff1 ≡ line second
unfolding server_select_line
server_select-two_lines real_size buff1 first second rest e lf ls = rw (
  server_select-part real_size buff1,
  e,
  server_select_line,
  back-append newline first lf (second ++ newline ∷ rest),
  server_select_line,
  front-append newline second ls rest,
)
