-- ===== src/Text.antt =====
-- What the programs use of std::string and of character arrays. A text is the list of its bytes.
-- `npos` is `none`, and `npos + 1` wraps to 0; a call that throws is `none`.
pub mod Laws
pub mod Tests
use myodesignproject.Base.{
  ℕ, zero, suc, ◌+◌, Bool, true, false, ◌&&◌, ◌||◌, Option, none, some, List, [], ◌∷◌, ◌++◌, ◌==◌,
  leb, if◌then◌else◌, length, take, drop,
}

abbrev pub newline : ℕ
newline = 10

abbrev pub comma : ℕ
comma = 44

-- The position of the first `c`: `find` and `find_first_of` with a text of one character.
unfoldable pub find : ℕ → List ℕ → Option ℕ
find c [] = none
find c (x ∷ xs) =
    if x == c then some 0 else elim (find c xs) [ none ↦ none | some i ↦ some (suc i) ]

abbrev pub next : Option ℕ → ℕ
next none = 0
next (some i) = suc i

-- `substr(pos, count)`: it throws out_of_range if `pos` is behind the end.
unfoldable pub substr : ℕ → Option ℕ → List ℕ → Option (List ℕ)
substr pos count s =
    if leb pos (length s)
    then some (elim count [ none ↦ drop pos s | some n ↦ take n (drop pos s) ])
    else none

-- `s.substr(0, s.find_first_of(c))`
unfoldable pub front : ℕ → List ℕ → Option (List ℕ)
unfolding find substr
front c s = substr 0 (find c s) s

-- `s.substr(s.find_first_of(c) + 1)`
unfoldable pub back : ℕ → List ℕ → Option (List ℕ)
unfolding find substr
back c s = substr (next (find c s)) none s

unfoldable pub starts_with : List ℕ → List ℕ → Bool
starts_with [] s = true
starts_with (p ∷ ps) [] = false
starts_with (p ∷ ps) (c ∷ s) = p == c && starts_with ps s

-- `s.find(pattern) != npos`
unfoldable pub contains : List ℕ → List ℕ → Bool
unfolding starts_with
contains pattern [] = starts_with pattern []
contains pattern (c ∷ s) = starts_with pattern (c ∷ s) || contains pattern s

-- `std::unique` with the test that both characters are newlines; `last` is the last one kept.
unfoldable pub unique_after : ℕ → List ℕ → List ℕ
unique_after last [] = []
unique_after last (c ∷ s) =
    let kept = c ∷ unique_after c s in
    let rest = unique_after last s in if last == newline && c == newline then rest else kept

unfoldable pub unique_newlines : List ℕ → List ℕ
unfolding unique_after
unique_newlines [] = []
unique_newlines (c ∷ s) = c ∷ unique_after c s

-- A character array read as a text: up to the first zero byte; `none` if there is no such byte, and
-- the read goes on behind the array.
unfoldable pub c_string : List ℕ → Option (List ℕ)
c_string [] = none
c_string (c ∷ s) =
    if c == 0 then some [] else elim (c_string s) [ none ↦ none | some t ↦ some (c ∷ t) ]

-- Bytes stored from the start of an array; `none` if they do not fit.
unfoldable pub overwrite : List ℕ → List ℕ → Option (List ℕ)
overwrite bytes array =
    if leb (length bytes) (length array) then some (bytes ++ drop (length bytes) array) else none
