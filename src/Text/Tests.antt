-- ===== src/Text/Tests.antt =====
-- Texts as the loops cut them (MyoNucMotor/MyoNucMotor/main.cpp).
use myodesignproject.Base.{ℕ, ◌≡◌, refl, some, List, [], ◌∷◌}
use myodesignproject.Text.{newline, unique_newlines, unique_after, c_string}

abbrev gaps : List ℕ
gaps = newline ∷ newline ∷ 55 ∷ newline ∷ newline ∷ newline ∷ 56 ∷ []

collapsed : unique_newlines gaps ≡ newline ∷ 55 ∷ newline ∷ 56 ∷ []
unfolding unique_newlines unique_after
collapsed = refl

-- "7" read over the command "sl0f": the text is "7l0f".
stale : c_string (55 ∷ 108 ∷ 48 ∷ 102 ∷ 0 ∷ []) ≡ some (55 ∷ 108 ∷ 48 ∷ 102 ∷ [])
unfolding c_string
stale = refl
