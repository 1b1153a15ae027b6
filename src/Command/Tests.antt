-- ===== src/Command/Tests.antt =====
-- Commands for concrete speeds (MyoNucMotor/MyoNucMotor/main.cpp).
use myodesignproject.Base.{ℕ, ◌≡◌, refl, some, List, [], ◌∷◌, arith, length}
use myodesignproject.Base.Int.{negsuc}
use myodesignproject.Text.{c_string}
use myodesignproject.Command.{decimal, put_command}
use myodesignproject.Command.Buffer.{command_text, put_command_text}

abbrev pub array_12 : List ℕ
array_12 = 1 ∷ 1 ∷ 1 ∷ 1 ∷ 1 ∷ 1 ∷ 1 ∷ 1 ∷ 1 ∷ 1 ∷ 1 ∷ 1 ∷ []

-- "sl-42f"
minus_42 : command_text (negsuc 41) ≡ 115 ∷ 108 ∷ 45 ∷ 52 ∷ 50 ∷ 102 ∷ []
unfolding decimal
minus_42 = refl

put_command_text_example :
    (b : List ℕ) × (put_command (negsuc 41) array_12 ≡ some b)
    × (c_string b ≡ some (command_text (negsuc 41)))
    × (length b ≡ 12)
put_command_text_example = put_command_text (negsuc 41) array_12 (omega arith) (omega arith)
