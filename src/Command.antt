-- ===== src/Command.antt =====
-- The speed command that the programs write to the motor controller: "sl", the speed in decimal,
-- "f". MyoNucMotor/MyoNucMotor/main.cpp and MyoWin/MyoWin/main.cpp build it by `_itoa_s` into seven
-- characters, `strcpy_s` and `strcat_s`. A call that these functions refuse, where the text and its
-- zero byte do not fit, ends the program and is `none`.
pub mod Digits
pub mod Buffer
pub mod Tests
use myodesignproject.Base.{
  ℕ, zero, suc, ◌+◌, ◌*◌, ◌/◌, ◌%◌, Bool, Option, none, some, List, [], ◌∷◌, ◌++◌, ltb, leb,
  if◌then◌else◌, length, drop,
}
use myodesignproject.Base.Int.{ℤ, pos, negsuc}
use myodesignproject.Text.{c_string, overwrite}

-- The decimal digits of `n`, below 10 ^ fuel; an int has at most ten.
unfoldable pub digits : ℕ → ℕ → List ℕ
digits zero n = []
digits (suc fuel) n =
    let rest = digits fuel (n / 10) in
    if ltb n 10 then (48 + n) ∷ [] else rest ++ (48 + n % 10) ∷ []

unfoldable pub decimal : ℤ → List ℕ
unfolding digits
decimal (pos n) = digits 10 n
decimal (negsuc n) = 45 ∷ digits 10 (suc n)

-- `_itoa_s(value, buffer, 10)` for a buffer of `size` characters.
unfoldable pub itoa_s : ℤ → ℕ → Option (List ℕ)
unfolding decimal
itoa_s value size = if ltb (length (decimal value)) size then some (decimal value) else none

-- `strcpy_s` and `strcat_s` into an array: the text and its zero byte must fit.
unfoldable pub strcpy_s : List ℕ → List ℕ → Option (List ℕ)
unfolding overwrite
strcpy_s text array = overwrite (text ++ 0 ∷ []) array

abbrev pub cat_to : Option (List ℕ) → List ℕ → List ℕ → Option (List ℕ)
cat_to none text array = none
cat_to (some old) text array = strcpy_s (old ++ text) array

unfoldable pub strcat_s : List ℕ → List ℕ → Option (List ℕ)
unfolding c_string strcpy_s
strcat_s text array = cat_to (c_string array) text array

infixl 5 ◌>>=◌
abbrev pub ◌>>=◌ {ℓ κ} : {A : Type ℓ} {B : Type κ} → Option A → (A → Option B) → Option B
none >>= f = none
some a >>= f = f a

-- The array `buff` with the command for a speed: "sl", the decimal, "f".
unfoldable pub put_command : ℤ → List ℕ → Option (List ℕ)
put_command value buff = do
  speed ← itoa_s value 7
  b1 ← strcpy_s (115 ∷ 108 ∷ []) buff
  b2 ← strcat_s speed b1
  strcat_s (102 ∷ []) b2
