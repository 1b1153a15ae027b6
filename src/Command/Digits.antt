-- ===== src/Command/Digits.antt =====
-- The decimal digits of a command, and when it fits (MyoNucMotor/MyoNucMotor/main.cpp).
use myodesignproject.Base.{
  ℕ, zero, suc, ◌+◌, ◌-◌, ◌*◌, ◌/◌, ◌%◌, ◌^◌, ◌≤◌, ◌<◌, ◌≡◌, ◌≢◌, refl, none, some, List, [], ◌∷◌,
  ◌++◌, arith, ltb, if◌then◌else◌, length, length-append, All, inl, inr, Bool-cases, ◌==◌,
}
use myodesignproject.Base.Int.{ℤ, pos, negsuc}
use myodesignproject.Text.Laws.{Lacks}
use myodesignproject.Command.{digits, decimal, itoa_s}

-- The number that a run of digits stands for.
abbrev pub value_from : ℕ → List ℕ → ℕ
value_from acc [] = acc
value_from acc (c ∷ s) = value_from (10 * acc + (c - 48)) s

value_from-append :
    (acc : ℕ) (s t : List ℕ) → value_from acc (s ++ t) ≡ value_from (value_from acc s) t
value_from-append acc [] t = refl
value_from-append acc (c ∷ s) t = value_from-append (10 * acc + (c - 48)) s t

pow_suc : (f : ℕ) → 10 ^ suc f ≡ 10 * 10 ^ f
pow_suc f = omega arith

value_from-digits : (f n : ℕ) → n < 10 ^ f → value_from 0 (digits f n) ≡ n
unfolding digits
value_from-digits zero n h = omega arith
value_from-digits (suc f) n h = elim (Bool-cases (ltb n 10)) [
  | inl e ↦ rw e (omega arith)
  | inr e ↦
      rw
        (
          e,
          value_from-append 0 (digits f (n / 10)) ((48 + n % 10) ∷ []),
          value_from-digits f (n / 10) (omega (arith, pow_suc f)),
        )
        (omega arith)
]

pub length-digits : (f k n : ℕ) → n < 10 ^ suc k → length (digits f n) ≤ suc k
unfolding digits
length-digits zero k n h = omega arith
length-digits (suc f) zero n h = ground arith
length-digits (suc f) (suc k) n h = ground (
  arith,
  pow_suc (suc k),
  length-digits f k (n / 10) (omega (arith, pow_suc (suc k))),
  length-append (digits f (n / 10)) ((48 + n % 10) ∷ []),
)

pow_pos : (k : ℕ) → 1 ≤ 10 ^ k
pow_pos zero = omega arith
pow_pos (suc k) = omega (arith, pow_suc k, pow_pos k)

length-digits_lower : (f k n : ℕ) → 10 ^ k ≤ n → n < 10 ^ f → k < length (digits f n)
unfolding digits
length-digits_lower zero k n h b = absurd (omega (arith, pow_pos k))
length-digits_lower (suc f) zero n h b =
    ground (arith, length-append (digits f (n / 10)) ((48 + n % 10) ∷ []))
length-digits_lower (suc f) (suc k) n h b = ground (
  arith,
  pow_suc k,
  pow_pos k,
  length-digits_lower f k (n / 10) (omega (arith, pow_suc k)) (omega (arith, pow_suc f)),
  length-append (digits f (n / 10)) ((48 + n % 10) ∷ []),
)

pub All-append : (P : ℕ → Type 0) (s t : List ℕ) → All P s → All P t → All P (s ++ t)
All-append P [] t hs ht = ht
All-append P (c ∷ s) t hs ht = (hs.0, All-append P s t hs.1 ht)

pub digits-at_least : (f n : ℕ) → All (λ x. 48 ≤ x) (digits f n)
unfolding digits
digits-at_least zero n = tt
digits-at_least (suc f) n = elim (Bool-cases (ltb n 10)) [
  | inl e ↦ rw e (omega arith, tt)
  | inr e ↦ rw e (
      All-append (λ x. 48 ≤ x) (digits f (n / 10)) ((48 + n % 10) ∷ []) (digits-at_least f (n / 10))
        (omega arith, tt))
]

All-weaken : (P Q : ℕ → Type 0) (s : List ℕ) → ((x : ℕ) → P x → Q x) → All P s → All Q s
All-weaken P Q [] f h = tt
All-weaken P Q (c ∷ s) f h = (f c h.0, All-weaken P Q s f h.1)

-- A decimal has no character below the minus sign.
pub decimal-Lacks : (c : ℕ) (v : ℤ) → c < 45 → Lacks c (decimal v)
unfolding decimal
decimal-Lacks c (pos n) h =
    All-weaken (λ x. 48 ≤ x) (λ x. x ≢ c) (digits 10 n) (λ x ge e. omega arith)
      (digits-at_least 10 n)
decimal-Lacks c (negsuc n) h = (
  (λ e. omega arith),
  All-weaken (λ x. 48 ≤ x) (λ x. x ≢ c) (digits 10 (suc n)) (λ x ge e. omega arith)
      (digits-at_least 10 (suc n)),
)

-- The speeds that have room in seven characters with the zero byte: -99999 to 999999.
abbrev pub Fits : ℤ → Type 0
Fits (pos n) = n < 1000000
Fits (negsuc n) = suc n < 100000

abbrev pub IsInt : ℤ → Type 0
IsInt (pos n) = n < 2 ^ 31
IsInt (negsuc n) = n < 2 ^ 31

-- `_itoa_s` into seven characters succeeds on those speeds.
pub itoa_s-Fits : (v : ℤ) → Fits v → itoa_s v 7 ≡ some (decimal v)
unfolding itoa_s
itoa_s-Fits (pos n) h = ground (arith, length-digits 10 5 n h)
itoa_s-Fits (negsuc n) h = ground (arith, length-digits 10 4 (suc n) h)

pub itoa_s-refuses : (v : ℤ) → IsInt v → ¬ Fits v → itoa_s v 7 ≡ none
unfolding itoa_s
itoa_s-refuses (pos n) i h = ground (arith, length-digits_lower 10 6 n)
itoa_s-refuses (negsuc n) i h = ground (arith, length-digits_lower 10 5 (suc n))

-- The integer that a text of an optional minus sign and digits stands for.
abbrev pub minus : ℕ → ℤ
minus zero = pos 0
minus (suc n) = negsuc n

abbrev pub read_decimal : List ℕ → ℤ
read_decimal [] = pos 0
read_decimal (c ∷ s) = if c == 45 then minus (value_from 0 s) else pos (value_from 0 (c ∷ s))

read_decimal_digits :
    (s : List ℕ) (n : ℕ) → All (λ x. 48 ≤ x) s → value_from 0 s ≡ n → read_decimal s ≡ pos n
read_decimal_digits [] n h e = ground arith
read_decimal_digits (c ∷ s) n h e = ground (arith, h.0)

pub read_decimal-decimal : (v : ℤ) → IsInt v → read_decimal (decimal v) ≡ v
unfolding decimal
read_decimal-decimal (pos n) h =
    read_decimal_digits (digits 10 n) n (digits-at_least 10 n)
      (value_from-digits 10 n (omega arith))
read_decimal-decimal (negsuc n) h = ground (arith, value_from-digits 10 (suc n) (omega arith))

-- Where _itoa_s takes an int, for a buffer of any size, the text that it makes reads back as that
-- int.
pub read_decimal-itoa_s :
    (v : ℤ) (size : ℕ) (text : List ℕ) → IsInt v → itoa_s v size ≡ some text → read_decimal text ≡ v
unfolding itoa_s
read_decimal-itoa_s v size text h e = ground (arith, read_decimal-decimal v h)
