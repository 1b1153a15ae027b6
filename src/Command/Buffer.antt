-- ===== src/Command/Buffer.antt =====
-- The command in the character array `buff` (MyoNucMotor/MyoNucMotor/main.cpp).
use myodesignproject.Base.{
  refl, ℕ, suc, ◌≤◌, ◌<◌, ◌≡◌, ◌≢◌, ◌∙◌, Option, none, some, List, [], ◌∷◌, ◌++◌, arith, length,
  drop, length-append, length-drop, append_assoc,
}
use myodesignproject.Base.Int.{ℤ, pos, negsuc}
use myodesignproject.Text.{c_string}
use myodesignproject.Text.Laws.{overwrite-length, Lacks, c_string-append}
use myodesignproject.Command.{decimal, itoa_s, strcpy_s, strcat_s, cat_to, put_command, ◌>>=◌}
use myodesignproject.Command.Digits.{
  Fits, IsInt, itoa_s-Fits, itoa_s-refuses, decimal-Lacks, All-append, length-digits,
}

-- An array that begins with a text and its zero byte.
abbrev holding : List ℕ → List ℕ → List ℕ
holding text array = text ++ 0 ∷ drop (suc (length text)) array

strcpy_s-holding :
    (text array : List ℕ)
    → length text < length array
    → strcpy_s text array ≡ some (holding text array)
unfolding strcpy_s
strcpy_s-holding text array h = ground (
  arith,
  length-append text (0 ∷ []),
  append_assoc text (0 ∷ []) (drop (suc (length text)) array),
)

length-holding :
    (text array : List ℕ) → length text < length array → length (holding text array) ≡ length array
length-holding text array h = ground (
  arith,
  length-append text (0 ∷ drop (suc (length text)) array),
  length-drop (suc (length text)) array,
)

strcat_s-holding :
    (text more array : List ℕ)
    → Lacks 0 text
    → length text < length array
    → length (text ++ more) < length array
    → strcat_s more (holding text array) ≡ some (holding (text ++ more) (holding text array))
unfolding strcat_s
strcat_s-holding text more array clean h fits =
    rw (c_string-append text (drop (suc (length text)) array) clean, strcat_s)
      (strcpy_s-holding (text ++ more) (holding text array)
        (omega (arith, length-holding text array h)))

-- The bytes of a command.
abbrev pub command_text : ℤ → List ℕ
command_text v = ((115 ∷ 108 ∷ []) ++ decimal v) ++ 102 ∷ []

length-decimal : (v : ℤ) → Fits v → length (decimal v) ≤ 6
unfolding decimal
length-decimal (pos n) h = length-digits 10 5 n h
length-decimal (negsuc n) h = omega (arith, length-digits 10 4 (suc n) h)

prefix-Lacks : (c : ℕ) (v : ℤ) → c < 45 → Lacks c ((115 ∷ 108 ∷ []) ++ decimal v)
prefix-Lacks c v h = ((λ e. omega arith), ((λ e. omega arith), decimal-Lacks c v h))

pub command_text-Lacks : (c : ℕ) (v : ℤ) → c < 45 → Lacks c (command_text v)
command_text-Lacks c v h =
    All-append (λ x. x ≢ c) ((115 ∷ 108 ∷ []) ++ decimal v) (102 ∷ []) (prefix-Lacks c v h)
      ((λ e. omega arith), tt)

bind_some :
    {m : Option (List ℕ)} {a : List ℕ} (f : List ℕ → Option (List ℕ)) {r : Option (List ℕ)}
    → m ≡ some a
    → f a ≡ r
    → (m >>= f) ≡ r
bind_some f e e' = rw e e'

module _ (v : ℤ) (buff : List ℕ) (fits : Fits v) (room : 10 ≤ length buff) where
  abbrev with_prefix : List ℕ
  with_prefix = holding (115 ∷ 108 ∷ []) buff

  abbrev with_speed : List ℕ
  with_speed = holding ((115 ∷ 108 ∷ []) ++ decimal v) with_prefix

  length-with_prefix : length with_prefix ≡ length buff
  length-with_prefix = length-holding (115 ∷ 108 ∷ []) buff (omega arith)

  speed_room : length ((115 ∷ 108 ∷ []) ++ decimal v) < length with_prefix
  speed_room = omega (arith, length-with_prefix, length-decimal v fits)

  length-with_speed : length with_speed ≡ length buff
  length-with_speed =
      length-holding ((115 ∷ 108 ∷ []) ++ decimal v) with_prefix speed_room ∙ length-with_prefix

  text_room : length (command_text v) < length with_speed
  text_room = omega (
    arith,
    length-with_speed,
    length-decimal v fits,
    length-append ((115 ∷ 108 ∷ []) ++ decimal v) (102 ∷ []),
  )

  prefix_stored : strcpy_s (115 ∷ 108 ∷ []) buff ≡ some with_prefix
  prefix_stored = strcpy_s-holding (115 ∷ 108 ∷ []) buff (omega arith)

  speed_stored : strcat_s (decimal v) with_prefix ≡ some with_speed
  speed_stored =
      strcat_s-holding (115 ∷ 108 ∷ []) (decimal v) buff
        ((λ e. omega arith), ((λ e. omega arith), tt)) (omega arith)
        (omega (arith, length-decimal v fits))

  end_stored : strcat_s (102 ∷ []) with_speed ≡ some (holding (command_text v) with_speed)
  end_stored =
      strcat_s-holding ((115 ∷ 108 ∷ []) ++ decimal v) (102 ∷ []) with_prefix
        (prefix-Lacks 0 v (omega arith)) speed_room
        (omega (arith, length-with_speed, text_room, length-with_prefix))

  stored : put_command v buff ≡ some (holding (command_text v) with_speed)
  unfolding put_command
  stored = rw (itoa_s-Fits v fits) (bind_some _ prefix_stored (bind_some _ speed_stored end_stored))

  -- A speed from -99999 to 999999 is written whole into an array of ten bytes or more, whose size
  -- stays: read as a text, the array is "sl", the decimal and "f".
  pub put_command_text :
      (b : List ℕ) × (put_command v buff ≡ some b)
      × (c_string b ≡ some (command_text v))
      × (length b ≡ length buff)
  put_command_text = (
    holding (command_text v) with_speed,
    stored,
    c_string-append (command_text v) _ (command_text-Lacks 0 v (omega arith)),
    length-holding (command_text v) with_speed text_room ∙ length-with_speed,
  )

-- An int that is not from -99999 to 999999 is refused by _itoa_s, which ends the program.
pub put_command_refused : (v : ℤ) (buff : List ℕ) → IsInt v → ¬ Fits v → put_command v buff ≡ none
unfolding put_command
put_command_refused v buff i h = rw (itoa_s-refuses v i h)

-- A command that is stored keeps the size of the array, whatever the speed.
strcpy_s-length : (text array b : List ℕ) → strcpy_s text array ≡ some b → length b ≡ length array
unfolding strcpy_s
strcpy_s-length text array b e = overwrite-length (text ++ 0 ∷ []) array e

strcat_s-length : (text array b : List ℕ) → strcat_s text array ≡ some b → length b ≡ length array
unfolding strcat_s
strcat_s-length text array b e = by_text (c_string array) refl e
  where
    by_text :
        (o : Option (List ℕ))
        → c_string array ≡ o
        → cat_to o text array ≡ some b
        → length b ≡ length array
    by_text none q h = cc
    by_text (some old) q h = strcpy_s-length (old ++ text) array b h

bind_from :
    (m : Option (List ℕ)) (f : List ℕ → Option (List ℕ)) (b : List ℕ)
    → (m >>= f) ≡ some b
    → (a : List ℕ) × (m ≡ some a) × (f a ≡ some b)
bind_from none f b e = cc
bind_from (some a) f b e = (a, refl, e)

pub put_command-length :
    (v : ℤ) (buff b : List ℕ) → put_command v buff ≡ some b → length b ≡ length buff
unfolding put_command
put_command-length v buff b e =
    let (speed, e0, k0) = bind_from (itoa_s v 7) _ b e in
    let (b1, e1, k1) = bind_from (strcpy_s (115 ∷ 108 ∷ []) buff) _ b k0 in
    let (b2, e2, k2) = bind_from (strcat_s speed b1) _ b k1 in
    strcat_s-length (102 ∷ []) b2 b k2
    ∙ strcat_s-length speed b1 b2 e2
    ∙ strcpy_s-length (115 ∷ 108 ∷ []) buff b1 e1
