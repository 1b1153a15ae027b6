-- ===== src/Collector/Print.antt =====
-- The line that DataCollector::print writes (MyoNucMotor/MyoNucMotor/DataCollector.cpp, and the same
-- code in MyoWin/MyoWin/DataCollector.cpp). The position that it scales is not used.
use myodesignproject.Base.{ℕ, ◌≡◌, refl, sym, ◌∙◌, ap, List, [], ◌∷◌, ◌++◌, arith, drop}
use myodesignproject.Base.Int.{ℤ}
use myodesignproject.Text.Laws.{Lacks}
use myodesignproject.Command.{decimal}
use myodesignproject.Command.Digits.{IsInt, decimal-Lacks, read_decimal, read_decimal-decimal}
use myodesignproject.Collector.Sdk.{Sdk}
use myodesignproject.Collector.{Zone, up, down, mid, Collector}

abbrev pub tab : ℕ
tab = 9

-- "Up", "Down" and "Mid".
abbrev pub zone_text : Zone → List ℕ
zone_text up = 85 ∷ 112 ∷ []
zone_text down = 68 ∷ 111 ∷ 119 ∷ 110 ∷ []
zone_text mid = 77 ∷ 105 ∷ 100 ∷ []

-- The angle and the speed are shown in the middle only.
abbrev pub numbers_text : Zone → ℤ → ℤ → List ℕ
numbers_text mid theta speed = tab ∷ (decimal theta ++ tab ∷ (decimal speed ++ tab ∷ []))
numbers_text up theta speed = tab ∷ tab ∷ tab ∷ tab ∷ []
numbers_text down theta speed = tab ∷ tab ∷ tab ∷ tab ∷ []

module _ (sdk : Sdk) where
  unfoldable pub print : Collector sdk → List ℕ
  print c = 13 ∷ (zone_text c.zone ++ numbers_text c.zone (sdk.to_int c.theta) (sdk.to_int c.speed))

-- A text up to its first `c` and the text behind it are known from the whole.
cut_unique :
    (c : ℕ) (s s' t t' : List ℕ)
    → Lacks c s
    → Lacks c s'
    → s ++ c ∷ t ≡ s' ++ c ∷ t'
    → (s ≡ s') × (t ≡ t')
cut_unique c [] [] t t' h h' e = (refl, ground (arith))
cut_unique c [] (y ∷ s') t t' h h' e = ground (arith, h'.0)
cut_unique c (x ∷ s) [] t t' h h' e = ground (arith, h.0)
cut_unique c (x ∷ s) (y ∷ s') t t' h h' e =
    let tails : s ++ c ∷ t ≡ s' ++ c ∷ t' = ground arith in
    let heads : x ≡ y = ground arith in
    let (p, q) = cut_unique c s s' t t' h.1 h'.1 tails in (rw (p, heads) refl, q)

decimal_unique : (v v' : ℤ) → IsInt v → IsInt v' → decimal v ≡ decimal v' → v ≡ v'
decimal_unique v v' h h' e =
    sym (read_decimal-decimal v h) ∙ ap read_decimal e ∙ read_decimal-decimal v' h'

-- What a line shows of a listener.
abbrev pub SameNumbers : Zone → ℤ → ℤ → ℤ → ℤ → Type 0
SameNumbers mid theta theta' speed speed' = (theta ≡ theta') × (speed ≡ speed')
SameNumbers up theta theta' speed speed' = Unit
SameNumbers down theta theta' speed speed' = Unit

module _ (theta theta' speed speed' : ℤ) (h1 : IsInt theta) (h2 : IsInt theta') (h3 : IsInt speed)
    (h4 : IsInt speed') where
  numbers_unique :
      numbers_text mid theta speed ≡ numbers_text mid theta' speed'
      → (theta ≡ theta') × (speed ≡ speed')
  numbers_unique e =
      let (p, rest) =
        cut_unique tab (decimal theta) (decimal theta') (decimal speed ++ tab ∷ [])
          (decimal speed' ++ tab ∷ []) (decimal-Lacks tab theta (omega arith))
          (decimal-Lacks tab theta' (omega arith)) (ap (drop 1) e) in
      let (q, _) =
        cut_unique tab (decimal speed) (decimal speed') [] []
          (decimal-Lacks tab speed (omega arith)) (decimal-Lacks tab speed' (omega arith)) rest in
      (decimal_unique theta theta' h1 h2 p, decimal_unique speed speed' h3 h4 q)

  by_zone :
      (y z : Zone)
      → zone_text y ++ numbers_text y theta speed ≡ zone_text z ++ numbers_text z theta' speed'
      → (y ≡ z) × SameNumbers y theta theta' speed speed'
  by_zone up up e = (refl, tt)
  by_zone down down e = (refl, tt)
  by_zone mid mid e = (refl, numbers_unique (ap (drop 3) e))
  by_zone up down e = ground arith
  by_zone up mid e = ground arith
  by_zone down up e = ground arith
  by_zone down mid e = ground arith
  by_zone mid up e = ground arith
  by_zone mid down e = ground arith

-- Where the angle and the speed of two listeners are ints once their fractions are cut off: if
-- print writes the same line for both, their zones are the same, and in the zone Mid so are these
-- angles and speeds.
pub print_unique :
    (sdk : Sdk) (c d : Collector sdk)
    → IsInt (sdk.to_int c.theta)
    → IsInt (sdk.to_int d.theta)
    → IsInt (sdk.to_int c.speed)
    → IsInt (sdk.to_int d.speed)
    → print sdk c ≡ print sdk d
    → (c.zone ≡ d.zone)
      × SameNumbers c.zone
          (sdk.to_int c.theta)
          (sdk.to_int d.theta)
          (sdk.to_int c.speed)
          (sdk.to_int d.speed)
unfolding print
print_unique sdk c d h1 h2 h3 h4 e =
    by_zone (sdk.to_int c.theta) (sdk.to_int d.theta) (sdk.to_int c.speed) (sdk.to_int d.speed) h1
      h2 h3 h4 c.zone d.zone (ap (drop 1) e)
