-- ===== src/Checker/Blocks.antt =====
-- The thread `checkUpdate` of MyoChecker/app/src/main/java/com/myoprj/myochecker/MainActivity.java takes
-- 25 bytes for a message. The section MAIN of MyoNucMotor/MyoNucMotor/main.cpp sends such messages.
use myodesignproject.Base.{
  ℕ, zero, suc, ◌≤◌, ◌≡◌, refl, sym, ◌∙◌, ap, Bool, true, some, List, [], ◌∷◌, ◌++◌, append-nil,
  arith, length, take, drop, take-append, All, leb,
}
use myodesignproject.Sensor.{Sensor, serialize}
use myodesignproject.Sensor.WireFormat.{Wire, IsWire}
use myodesignproject.Sensor.Stream.{HasFloats, stream}
use myodesignproject.Text.{overwrite}
use myodesignproject.Sensor.Size.{length-serialize}
use myodesignproject.Controller.Repeats.{IsFull, IsFull-size}
use myodesignproject.Checker.Input.{JavaWire, IsJavaWire}
use myodesignproject.Checker.{DataSensor, Read, stored, fill_str, check_round, check_update}
use myodesignproject.Checker.Parse.{shown_of, parse_from-serialize}

-- Reads that each get the next 25 bytes.
abbrev pub reads_of : ℕ → List ℕ → List Read
reads_of zero bytes = []
reads_of (suc n) bytes = stored (take 25 bytes) ∷ reads_of n (drop 25 bytes)

pub record Complete (m : Sensor) : Type 0 where
  pub full : IsFull m
  pub floats : HasFloats m

drop-append : (xs ys : List ℕ) → drop (length xs) (xs ++ ys) ≡ ys
drop-append [] ys = refl
drop-append (x ∷ xs) ys = drop-append xs ys

drop-all : (n : ℕ) (xs : List ℕ) → length xs ≤ n → drop n xs ≡ []
drop-all zero [] h = refl
drop-all (suc n) [] h = refl
drop-all zero (x ∷ xs) h = absurd (omega (arith, h))
drop-all (suc n) (x ∷ xs) h = drop-all n xs (omega (arith, h))

-- An array that is filled holds just the bytes.
filled : (bytes str : List ℕ) → length bytes ≡ length str → fill_str (stored bytes) str ≡ some bytes
unfolding fill_str overwrite
filled bytes str e =
    let all : drop (length bytes) str ≡ [] = drop-all (length bytes) str (omega (arith, e)) in
    let fits : leb (length bytes) (length str) ≡ true = ground (arith, e) in
    rw (fits, all, append-nil bytes) refl

module _ {w : Wire} (lawful : IsWire w) {j : JavaWire} (java : IsJavaWire j) where
  abbrev pub shown_all : List Sensor → List DataSensor
  shown_all [] = []
  shown_all (m ∷ ms) = shown_of lawful java m ∷ shown_all ms

  frame_size : (m : Sensor) → Complete m → length (serialize w m []) ≡ 25
  frame_size m c = length-serialize lawful m ∙ IsFull-size c.full

  check_frame :
      (m : Sensor) (str : List ℕ)
      → Complete m
      → length str ≡ 25
      → check_round j (stored (serialize w m [])) str
        ≡ some (serialize w m [], shown_of lawful java m)
  unfolding check_round
  check_frame m str c h =
      let put = filled (serialize w m []) str (frame_size m c ∙ sym h) in
      rw (put, check_round, parse_from-serialize lawful java m c.floats) refl

  first_block :
      (m : Sensor) (rest : List ℕ)
      → Complete m
      → (take 25 (serialize w m [] ++ rest) ≡ serialize w m [])
        × (drop 25 (serialize w m [] ++ rest) ≡ rest)
  first_block m rest c =
      let size = frame_size m c in
      let bytes = serialize w m [] in
      (
        ap (λ n. take n (bytes ++ rest)) (sym size) ∙ take-append bytes rest,
        ap (λ n. drop n (bytes ++ rest)) (sym size) ∙ drop-append bytes rest,
      )

  check_next :
      (r : Read) (rs : List Read) (str str' : List ℕ) (s : DataSensor)
      → check_round j r str ≡ some (str', s)
      → check_update j (r ∷ rs) str ≡ (s ∷ (check_update j rs str').0, (check_update j rs str').1)
  unfolding check_update
  check_next r rs str str' s e = rw (e, check_update) refl

  first_read :
      (m : Sensor) (n : ℕ) (rest : List ℕ)
      → Complete m
      → reads_of (suc n) (serialize w m [] ++ rest) ≡ stored (serialize w m []) ∷ reads_of n rest
  first_read m n rest c =
      let (first, next) = first_block m rest c in
      ap (λ (b : List ℕ). stored b ∷ reads_of n (drop 25 (serialize w m [] ++ rest))) first
      ∙ ap (λ (b : List ℕ). stored (serialize w m []) ∷ reads_of n b) next

  -- Reads that each get the next 25 bytes of a stream of such messages show each of them.
  pub check_update-stream :
      (ms : List Sensor) (str : List ℕ)
      → All Complete ms
      → length str ≡ 25
      → check_update j (reads_of (length ms) (stream w ms)) str ≡ (shown_all ms, true)
  unfolding check_update
  check_update-stream [] str c h = refl
  check_update-stream (m ∷ ms) str c h =
      let bytes = serialize w m [] in
      let rest = check_update-stream ms bytes c.1 (frame_size m c.0) in
      let reads = reads_of (length ms) (stream w ms) in
      ap (λ (rs : List Read). check_update j rs str) (first_read m (length ms) (stream w ms) c.0)
      ∙ check_next (stored bytes) reads str bytes (shown_of lawful java m) (check_frame m str c.0 h)
      ∙ ap (λ (p : List DataSensor × Bool). (shown_of lawful java m ∷ p.0, p.1)) rest
