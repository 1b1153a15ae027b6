-- ===== src/Serial/Echo.antt =====
-- The program MyoNucMotor/MyoNucMotor/SerialPortTest.cpp (MyoWin/MyoWin/SerialPortTest.cpp is the
-- same): it reads a word from the console into `buff`, reads the port into the same array, and prints
-- the array. Its calls of `Open` and `Write` are comments, so that the port stays closed. What the
-- user types in a round is a word, as `scanf("%s")` takes it.
use myodesignproject.Base.{
  ℕ, suc, ◌<◌, ◌≡◌, refl, ◌∙◌, ap, none, some, List, [], ◌∷◌, ◌++◌, arith, length, drop,
  length-append, length-drop, append_assoc,
}
use myodesignproject.Base.Int.{ℤ, negsuc}
use myodesignproject.Text.{overwrite}
use myodesignproject.Text.Laws.{Lacks, c_string-append}
use myodesignproject.Command.{decimal}
use myodesignproject.Rounds.{Result, ok, overrun, unterminated, ◌>>=◌, or_stop, as_text, rounds}
use myodesignproject.Serial.Win32.{Win32 as Api}
use myodesignproject.Serial.{closed, read, set_timeout}

-- The array, and the state of the operating system.
pub record Test (W : Type 0) : Type 0 where
  pub buff : List ℕ
  pub system : W

-- "READ: ", the text, " (", the count, ")".
abbrev pub report : List ℕ → ℤ → List ℕ
report text n =
    (82 ∷ 69 ∷ 65 ∷ 68 ∷ 58 ∷ 32 ∷ []) ++ (text ++ ((32 ∷ 40 ∷ []) ++ (decimal n ++ 41 ∷ [])))

module _ {W : Type 0} (api : Api W) where
  -- One round of the loop: `scanf` does not know the size of the array.
  unfoldable pub echo_round : List ℕ → Test W → Result (Test W × List ℕ)
  echo_round word t = do
    typed ← or_stop overrun (overwrite (word ++ 0 ∷ []) t.buff)
    n ← as_text typed
    let ((count, bytes), system) = read api 1024 closed t.system
    b ← or_stop overrun (overwrite bytes typed)
    text ← as_text b
    ok (record { buff = b; system = system }, report text count)

  -- The program after its declarations: SetTimeout on the closed port, then the loop.
  unfoldable pub echo_main : List (List ℕ) → List ℕ → W → Result (Test W × List (List ℕ))
  echo_main words buff w =
      let (answer, system) = set_timeout api 10 10 1 closed w in
      rounds echo_round words (record { buff = buff; system = system })

-- A call that reads without a handle fails.
abbrev pub FailsClosed : {W : Type 0} → Api W → Type 0
FailsClosed {W} api = (max : ℕ) (w : W) → (w' : W) × (api.read_file none max w ≡ (none, w'))

-- "READ: ", the word, " (-1)"
abbrev pub echo : List ℕ → List ℕ
echo word = 82 ∷ 69 ∷ 65 ∷ 68 ∷ 58 ∷ 32 ∷ word ++ 32 ∷ 40 ∷ 45 ∷ 49 ∷ 41 ∷ []

report-echo : (word : List ℕ) → report word (negsuc 0) ≡ echo word
unfolding decimal
report-echo word = refl

-- What the user sees if nothing is ever read.
abbrev pub echoes : List (List ℕ) → List (List ℕ)
echoes [] = []
echoes (word ∷ words) = echo word ∷ echoes words

module _ {W : Type 0} (api : Api W) (fails : FailsClosed api) (size : ℕ) where
  -- The words have room in the array with their zero bytes.
  abbrev pub Short : List (List ℕ) → Type 0
  Short [] = Unit
  Short (word ∷ words) = (length word < size) × Lacks 0 word × Short words

  read-closed : (w : W) → (w' : W) × (read api 1024 closed w ≡ ((negsuc 0, []), w'))
  unfolding read
  read-closed w = let (w', e) = fails 1024 w in (w', rw e)

  typed_word :
      (word buff : List ℕ)
      → length word < length buff
      → overwrite (word ++ 0 ∷ []) buff ≡ some (word ++ 0 ∷ drop (suc (length word)) buff)
  unfolding overwrite
  typed_word word buff fits = ground (
    arith,
    length-append word (0 ∷ []),
    append_assoc word (0 ∷ []) (drop (suc (length word)) buff),
  )

  typed_length :
      (word buff : List ℕ)
      → length word < length buff
      → length (word ++ 0 ∷ drop (suc (length word)) buff) ≡ length buff
  typed_length word buff fits = ground (
    arith,
    length-append word (0 ∷ drop (suc (length word)) buff),
    length-drop (suc (length word)) buff,
  )

  nothing_stored : (array : List ℕ) → overwrite [] array ≡ some array
  unfolding overwrite
  nothing_stored array = ground arith

  text_of_word : (word rest : List ℕ) → Lacks 0 word → as_text (word ++ 0 ∷ rest) ≡ ok word
  unfolding as_text
  text_of_word word rest lacks = ap (or_stop unterminated) (c_string-append word rest lacks)

  echo_word :
      (word : List ℕ) (t : Test W)
      → length t.buff ≡ size
      → length word < size
      → Lacks 0 word
      → (t' : Test W) × (echo_round api word t ≡ ok (t', echo word)) × (length t'.buff ≡ size)
  unfolding echo_round
  echo_word word t sized fits lacks =
      let room : length word < length t.buff = omega (arith, sized) in
      let rest = drop (suc (length word)) t.buff in
      let (w', e) = read-closed t.system in
      (
        record { buff = word ++ 0 ∷ rest; system = w' },
        rw (
          typed_word word t.buff room,
          text_of_word word rest lacks,
          e,
          echo_round,
          nothing_stored (word ++ 0 ∷ rest),
          text_of_word word rest lacks,
          report-echo word,
        ),
        typed_length word t.buff room ∙ sized,
      )

  echo_words :
      (words : List (List ℕ)) (t : Test W)
      → length t.buff ≡ size
      → Short words
      → (t' : Test W) × (rounds (echo_round api) words t ≡ ok (t', echoes words))
  unfolding rounds
  echo_words [] t sized h = (t, refl)
  echo_words (word ∷ words) t sized h =
      let (t1, e, sized') = echo_word word t sized h.0 h.1 in
      let (t2, e') = echo_words words t1 sized' h.2 in (t2, rw (e, rounds, e'))

  -- On a system whose reads without a handle fail, for an array of any size and words without a
  -- zero byte that fit into it with one: the program SerialPortTest never stops, and shows for
  -- each word the word itself with the count -1, as it opens no port.
  pub echo_main-echoes :
      (words : List (List ℕ)) (buff : List ℕ) (w : W)
      → length buff ≡ size
      → Short words
      → (t : Test W) × (echo_main api words buff w ≡ ok (t, echoes words))
  unfolding echo_main
  echo_main-echoes words buff w sized h = echo_words words _ sized h
