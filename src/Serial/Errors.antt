-- ===== src/Serial/Errors.antt =====
-- CSerialPort::GetLastErrorString (NUCServer/NUCServer/SerialPort.cpp), which the methods call on an
-- error: the text of the error, in an array that all calls share. `format_message` stands for
-- FormatMessage: by the size that it is given and the code of the error, the text, or `none` where it
-- fails and stores nothing. A text that it stores has room in that size with its zero byte.
use myodesignproject.Base.{
  ℕ, suc, ◌<◌, ◌≤◌, ◌≡◌, refl, ◌∙◌, ap, Option, none, some, List, [], ◌∷◌, ◌++◌, arith, length,
  drop, length-append, length-drop, append_assoc,
}
use myodesignproject.Text.{c_string, overwrite}
use myodesignproject.Text.Laws.{Lacks, c_string-append}
use myodesignproject.Rounds.{Result, ok, overrun, unterminated, ◌>>=◌, or_stop, as_text, rounds}

-- FormatMessage into the array: the text and its zero byte.
abbrev pub formatted : Option (List ℕ) → List ℕ → Result (List ℕ)
formatted none last_error = ok last_error
formatted (some text) last_error = or_stop overrun (overwrite (text ++ 0 ∷ []) last_error)

-- The array after FormatMessage has answered, and the text that is printed and returned.
abbrev pub with_answer : Option (List ℕ) → List ℕ → Result (List ℕ × List ℕ)
with_answer answer last_error = do
  array ← formatted answer last_error
  text ← as_text array
  ok (array, text)

unfoldable pub get_last_error_string :
    (ℕ → ℕ → Option (List ℕ)) → ℕ → List ℕ → Result (List ℕ × List ℕ)
get_last_error_string format_message code last_error =
    with_answer (format_message 1024 code) last_error

-- The text that an error shows, if the one before it showed `shown`.
abbrev pub latest : Option (List ℕ) → List ℕ → List ℕ
latest none shown = shown
latest (some text) shown = text

abbrev pub text_of : (ℕ → ℕ → Option (List ℕ)) → List ℕ → ℕ → List ℕ
text_of format_message shown code = latest (format_message 1024 code) shown

-- The texts of errors in turn, the first of them after `shown`.
abbrev pub texts_of : (ℕ → ℕ → Option (List ℕ)) → List ℕ → List ℕ → List (List ℕ)
texts_of format_message shown [] = []
texts_of format_message shown (code ∷ codes) =
    let text = text_of format_message shown code in text ∷ texts_of format_message text codes

-- The array holds a text.
pub record Holds (size : ℕ) (shown array : List ℕ) : Type 0 where
  pub sized : length array ≡ size
  pub reads : c_string array ≡ some shown

module _ (format_message : ℕ → ℕ → Option (List ℕ)) (size : ℕ) (room : 1024 ≤ size)
    (short : (n code : ℕ) (text : List ℕ) → format_message n code ≡ some text → length text < n)
    (clean : (n code : ℕ) (text : List ℕ) → format_message n code ≡ some text → Lacks 0 text) where
  stored :
      (text array : List ℕ)
      → length text < length array
      → Lacks 0 text
      → (b : List ℕ) × (formatted (some text) array ≡ ok b)
        × (c_string b ≡ some text)
        × (length b ≡ length array)
  unfolding overwrite
  stored text array fits lacks = (
    text ++ 0 ∷ drop (suc (length text)) array,
    ground (
      arith,
      length-append text (0 ∷ []),
      append_assoc text (0 ∷ []) (drop (suc (length text)) array),
    ),
    c_string-append text _ lacks,
    ground (
      arith,
      length-append text (0 ∷ drop (suc (length text)) array),
      length-drop (suc (length text)) array,
    ),
  )

  text_read : (b : List ℕ) {t : List ℕ} → c_string b ≡ some t → as_text b ≡ ok t
  unfolding as_text
  text_read b e = ap (or_stop unterminated) e

  step_by :
      (o : Option (List ℕ)) (shown array : List ℕ)
      → ((text : List ℕ) → o ≡ some text → (length text < size) × Lacks 0 text)
      → Holds size shown array
      → (b : List ℕ) × (with_answer o array ≡ ok (b, latest o shown))
        × Holds size (latest o shown) b
  step_by none shown array fits h = (array, rw (text_read array h.reads), h)
  step_by (some text) shown array fits h =
      let (b, put, reads, sized) =
        stored text array (omega (arith, h.sized, (fits text refl).0)) (fits text refl).1 in
      (b, rw (put, text_read b reads), record { sized = sized ∙ h.sized; reads = reads })

  step :
      (code : ℕ) (shown array : List ℕ)
      → Holds size shown array
      → (b : List ℕ) × (get_last_error_string format_message code array
          ≡ ok (b, text_of format_message shown code))
        × Holds size (text_of format_message shown code) b
  unfolding get_last_error_string
  step code shown array h =
      step_by (format_message 1024 code) shown array
        (λ text e. (omega (arith, short 1024 code text e, room), clean 1024 code text e)) h

  -- Where FormatMessage stores only texts that have room in the size that it is given with their
  -- zero byte, and that have no zero byte in them, and the array has 1024 characters or more and
  -- holds a text: over any sequence of errors GetLastErrorString never leaves its array, and shows
  -- the text of each error, or the text that was shown before where FormatMessage fails.
  pub error_texts :
      (codes shown array : List ℕ)
      → Holds size shown array
      → (b : List ℕ) × (rounds (get_last_error_string format_message) codes array
          ≡ ok (b, texts_of format_message shown codes))
  unfolding rounds
  error_texts [] shown array h = (array, refl)
  error_texts (code ∷ codes) shown array h =
      let (b, e, h') = step code shown array h in
      let (b', e') = error_texts codes (text_of format_message shown code) b h' in
      (b', rw (e, rounds, e'))
