-- ===== src/Checker/Input.antt =====
-- What Data.java (MyoChecker/app/src/main/java/com/myoprj/myochecker) calls of the protocol buffer
-- library for Java, as a record of functions on the bytes that are still to be read, and the documented
-- behaviour of it that the proofs rely on. `none` is an exception.
use myodesignproject.Base.{
  ℕ, ◌^◌, ◌≤◌, ◌<◌, ◌≡◌, ◌≢◌, Bool, true, Option, none, some, List, [], ◌∷◌, ◌++◌, length,
}
use myodesignproject.Sensor.WireFormat.{fixed32}

pub record JavaWire : Type 0 where
  -- CodedInputStream.readTag: the tag, or 0 at the end of the input, and the rest
  pub read_tag : List ℕ → Option (ℕ × List ℕ)
  -- CodedInputStream.readFloat
  pub read_float : List ℕ → Option (ℕ × List ℕ)
  -- CodedInputStream.skipField: its answer, and the rest
  pub skip_field : ℕ → List ℕ → Option (Bool × List ℕ)
  -- whether Parser.parseFrom accepts a message that ended with this tag
  pub accepts : ℕ → Bool

-- "If the end of the stream has been reached, returns 0"; a tag that is 0 itself is refused.
pub record IsJavaWire (j : JavaWire) : Type 0 where
  pub read_tag_end : j.read_tag [] ≡ some (0, [])
  pub read_tag_small :
      (t : ℕ) (rest : List ℕ) → 8 ≤ t → t < 128 → j.read_tag (t ∷ rest) ≡ some (t, rest)
  pub read_tag_zero : (rest : List ℕ) → j.read_tag (0 ∷ rest) ≡ none
  pub read_tag_shrinks :
      (input : List ℕ) (t : ℕ) (rest : List ℕ)
      → j.read_tag input ≡ some (t, rest)
      → t ≢ 0
      → length rest < length input
  pub read_float_lem :
      (v : ℕ) (rest : List ℕ) → v < 2 ^ 32 → j.read_float (fixed32 v ++ rest) ≡ some (v, rest)
  pub read_float_shrinks :
      (input : List ℕ) (v : ℕ) (rest : List ℕ)
      → j.read_float input ≡ some (v, rest)
      → length rest ≤ length input
  pub skip_field_shrinks :
      (t : ℕ) (input : List ℕ) (known : Bool) (rest : List ℕ)
      → j.skip_field t input ≡ some (known, rest)
      → length rest ≤ length input
  pub accepts_end : j.accepts 0 ≡ true
