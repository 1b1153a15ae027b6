-- ===== src/Sensor/WireFormat.antt =====
-- What data.pb.cc calls of the protocol buffer library (install/include/google/protobuf), as a
-- record of functions on the bytes that are still to be read, and the documented behaviour of it
-- that the proofs rely on.
use myodesignproject.Base.{
  ℕ, ◌+◌, ◌*◌, ◌/◌, ◌%◌, ◌^◌, ◌≤◌, ◌<◌, ◌≡◌, ◌≢◌, Bool, true, Option, some, List, [], ◌∷◌, ◌++◌,
  length,
}

pub record Wire : Type 0 where
  -- WireFormatLite::WriteFloat and WriteFloatToArray: the bytes of a field number and a value
  pub write_float : ℕ → ℕ → List ℕ
  -- WireFormatLite::GetTagFieldNumber and GetTagWireType
  pub field_number : ℕ → ℕ
  pub wire_type : ℕ → ℕ
  -- CodedInputStream::ReadTagWithCutoff(127): the tag, whether it is at most 127, and the rest
  pub read_tag : List ℕ → (ℕ × Bool) × List ℕ
  -- CodedInputStream::ExpectTag: the rest behind the tag if it answers true
  pub expect_tag : ℕ → List ℕ → Option (List ℕ)
  -- CodedInputStream::ExpectAtEnd
  pub expect_at_end : List ℕ → Bool
  -- WireFormatLite::ReadPrimitive<float, TYPE_FLOAT>
  pub read_float : List ℕ → Option (ℕ × List ℕ)
  -- WireFormatLite::SkipField
  pub skip_field : ℕ → List ℕ → Option (List ℕ)

-- A float on the wire: four bytes, the lowest first.
unfoldable pub fixed32 : ℕ → List ℕ
fixed32 v = v % 256 ∷ v / 256 % 256 ∷ v / 65536 % 256 ∷ v / 16777216 % 256 ∷ []

-- `ExpectTag` and `ExpectAtEnd` may answer false where true would be right ("usually returns true",
-- io/coded_stream.h): only their positive answers are relied on.
pub record IsWire (w : Wire) : Type 0 where
  pub write_float_lem : (k v : ℕ) → 1 ≤ k → k ≤ 15 → w.write_float k v ≡ (8 * k + 5) ∷ fixed32 v
  pub field_number_lem : (t : ℕ) → w.field_number t ≡ t / 8
  pub wire_type_lem : (t : ℕ) → w.wire_type t ≡ t % 8
  pub read_tag_end : (w.read_tag []).0.0 ≡ 0
  pub read_tag_small :
      (t : ℕ) (rest : List ℕ) → 1 ≤ t → t < 128 → w.read_tag (t ∷ rest) ≡ ((t, true), rest)
  pub read_tag_shrinks :
      (input : List ℕ) → (w.read_tag input).0.0 ≢ 0 → length (w.read_tag input).1 < length input
  pub expect_tag_sound :
      (t : ℕ) (input rest : List ℕ)
      → 1 ≤ t
      → t < 128
      → w.expect_tag t input ≡ some rest
      → w.read_tag input ≡ ((t, true), rest)
  pub expect_at_end_sound : (input : List ℕ) → w.expect_at_end input ≡ true → input ≡ []
  pub read_float_lem :
      (v : ℕ) (rest : List ℕ) → v < 2 ^ 32 → w.read_float (fixed32 v ++ rest) ≡ some (v, rest)
  pub read_float_shrinks :
      (input : List ℕ) (v : ℕ) (rest : List ℕ)
      → w.read_float input ≡ some (v, rest)
      → length rest < length input
  pub skip_field_shrinks :
      (t : ℕ) (input rest : List ℕ) → w.skip_field t input ≡ some rest → length rest ≤ length input
