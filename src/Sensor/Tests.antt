-- ===== src/Sensor/Tests.antt =====
-- A concrete wire format, concrete messages, and the theorems of the message at them.
use myodesignproject.Base.{
  ℕ, ◌+◌, ◌*◌, ◌/◌, ◌%◌, ◌^◌, ◌≤◌, ◌<◌, ◌≡◌, ◌≢◌, refl, Bool, true, false, ◌&&◌, Option, none, some,
  List, [], ◌∷◌, length, ltb, ◌==◌, if◌then◌else◌, arith,
}
use myodesignproject.Sensor.{
  Float, Sensor, shared_ctor, serialize, merge_args, is_zero, write_arg, serialize_to_array, store,
  copy_constructor, merge_arg, merge_from, other,
}
use myodesignproject.Sensor.WireFormat.{Wire, IsWire, fixed32}
use myodesignproject.Sensor.Parse.{
  success, stuck, merge_partial, loop, round, dispatch, handle_unusual, parse_arg0,
}
use myodesignproject.Sensor.RoundTrip.{merge_partial-serialize}
use myodesignproject.Sensor.Size.{serialize_to_array-serialize}
use myodesignproject.Sensor.Stream.{HasFloats, stream, latest, merge_partial-stream}
use myodesignproject.Sensor.Operations.{
  sets1, clears2, merges, swaps, copies_message, sensor, foreign, run, merges_message,
}
use myodesignproject.Sensor.Refines.{
  Step, calls, receives, all_calls, values, replace, spec_run, run-refines,
}
use myodesignproject.Sensor.Termination.{merge_partial-ne-stuck}

-- A reader of one-byte tags. It knows four-byte and one-byte fields, which is all that it skips.
abbrev read_one : List ℕ → (ℕ × Bool) × List ℕ
read_one [] = ((0, false), [])
read_one (t ∷ rest) = ((t, ltb 0 t && ltb t 128), rest)

abbrev expect_one : ℕ → List ℕ → Option (List ℕ)
expect_one t [] = none
expect_one t (u ∷ rest) = if t == u then some rest else none

abbrev empty : List ℕ → Bool
empty [] = true
empty (b ∷ rest) = false

abbrev read_four : List ℕ → Option (ℕ × List ℕ)
read_four (a ∷ b ∷ c ∷ d ∷ rest) = some ((a + 256 * b + 65536 * c + 16777216 * d) % 2 ^ 32, rest)
read_four _ = none

abbrev skip_one : ℕ → List ℕ → Option (List ℕ)
skip_one t [] = none
skip_one t (b ∷ rest) = some rest

abbrev pub plain : Wire
plain = record {
  write_float = λ k v. (8 * k + 5) ∷ fixed32 v;
  field_number = λ t. t / 8;
  wire_type = λ t. t % 8;
  read_tag = read_one;
  expect_tag = expect_one;
  expect_at_end = empty;
  read_float = read_four;
  skip_field = skip_one;
}

expect_one_sound :
    (t : ℕ) (input rest : List ℕ)
    → 1 ≤ t
    → t < 128
    → expect_one t input ≡ some rest
    → read_one input ≡ ((t, true), rest)
expect_one_sound t [] rest lo hi e = cc
expect_one_sound t (u ∷ input) rest lo hi e = ground arith

read_four_shrinks :
    (input : List ℕ) (v : ℕ) (rest : List ℕ)
    → read_four input ≡ some (v, rest)
    → length rest < length input
read_four_shrinks (a ∷ b ∷ c ∷ d ∷ input) v rest e = ground arith
read_four_shrinks _ v rest e = cc

pub plain-IsWire : IsWire plain
unfolding fixed32
plain-IsWire = record {
  write_float_lem = λ k v lo hi. refl;
  field_number_lem = λ t. refl;
  wire_type_lem = λ t. refl;
  read_tag_end = refl;
  read_tag_small = λ t rest lo hi. ground arith;
  read_tag_shrinks = elim [ [] ↦ λ h. absurd (h refl) | t ∷ rest ↦ λ h. omega arith ];
  expect_tag_sound = expect_one_sound;
  expect_at_end_sound = elim [ [] ↦ λ e. refl | b ∷ rest ↦ λ e. cc ];
  read_float_lem = λ v rest h. ground arith;
  read_float_shrinks = read_four_shrinks;
  skip_field_shrinks = λ t. elim [ [] ↦ λ rest e. cc | b ∷ input ↦ λ rest e. ground arith ];
}

-- Two arguments are set, to 1.0 and -2.0.
abbrev pub two_args : Sensor
two_args = record shared_ctor { arg1 = 0x3f80_0000; arg4 = 0xc000_0000 }

two_args_bytes : serialize plain two_args [] ≡ 21 ∷ 0 ∷ 0 ∷ 0x80 ∷ 0x3f ∷ 45 ∷ 0 ∷ 0 ∷ 0 ∷ 0xc0 ∷ []
unfolding serialize is_zero write_arg fixed32
two_args_bytes = refl

-- A field of another wire type is skipped, here field 6 with one byte.
skipped :
    merge_partial plain (48 ∷ 7 ∷ 13 ∷ 0 ∷ 0 ∷ 0x80 ∷ 0x3f ∷ []) shared_ctor
    ≡ success (record shared_ctor { arg0 = 0x3f80_0000 })
unfolding merge_partial loop round dispatch handle_unusual parse_arg0
skipped = refl

merge_partial-serialize_example :
    merge_partial plain (serialize plain two_args []) shared_ctor
    ≡ success (merge_args two_args shared_ctor)
merge_partial-serialize_example =
    merge_partial-serialize plain-IsWire two_args (omega arith) (omega arith) (omega arith)
      (omega arith) (omega arith) shared_ctor

merge_partial-ne-stuck_example : merge_partial plain (13 ∷ 1 ∷ []) two_args ≢ stuck
merge_partial-ne-stuck_example = merge_partial-ne-stuck plain-IsWire (13 ∷ 1 ∷ []) two_args

serialize_to_array-serialize_example :
    serialize_to_array plain two_args (record { before = 1 ∷ []; from = 2 ∷ 3 ∷ [] })
    ≡ store (serialize plain two_args []) (record { before = 1 ∷ []; from = 2 ∷ 3 ∷ [] })
serialize_to_array-serialize_example =
    serialize_to_array-serialize plain two_args (record { before = 1 ∷ []; from = 2 ∷ 3 ∷ [] })

-- The arguments are -0, 1.0 and -2.0.
abbrev signed : Sensor
signed = record two_args { arg0 = 0x8000_0000 }

copied : copy_constructor signed ≡ some two_args
unfolding copy_constructor merge_from merge_args merge_arg is_zero
copied = refl

-- All five arguments are the smallest float above 0.
abbrev all_ones : Sensor
all_ones = record shared_ctor { arg0 = 1; arg1 = 1; arg2 = 1; arg3 = 1; arg4 = 1 }

all_ones-HasFloats : HasFloats all_ones
all_ones-HasFloats = record {
  float0 = omega arith;
  float1 = omega arith;
  float2 = omega arith;
  float3 = omega arith;
  float4 = omega arith;
}

-- A message behind another one: its 0 is not on the wire.
abbrev half : Sensor
half = record shared_ctor { arg1 = 2 }

half-HasFloats : HasFloats half
half-HasFloats = record {
  float0 = omega arith;
  float1 = omega arith;
  float2 = omega arith;
  float3 = omega arith;
  float4 = omega arith;
}

merge_partial-stream_example :
    merge_partial plain (stream plain (all_ones ∷ half ∷ [])) shared_ctor
    ≡ success (record shared_ctor {
      arg0 = latest (λ m. m.arg0) (all_ones ∷ half ∷ []) 0;
      arg1 = latest (λ m. m.arg1) (all_ones ∷ half ∷ []) 0;
      arg2 = latest (λ m. m.arg2) (all_ones ∷ half ∷ []) 0;
      arg3 = latest (λ m. m.arg3) (all_ones ∷ half ∷ []) 0;
      arg4 = latest (λ m. m.arg4) (all_ones ∷ half ∷ []) 0;
    })
merge_partial-stream_example =
    merge_partial-stream plain-IsWire (all_ones ∷ half ∷ []) shared_ctor
      (all_ones-HasFloats, (half-HasFloats, tt))

-- Messages of another class that hold one number for arg0.
abbrev merge_number : ℕ → Sensor → Option Sensor
merge_number n s = some (record s { arg0 = n })

abbrev number_values : ℕ → List Float → Option (List Float)
number_values n vs = some (replace 0 n vs)

abbrev steps : List (Step ℕ)
steps =
    calls (sets1 7)
    ∷ calls (merges (other half))
    ∷ calls (merges_message (foreign 5))
    ∷ receives (all_ones ∷ half ∷ [])
    ∷ calls clears2
    ∷ calls (swaps (other all_ones))
    ∷ calls (copies_message (sensor two_args))
    ∷ []

run-refines_example :
    values (run plain merge_number (all_calls plain steps) shared_ctor)
    ≡ spec_run number_values steps (0 ∷ 0 ∷ 0 ∷ 0 ∷ 0 ∷ [])
run-refines_example =
    run-refines plain-IsWire merge_number number_values (λ m s. refl) steps
      (tt, (tt, (tt, ((all_ones-HasFloats, (half-HasFloats, tt)), (tt, (tt, (tt, tt)))))))
