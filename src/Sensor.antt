-- ===== src/Sensor.antt =====
-- The message `Sensor` of NUCServer/NUCServer/data.pb.{h,cc} (MyoNucMotor/MyoNucMotor holds the same
-- two files): five optional floats in proto3, where a field that equals 0 is not on the wire.
-- A float is the bit pattern of an IEEE single, a number below 2 ^ 32, so `arg0() != 0` is a test of
-- two patterns (+0 and -0), and `memset(.., 0, ..)` stores the pattern 0.
-- The metadata pointer, the reflection tables and the arena are not modelled.
pub mod WireFormat
pub mod Parse
pub mod Size
pub mod Merge
pub mod Reader
pub mod RoundTrip
pub mod Stream
pub mod Termination
pub mod Operations
pub mod Refines
pub mod Tests
use myodesignproject.Base.{
  ℕ, ◌+◌, ◌-◌, ◌^◌, ◌≤◌, ◌<◌, Bool, true, false, ◌||◌, ◌==◌, leb, if◌then◌else◌, Option, none, some,
  List, [], ◌++◌, length, drop,
}
use WireFormat.{Wire}

abbrev pub Float : Type 0
Float = ℕ

abbrev pub IsFloat : Float → Type 0
IsFloat v = v < 2 ^ 32

-- `v == 0`: true of +0 and of -0.
unfoldable pub is_zero : Float → Bool
is_zero v = v == 0 || v == 2 ^ 31

pub record Sensor : Type 0 where
  pub is_default_instance : Bool
  pub arg0 : Float
  pub arg1 : Float
  pub arg2 : Float
  pub arg3 : Float
  pub arg4 : Float
  pub cached_size : ℕ

-- `SharedCtor`, which both constructors run first.
abbrev pub shared_ctor : Sensor
shared_ctor = record {
  is_default_instance = false;
  arg0 = 0;
  arg1 = 0;
  arg2 = 0;
  arg3 = 0;
  arg4 = 0;
  cached_size = 0;
}

abbrev pub init_as_default_instance : Sensor → Sensor
init_as_default_instance s = record s { is_default_instance = true }

abbrev pub set_arg0 : Float → Sensor → Sensor
set_arg0 v s = record s { arg0 = v }

abbrev pub set_arg1 : Float → Sensor → Sensor
set_arg1 v s = record s { arg1 = v }

abbrev pub set_arg2 : Float → Sensor → Sensor
set_arg2 v s = record s { arg2 = v }

abbrev pub set_arg3 : Float → Sensor → Sensor
set_arg3 v s = record s { arg3 = v }

abbrev pub set_arg4 : Float → Sensor → Sensor
set_arg4 v s = record s { arg4 = v }

-- `clear_argK`
abbrev pub clear_arg0 : Sensor → Sensor
clear_arg0 s = record s { arg0 = 0 }

abbrev pub clear_arg1 : Sensor → Sensor
clear_arg1 s = record s { arg1 = 0 }

abbrev pub clear_arg2 : Sensor → Sensor
clear_arg2 s = record s { arg2 = 0 }

abbrev pub clear_arg3 : Sensor → Sensor
clear_arg3 s = record s { arg3 = 0 }

abbrev pub clear_arg4 : Sensor → Sensor
clear_arg4 s = record s { arg4 = 0 }

-- `Clear`: one `memset` from `arg0_` to the end of `arg4_`; the cached size is not in that range.
unfoldable pub clear : Sensor → Sensor
clear s = record s { arg0 = 0; arg1 = 0; arg2 = 0; arg3 = 0; arg4 = 0 }

-- `if (from.argK() != 0) set_argK(from.argK())`
unfoldable pub merge_arg : (Float → Sensor → Sensor) → Float → Sensor → Sensor
merge_arg set v s = if is_zero v then s else set v s

unfoldable pub merge_args : Sensor → Sensor → Sensor
merge_args from s =
    let s0 = merge_arg set_arg0 from.arg0 s in
    let s1 = merge_arg set_arg1 from.arg1 s0 in
    let s2 = merge_arg set_arg2 from.arg2 s1 in
    let s3 = merge_arg set_arg3 from.arg3 s2 in merge_arg set_arg4 from.arg4 s3

-- The message that a method is given: the object itself, or another one.
pub data Source : Type 0 where
  itself : Source
  other : Sensor → Source

-- `MergeFrom(const Sensor&)`; `none` is the failed check of `MergeFromFail`, which ends the program.
unfoldable pub merge_from : Source → Sensor → Option Sensor
unfolding merge_args
merge_from itself s = none
merge_from (other from) s = some (merge_args from s)

unfoldable pub copy_from : Source → Sensor → Option Sensor
unfolding clear merge_from
copy_from itself s = some s
copy_from (other from) s = merge_from (other from) (clear s)

-- `Sensor(const Sensor& from)`; the new object is never `from`.
unfoldable pub copy_constructor : Sensor → Option Sensor
unfolding merge_from
copy_constructor from = merge_from (other from) shared_ctor

-- `InternalSwap` of two messages: the flag `is_default_instance` stays.
unfoldable pub internal_swap : Sensor → Sensor → Sensor × Sensor
internal_swap a b = (given a b, given b a)
  where
    given : Sensor → Sensor → Sensor
    given to from = record from { is_default_instance = to.is_default_instance }

-- `Swap(other)`, for another object and for the object itself.
unfoldable pub swap : Source → Sensor → Sensor × Source
unfolding internal_swap
swap itself s = (s, itself)
swap (other o) s = let (s', o') = internal_swap s o in (s', other o')

-- `total_size += 1 + 4` for an argument that is not 0.
unfoldable pub size_arg : Float → ℕ → ℕ
size_arg v n = if is_zero v then n else n + (1 + 4)

unfoldable pub total_size : Sensor → ℕ
total_size s =
    size_arg s.arg4 (size_arg s.arg3 (size_arg s.arg2 (size_arg s.arg1 (size_arg s.arg0 0))))

-- `ByteSize`, which also stores the size in the message.
unfoldable pub byte_size : Sensor → ℕ × Sensor
byte_size s = (total_size s, record s { cached_size = total_size s })

-- `SerializeWithCachedSizes`: to a stream, seen as the bytes written to it so far.
unfoldable pub write_arg : Wire → ℕ → Float → List ℕ → List ℕ
write_arg w k v out = if is_zero v then out else out ++ Wire.write_float w k v

unfoldable pub serialize : Wire → Sensor → List ℕ → List ℕ
serialize w s out =
    let o1 = write_arg w 1 s.arg0 out in
    let o2 = write_arg w 2 s.arg1 o1 in
    let o3 = write_arg w 3 s.arg2 o2 in let o4 = write_arg w 4 s.arg3 o3 in write_arg w 5 s.arg4 o4

-- A pointer into an array: the bytes in front of it, and those from it on.
pub record Target : Type 0 where
  pub before : List ℕ
  pub from : List ℕ

-- Bytes stored at the pointer, which then stands behind them; `none` is a write past the array.
unfoldable pub store : List ℕ → Target → Option Target
store bytes t =
    if leb (length bytes) (length t.from)
    then some (record { before = t.before ++ bytes; from = drop (length bytes) t.from })
    else none

unfoldable pub write_arg_to_array : Wire → ℕ → Float → Option Target → Option Target
write_arg_to_array w k v none = none
write_arg_to_array w k v (some t) = if is_zero v then some t else store (Wire.write_float w k v) t

-- `SerializeWithCachedSizesToArray`
unfoldable pub serialize_to_array : Wire → Sensor → Target → Option Target
serialize_to_array w s target =
    let t1 = write_arg_to_array w 1 s.arg0 (some target) in
    let t2 = write_arg_to_array w 2 s.arg1 t1 in
    let t3 = write_arg_to_array w 3 s.arg2 t2 in
    let t4 = write_arg_to_array w 4 s.arg3 t3 in write_arg_to_array w 5 s.arg4 t4
