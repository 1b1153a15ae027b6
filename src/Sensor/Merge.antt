-- ===== src/Sensor/Merge.antt =====
-- `MergeFrom`, `CopyFrom`, the copy constructor, `Clear` and `Swap` of
-- NUCServer/NUCServer/data.pb.cc.
use myodesignproject.Base.{◌^◌, ◌≡◌, ◌≢◌, some, arith, if◌then◌else◌}
use myodesignproject.Sensor.{
  Float, Sensor, other, is_zero, clear, shared_ctor, merge_arg, merge_args, copy_from,
  copy_constructor,
}

-- The value that a field has once `from` is merged into `old`.
abbrev pub merged : Float → Float → Float
merged from old = if is_zero from then old else from

-- A value as a fresh message reads it back: -0 has become +0.
abbrev pub unsigned_zero : Float → Float
unsigned_zero v = merged v 0

pub unsigned_zero-eq : (v : Float) → v ≢ 2 ^ 31 → unsigned_zero v ≡ v
unfolding is_zero
unsigned_zero-eq v h = ground arith

-- MergeFrom another message takes each of its arguments that is not a zero, keeps its own argument
-- in place of each that is, and changes nothing else.
pub merge_args_lem :
    (from s : Sensor)
    → merge_args from s ≡ record s {
      arg0 = merged from.arg0 s.arg0;
      arg1 = merged from.arg1 s.arg1;
      arg2 = merged from.arg2 s.arg2;
      arg3 = merged from.arg3 s.arg3;
      arg4 = merged from.arg4 s.arg4;
    }
unfolding merge_args merge_arg
merge_args_lem from s = ground arith

-- CopyFrom another message makes every argument equal to that of the other one, but a negative
-- zero becomes 0, and keeps the target's flag and cached size.
pub copy_from-other :
    (from s : Sensor)
    → copy_from (other from) s
      ≡ some (record s {
        arg0 = unsigned_zero from.arg0;
        arg1 = unsigned_zero from.arg1;
        arg2 = unsigned_zero from.arg2;
        arg3 = unsigned_zero from.arg3;
        arg4 = unsigned_zero from.arg4;
      })
unfolding copy_from clear
copy_from-other from s = rw (merge_args_lem from (clear s))

-- Copying the same message once more changes nothing.
pub copy_from_idem :
    (from s t : Sensor) → copy_from (other from) s ≡ some t → copy_from (other from) t ≡ some t
copy_from_idem from s t e = ground (arith, copy_from-other from s, copy_from-other from t)

-- The copy constructor gives a message that differs from its source where the source's arg0 is a
-- negative zero.
pub copy_constructor_loses_sign :
    (from c : Sensor) → from.arg0 ≡ 2 ^ 31 → copy_constructor from ≡ some c → c ≢ from
unfolding copy_constructor is_zero
copy_constructor_loses_sign from c h e = λ same. ground (arith, merge_args_lem from shared_ctor)
