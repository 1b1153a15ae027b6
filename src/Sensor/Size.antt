-- ===== src/Sensor/Size.antt =====
-- The two ways to write a message, and its size: `SerializeWithCachedSizes`,
-- `SerializeWithCachedSizesToArray` and `ByteSize` of NUCServer/NUCServer/data.pb.cc.
use myodesignproject.Base.{
  ℕ, ◌+◌, ◌≤◌, ◌≡◌, refl, sym, false, inl, inr, Option, none, some, List, [], ◌∷◌, ◌++◌,
  append_assoc, append-nil, arith, if◌then◌else◌, Bool-cases, length, drop, length-append,
  length-drop,
}
use myodesignproject.Sensor.{
  Float, Sensor, Target, is_zero, write_arg, serialize, store, write_arg_to_array,
  serialize_to_array, size_arg, total_size,
}
use myodesignproject.Sensor.WireFormat.{Wire, IsWire, fixed32}

-- What one argument adds to the wire.
unfoldable pub arg_bytes : Wire → ℕ → Float → List ℕ
arg_bytes w k v = if is_zero v then [] else Wire.write_float w k v

pub write_arg_lem :
    (w : Wire) (k : ℕ) (v : Float) (out : List ℕ) → write_arg w k v out ≡ out ++ arg_bytes w k v
unfolding write_arg arg_bytes
write_arg_lem w k v out = elim (Bool-cases (is_zero v)) [
  | inl e ↦ rw e (sym (append-nil out))
  | inr e ↦ rw e
]

-- The message on the wire: its arguments in the order of their numbers.
abbrev pub encoding : Wire → Sensor → List ℕ
encoding w s =
    arg_bytes w 1 s.arg0
    ++ (arg_bytes w 2 s.arg1
        ++ (arg_bytes w 3 s.arg2 ++ (arg_bytes w 4 s.arg3 ++ (arg_bytes w 5 s.arg4 ++ []))))

pub serialize-encoding :
    (w : Wire) (s : Sensor) (out : List ℕ) → serialize w s out ≡ out ++ encoding w s
unfolding serialize
serialize-encoding w s out = simp (write_arg_lem, append_assoc, append-nil)

pub length-arg_bytes :
    {w : Wire}
    → IsWire w
    → (k : ℕ) (v : Float) (n : ℕ) → 1 ≤ k
    → k ≤ 15
    → size_arg v n ≡ n + length (arg_bytes w k v)
unfolding arg_bytes size_arg fixed32
length-arg_bytes {w} lawful k v n lo hi = elim (Bool-cases (is_zero v)) [
  | inl e ↦ rw e (omega arith)
  | inr e ↦ rw (e, lawful.write_float_lem k v lo hi) (omega arith)
]

-- With a library that keeps to IsWire: the size that ByteSize computes is the number of bytes that
-- the arguments take on the wire.
pub length-encoding : {w : Wire} → IsWire w → (s : Sensor) → total_size s ≡ length (encoding w s)
unfolding total_size
length-encoding {w} lawful s =
    rw
      (
        length-arg_bytes lawful 5 s.arg4 _ (omega arith) (omega arith),
        length-arg_bytes lawful 4 s.arg3 _ (omega arith) (omega arith),
        length-arg_bytes lawful 3 s.arg2 _ (omega arith) (omega arith),
        length-arg_bytes lawful 2 s.arg1 _ (omega arith) (omega arith),
        length-arg_bytes lawful 1 s.arg0 _ (omega arith) (omega arith),
      )
      (simp (length-append) (omega arith))

pub length-serialize :
    {w : Wire} → IsWire w → (s : Sensor) → length (serialize w s []) ≡ total_size s
length-serialize {w} lawful s = rw (serialize-encoding w s []) (sym (length-encoding lawful s))

pub total_size-le : (s : Sensor) → total_size s ≤ 25
unfolding total_size size_arg
total_size-le s = ground arith

-- A message without a zero argument takes 25 bytes.
pub total_size-full :
    (s : Sensor)
    → is_zero s.arg0 ≡ false
    → is_zero s.arg1 ≡ false
    → is_zero s.arg2 ≡ false
    → is_zero s.arg3 ≡ false
    → is_zero s.arg4 ≡ false
    → total_size s ≡ 25
unfolding total_size size_arg
total_size-full s h0 h1 h2 h3 h4 = rw (h0, h1, h2, h3, h4)

drop-append :
    (xs ys : List ℕ) (t : List ℕ)
    → drop (length ys) (drop (length xs) t) ≡ drop (length (xs ++ ys)) t
drop-append [] ys t = refl
drop-append (x ∷ xs) [] [] = refl
drop-append (x ∷ xs) (y ∷ ys) [] = refl
drop-append (x ∷ xs) ys (b ∷ t) = drop-append xs ys t

abbrev and_store : List ℕ → Option Target → Option Target
and_store ys none = none
and_store ys (some t) = store ys t

-- Storing two pieces, one behind the other, is storing both at once.
and_store-store : (xs ys : List ℕ) (t : Target) → and_store ys (store xs t) ≡ store (xs ++ ys) t
unfolding store
and_store-store xs ys t = ground (
  arith,
  length-append xs ys,
  length-drop (length xs) t.from,
  drop-append xs ys t.from,
  append_assoc t.before xs ys,
)

write_arg_to_array-and_store :
    (w : Wire) (k : ℕ) (v : Float) (o : Option Target)
    → write_arg_to_array w k v o ≡ (if is_zero v then o else and_store (w.write_float k v) o)
unfolding write_arg_to_array
write_arg_to_array-and_store w k v none = ground arith
write_arg_to_array-and_store w k v (some t) = refl

store-write_arg :
    (w : Wire) (k : ℕ) (v : Float) (xs : List ℕ) (t : Target)
    → write_arg_to_array w k v (store xs t) ≡ store (write_arg w k v xs) t
unfolding write_arg
store-write_arg w k v xs t = elim (Bool-cases (is_zero v)) [
  | inl e ↦ rw (write_arg_to_array-and_store w k v (store xs t), e)
  | inr e ↦
      rw (write_arg_to_array-and_store w k v (store xs t), e)
        (and_store-store xs (w.write_float k v) t)
]

store-nil : (t : Target) → some t ≡ store [] t
unfolding store
store-nil t = ground (arith, append-nil t.before)

-- SerializeWithCachedSizesToArray stores at its target just the bytes that
-- SerializeWithCachedSizes writes, and writes past the array just if they do not fit.
pub serialize_to_array-serialize :
    (w : Wire) (s : Sensor) (t : Target) → serialize_to_array w s t ≡ store (serialize w s []) t
unfolding serialize_to_array serialize
serialize_to_array-serialize w s t = rw (store-nil t) (simp store-write_arg)
