-- ===== src/Checker/Parse.antt =====
-- Data.java of MyoChecker/app/src/main/java/com/myoprj/myochecker parses what
-- NUCServer/NUCServer/data.pb.cc writes.
use myodesignproject.Base.{
  ℕ, zero, suc, ◌+◌, ◌*◌, ◌≤◌, ◌<◌, ◌≡◌, refl, sym, ◌∙◌, ap, subst, Bool-cases, inl, inr, none,
  some, List, [], ◌∷◌, ◌++◌, append_assoc, append-nil, arith, length, if◌then◌else◌,
}
use myodesignproject.Sensor.{Float, IsFloat, Sensor, is_zero, serialize}
use myodesignproject.Sensor.WireFormat.{Wire, IsWire, fixed32}
use myodesignproject.Sensor.Merge.{unsigned_zero}
use myodesignproject.Sensor.Reader.{length-fixed32}
use myodesignproject.Sensor.Size.{arg_bytes, serialize-encoding}
use myodesignproject.Sensor.Stream.{HasFloats}
use myodesignproject.Checker.Input.{JavaWire, IsJavaWire}
use myodesignproject.Checker.{
  DataSensor, new_sensor, put_arg0, put_arg1, put_arg2, put_arg3, put_arg4, JavaParsed, ended,
  threw, JavaRound, done, again, java_field, java_switch, java_round, java_loop, java_parse,
  accepted, parse_from,
}

-- A value that is on the wire just if it is not a zero.
abbrev pub put_arg : (Float → DataSensor → DataSensor) → Float → DataSensor → DataSensor
put_arg put v s = if is_zero v then s else put v s

module _ {w : Wire} (lawful : IsWire w) {j : JavaWire} (java : IsJavaWire j) where
  abbrev resume : ℕ → JavaRound → JavaParsed
  resume fuel (done r) = r
  resume fuel (again s rest) = java_loop j fuel rest s

  loop-resume :
      (fuel : ℕ) (input : List ℕ) (s : DataSensor)
      → java_loop j (suc fuel) input s ≡ resume fuel (java_round j input s)
  unfolding java_loop
  loop-resume fuel input s = ground arith

  round_tag :
      (tag : ℕ) (rest : List ℕ) (s : DataSensor)
      → 8 ≤ tag
      → tag < 128
      → java_round j (tag ∷ rest) s ≡ java_switch j tag rest s
  unfolding java_round
  round_tag tag rest s lo hi = rw (java.read_tag_small tag rest lo hi, java_round) refl

  -- The loop ends on `tail` as `last` tells, if it has a round for each byte.
  abbrev pub Loops : List ℕ → (DataSensor → JavaParsed) → Type 0
  Loops tail last =
      (fuel : ℕ) (s : DataSensor) → length tail ≤ fuel → java_loop j (suc fuel) tail s ≡ last s

  round_end : (s : DataSensor) → java_round j [] s ≡ done (ended 0 s)
  unfolding java_switch java_round
  round_end s = rw (java.read_tag_end, java_round) refl

  round_zero : (rest : List ℕ) (s : DataSensor) → java_round j (0 ∷ rest) s ≡ done threw
  unfolding java_round
  round_zero rest s = rw (java.read_tag_zero rest, java_round) refl

  pub Loops-end : Loops [] (ended 0)
  Loops-end fuel s h = loop-resume fuel [] s ∙ ap (resume fuel) (round_end s)

  pub Loops-zero : (rest : List ℕ) → Loops (0 ∷ rest) (λ s. threw)
  Loops-zero rest fuel s h = loop-resume fuel (0 ∷ rest) s ∙ ap (resume fuel) (round_zero rest s)

  field_found :
      (put : Float → DataSensor → DataSensor) (v : Float) (rest : List ℕ) (s : DataSensor)
      → IsFloat v
      → java_field j put (fixed32 v ++ rest) s ≡ again (put v s) rest
  unfolding java_field
  field_found put v rest s h = rw (java.read_float_lem v rest h, java_field) refl

  -- One argument in front of the rest.
  module _ (k : ℕ) (klo : 1 ≤ k) (khi : k ≤ 15) (put : Float → DataSensor → DataSensor)
      (tagged : (rest : List ℕ) (s : DataSensor)
        → java_switch j (8 * k + 5) rest s ≡ java_field j put rest s)
      (v : Float) (bound : IsFloat v) (tail : List ℕ) (last : DataSensor → JavaParsed)
      (loops : Loops tail last) where
    found :
        (fuel : ℕ) (s : DataSensor)
        → 4 + length tail ≤ fuel
        → java_loop j (suc fuel) ((8 * k + 5) ∷ (fixed32 v ++ tail)) s ≡ last (put v s)
    found zero s h = absurd (omega arith)
    found (suc fuel) s h =
        loop-resume (suc fuel) ((8 * k + 5) ∷ (fixed32 v ++ tail)) s
        ∙ ap (resume (suc fuel)) (
            round_tag (8 * k + 5) (fixed32 v ++ tail) s (omega arith) (omega arith)
            ∙ tagged (fixed32 v ++ tail) s
            ∙ field_found put v tail s bound)
        ∙ loops fuel (put v s) (omega arith)

    pub Loops-arg_bytes : Loops (arg_bytes w k v ++ tail) (λ s. last (put_arg put v s))
    unfolding arg_bytes
    Loops-arg_bytes fuel s h = elim (Bool-cases (is_zero v)) [
      | inl z ↦ ground (arith, loops fuel s)
      | inr z ↦
          ground
            (arith, lawful.write_float_lem k v klo khi, length-fixed32 lawful v tail, found fuel s)
    ]

  -- All five.
  abbrev pub put_args : Sensor → DataSensor → DataSensor
  put_args m s = put_arg put_arg4 m.arg4 (
      put_arg put_arg3 m.arg3
        (put_arg put_arg2 m.arg2 (put_arg put_arg1 m.arg1 (put_arg put_arg0 m.arg0 s))))

  pub Loops-serialize :
      (m : Sensor) (tail : List ℕ) (last : DataSensor → JavaParsed)
      → HasFloats m
      → Loops tail last
      → Loops (serialize w m [] ++ tail) (λ s. last (put_args m s))
  unfolding java_switch
  Loops-serialize m tail last f loops =
      let front : serialize w m [] ++ tail
          ≡ arg_bytes w 1 m.arg0
            ++ (arg_bytes w 2 m.arg1
                ++ (arg_bytes w 3 m.arg2
                    ++ (arg_bytes w 4 m.arg3 ++ (arg_bytes w 5 m.arg4 ++ tail)))) =
        simp (serialize-encoding w m [], append_assoc) in
      subst (λ input. Loops input (λ s. last (put_args m s))) (sym front)
        (Loops-arg_bytes 1 (omega arith) (omega arith) put_arg0 (λ rest s. refl) m.arg0 f.float0 _ _
          (Loops-arg_bytes 2 (omega arith) (omega arith) put_arg1 (λ rest s. refl) m.arg1 f.float1 _
            _
            (Loops-arg_bytes 3 (omega arith) (omega arith) put_arg2 (λ rest s. refl) m.arg2 f.float2
              _ _
              (Loops-arg_bytes 4 (omega arith) (omega arith) put_arg3 (λ rest s. refl) m.arg3
                f.float3 _ _
                (Loops-arg_bytes 5 (omega arith) (omega arith) put_arg4 (λ rest s. refl) m.arg4
                  f.float4 tail last loops)))))

  -- What the parser reads of a message: a zero is not on the wire.
  abbrev pub shown_of : Sensor → DataSensor
  shown_of m = record {
    arg0 = unsigned_zero m.arg0;
    arg1 = unsigned_zero m.arg1;
    arg2 = unsigned_zero m.arg2;
    arg3 = unsigned_zero m.arg3;
    arg4 = unsigned_zero m.arg4;
  }

  put_args_lem : (m : Sensor) → put_args m new_sensor ≡ shown_of m
  put_args_lem m = ground arith

  parse_from-Loops :
      (bytes : List ℕ) (last : DataSensor → JavaParsed)
      → Loops bytes last
      → parse_from j bytes ≡ accepted j (last new_sensor)
  unfolding parse_from java_parse
  parse_from-Loops bytes last loops =
      ap (accepted j) (loops (length bytes) new_sensor (omega arith))

  -- With libraries that keep to IsWire and IsJavaWire: what SerializeWithCachedSizes of the C++
  -- class writes for a message, whose arguments are bit patterns below 2 ^ 32, is parsed by the
  -- Java class to the same arguments, with 0 for a negative zero.
  pub parse_from-serialize :
      (m : Sensor) → HasFloats m → parse_from j (serialize w m []) ≡ some (shown_of m)
  parse_from-serialize m f =
      let all = Loops-serialize m [] (ended 0) f Loops-end in
      ap (parse_from j) (sym (append-nil (serialize w m [])))
      ∙ parse_from-Loops (serialize w m [] ++ []) (λ s. ended 0 (put_args m s)) all
      ∙ rw (java.accepts_end, put_args_lem m) refl

  -- A zero byte behind a message is no tag.
  pub parse_from-zero :
      (m : Sensor) (rest : List ℕ)
      → HasFloats m
      → parse_from j (serialize w m [] ++ 0 ∷ rest) ≡ none
  parse_from-zero m rest f =
      parse_from-Loops (serialize w m [] ++ 0 ∷ rest) (λ s. threw)
        (Loops-serialize m (0 ∷ rest) (λ s. threw) f (Loops-zero rest))
