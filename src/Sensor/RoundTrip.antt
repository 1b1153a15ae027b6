-- ===== src/Sensor/RoundTrip.antt =====
-- Parsing what was serialized: `SerializeWithCachedSizes` and `MergePartialFromCodedStream` of
-- NUCServer/NUCServer/data.pb.cc.
use myodesignproject.Base.{
  ℕ, ◌≡◌, List, [], ◌++◌, arith, append_assoc, append-nil, length, subst, sym,
}
use myodesignproject.Sensor.{
  IsFloat, Sensor, set_arg0, set_arg1, set_arg2, set_arg3, set_arg4, merge_arg, merge_args,
  serialize,
}
use myodesignproject.Sensor.WireFormat.{Wire, IsWire}
use myodesignproject.Sensor.Parse.{
  success, done, at_end, parse_arg0, parse_arg1, parse_arg2, parse_arg3, parse_arg4, dispatch,
  merge_partial,
}
use myodesignproject.Sensor.Reader.{Loops, Jumps-tag, Jumps-end, loop-end, Loops-arg_bytes}
use myodesignproject.Sensor.Size.{arg_bytes, serialize-encoding}

module _ {w : Wire} (lawful : IsWire w) where
  module _ (rest : List ℕ) (s : Sensor) where
    tag_45 : dispatch w 45 rest s ≡ parse_arg4 w rest s
    unfolding dispatch
    tag_45 = ground (arith, lawful.field_number_lem 45)

    tag_37 : dispatch w 37 rest s ≡ parse_arg3 w rest s
    unfolding dispatch
    tag_37 = ground (arith, lawful.field_number_lem 37)

    tag_29 : dispatch w 29 rest s ≡ parse_arg2 w rest s
    unfolding dispatch
    tag_29 = ground (arith, lawful.field_number_lem 29)

    tag_21 : dispatch w 21 rest s ≡ parse_arg1 w rest s
    unfolding dispatch
    tag_21 = ground (arith, lawful.field_number_lem 21)

    tag_13 : dispatch w 13 rest s ≡ parse_arg0 w rest s
    unfolding dispatch
    tag_13 = ground (arith, lawful.field_number_lem 13)

  -- A message in front of bytes that the loop can go on with.
  module _ (from : Sensor) (bound0 : IsFloat from.arg0) (bound1 : IsFloat from.arg1)
      (bound2 : IsFloat from.arg2) (bound3 : IsFloat from.arg3) (bound4 : IsFloat from.arg4)
      (rest : List ℕ) (finish : Sensor → Sensor) (loops : Loops w rest finish) where
    abbrev tail4 : List ℕ
    tail4 = arg_bytes w 5 from.arg4 ++ rest

    abbrev tail3 : List ℕ
    tail3 = arg_bytes w 4 from.arg3 ++ tail4

    abbrev tail2 : List ℕ
    tail2 = arg_bytes w 3 from.arg2 ++ tail3

    abbrev tail1 : List ℕ
    tail1 = arg_bytes w 2 from.arg1 ++ tail2

    abbrev finish4 : Sensor → Sensor
    finish4 s = finish (merge_arg set_arg4 from.arg4 s)

    abbrev finish3 : Sensor → Sensor
    finish3 s = finish4 (merge_arg set_arg3 from.arg3 s)

    abbrev finish2 : Sensor → Sensor
    finish2 s = finish3 (merge_arg set_arg2 from.arg2 s)

    abbrev finish1 : Sensor → Sensor
    finish1 s = finish2 (merge_arg set_arg1 from.arg1 s)

    Loops4 : Loops w tail4 finish4
    unfolding parse_arg4
    Loops4 =
        Loops-arg_bytes lawful 5 (omega arith) (omega arith) from.arg4 bound4 set_arg4 rest finish
          (at_end w) (λ behind s. done (success s)) tag_45 loops
          (Jumps-end lawful rest finish loops)

    Loops3 : Loops w tail3 finish3
    unfolding parse_arg3
    Loops3 =
        Loops-arg_bytes lawful 4 (omega arith) (omega arith) from.arg3 bound3 set_arg3 tail4 finish4
          (w.expect_tag 45) (parse_arg4 w) tag_37 Loops4
          (Jumps-tag lawful 45 tail4 finish4 (parse_arg4 w) (omega arith) (omega arith) tag_45
            Loops4)

    Loops2 : Loops w tail2 finish2
    unfolding parse_arg2
    Loops2 =
        Loops-arg_bytes lawful 3 (omega arith) (omega arith) from.arg2 bound2 set_arg2 tail3 finish3
          (w.expect_tag 37) (parse_arg3 w) tag_29 Loops3
          (Jumps-tag lawful 37 tail3 finish3 (parse_arg3 w) (omega arith) (omega arith) tag_37
            Loops3)

    Loops1 : Loops w tail1 finish1
    unfolding parse_arg1
    Loops1 =
        Loops-arg_bytes lawful 2 (omega arith) (omega arith) from.arg1 bound1 set_arg1 tail2 finish2
          (w.expect_tag 29) (parse_arg2 w) tag_21 Loops2
          (Jumps-tag lawful 29 tail2 finish2 (parse_arg2 w) (omega arith) (omega arith) tag_29
            Loops2)

    Loops0 : Loops w (arg_bytes w 1 from.arg0 ++ tail1) (λ s. finish (merge_args from s))
    unfolding parse_arg0 merge_args
    Loops0 =
        Loops-arg_bytes lawful 1 (omega arith) (omega arith) from.arg0 bound0 set_arg0 tail1 finish1
          (w.expect_tag 21) (parse_arg1 w) tag_13 Loops1
          (Jumps-tag lawful 21 tail1 finish1 (parse_arg1 w) (omega arith) (omega arith) tag_21
            Loops1)

    -- The message on the wire, and then the rest.
    pub Loops-serialize : Loops w (serialize w from [] ++ rest) (λ s. finish (merge_args from s))
    Loops-serialize =
        let front : serialize w from [] ++ rest ≡ arg_bytes w 1 from.arg0 ++ tail1 =
          simp (serialize-encoding w from [], append_assoc) in
        subst (λ input. Loops w input (λ s. finish (merge_args from s))) (sym front) Loops0

  pub Loops-nothing : Loops w [] (λ s. s)
  Loops-nothing fuel s h = loop-end lawful fuel s

  -- With a library that keeps to IsWire: parsing what SerializeWithCachedSizes writes for a
  -- message, whose arguments are bit patterns below 2 ^ 32, into any message succeeds and is the
  -- same as merging the message into it.
  pub merge_partial-serialize :
      (from : Sensor)
      → IsFloat from.arg0
      → IsFloat from.arg1
      → IsFloat from.arg2
      → IsFloat from.arg3
      → IsFloat from.arg4
      → (s : Sensor) → merge_partial w (serialize w from []) s ≡ success (merge_args from s)
  unfolding merge_partial
  merge_partial-serialize from b0 b1 b2 b3 b4 s =
      let all : Loops w (serialize w from []) (merge_args from) =
        subst (λ input. Loops w input (merge_args from)) (append-nil (serialize w from []))
          (Loops-serialize from b0 b1 b2 b3 b4 [] (λ s. s) Loops-nothing) in
      all (length (serialize w from [])) s (omega arith)
