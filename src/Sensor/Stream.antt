-- ===== src/Sensor/Stream.antt =====
-- Messages of NUCServer/NUCServer/data.pb.cc that stand behind one another without a length in front,
-- as TCP delivers what the programs send, under one call of the parser.
use myodesignproject.Base.{ℕ, ◌≡◌, refl, ◌∙◌, ap, List, [], ◌∷◌, ◌++◌, arith, length, All}
use myodesignproject.Sensor.{Float, IsFloat, Sensor, merge_args, serialize}
use myodesignproject.Sensor.WireFormat.{Wire, IsWire}
use myodesignproject.Sensor.Parse.{success, merge_partial}
use myodesignproject.Sensor.Reader.{Loops}
use myodesignproject.Sensor.RoundTrip.{Loops-serialize, Loops-nothing}
use myodesignproject.Sensor.Merge.{merged, merge_args_lem}

-- The arguments are bit patterns below 2 ^ 32.
pub record HasFloats (s : Sensor) : Type 0 where
  pub float0 : IsFloat s.arg0
  pub float1 : IsFloat s.arg1
  pub float2 : IsFloat s.arg2
  pub float3 : IsFloat s.arg3
  pub float4 : IsFloat s.arg4

abbrev pub stream : Wire → List Sensor → List ℕ
stream w [] = []
stream w (m ∷ ms) = serialize w m [] ++ stream w ms

abbrev pub merge_all : List Sensor → Sensor → Sensor
merge_all [] s = s
merge_all (m ∷ ms) s = merge_all ms (merge_args m s)

-- The last value that is not a zero, or `old` if there is none.
abbrev pub latest : (Sensor → Float) → List Sensor → Float → Float
latest arg [] old = old
latest arg (m ∷ ms) old = latest arg ms (merged (arg m) old)

pub merge_all_lem :
    (ms : List Sensor) (s : Sensor)
    → merge_all ms s ≡ record s {
      arg0 = latest (λ m. m.arg0) ms s.arg0;
      arg1 = latest (λ m. m.arg1) ms s.arg1;
      arg2 = latest (λ m. m.arg2) ms s.arg2;
      arg3 = latest (λ m. m.arg3) ms s.arg3;
      arg4 = latest (λ m. m.arg4) ms s.arg4;
    }
merge_all_lem [] s = refl
merge_all_lem (m ∷ ms) s = ap (merge_all ms) (merge_args_lem m s) ∙ merge_all_lem ms _

module _ {w : Wire} (lawful : IsWire w) where
  Loops-stream : (ms : List Sensor) → All HasFloats ms → Loops w (stream w ms) (merge_all ms)
  Loops-stream [] h = Loops-nothing lawful
  Loops-stream (m ∷ ms) h =
      Loops-serialize lawful m h.0.float0 h.0.float1 h.0.float2 h.0.float3 h.0.float4 (stream w ms)
        (merge_all ms) (Loops-stream ms h.1)

  pub merge_partial-merge_all :
      (ms : List Sensor) (s : Sensor)
      → All HasFloats ms
      → merge_partial w (stream w ms) s ≡ success (merge_all ms s)
  unfolding merge_partial
  merge_partial-merge_all ms s h = Loops-stream ms h (length (stream w ms)) s (omega arith)

  -- With a library that keeps to IsWire: parsing any number of serialized messages that stand
  -- behind one another, whose arguments are bit patterns below 2 ^ 32, into a message succeeds,
  -- and leaves each argument at the last of their values that is not a zero, and as it was where
  -- there is none.
  pub merge_partial-stream :
      (ms : List Sensor) (s : Sensor)
      → All HasFloats ms
      → merge_partial w (stream w ms) s
        ≡ success (record s {
          arg0 = latest (λ m. m.arg0) ms s.arg0;
          arg1 = latest (λ m. m.arg1) ms s.arg1;
          arg2 = latest (λ m. m.arg2) ms s.arg2;
          arg3 = latest (λ m. m.arg3) ms s.arg3;
          arg4 = latest (λ m. m.arg4) ms s.arg4;
        })
  merge_partial-stream ms s h = merge_partial-merge_all ms s h ∙ ap success (merge_all_lem ms s)
