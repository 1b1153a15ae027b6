-- ===== src/Sensor/Parse.antt =====
-- `Sensor::MergePartialFromCodedStream` of NUCServer/NUCServer/data.pb.cc. The input is the list of
-- the bytes still to be read; a `goto parse_argK` is a call of the next reader, and a `break` goes
-- back to the loop with `again`.
use myodesignproject.Base.{
  ℕ, zero, suc, ◌||◌, ◌==◌, if◌then◌else◌, Option, none, some, List, length,
}
use myodesignproject.Sensor.{Float, Sensor, set_arg0, set_arg1, set_arg2, set_arg3, set_arg4}
use myodesignproject.Sensor.WireFormat.{Wire}

-- `stuck` is no result of the code: the loop of the model ran out of fuel.
pub data Parsed : Type 0 where
  success : Sensor → Parsed
  failure : Sensor → Parsed
  stuck : Parsed

-- How one round of the loop ends.
pub data Round : Type 0 where
  done : Parsed → Round
  again : Sensor → List ℕ → Round

-- Read a float into a field, then go on by `jump` if the next field's tag follows.
unfoldable pub parse_field :
    Wire
    → (Float → Sensor → Sensor)
    → (List ℕ → Option (List ℕ))
    → (List ℕ → Sensor → Round)
    → List ℕ
    → Sensor
    → Round
parse_field w set expect jump input s = elim (Wire.read_float w input) [
  | none ↦ done (failure s)
  | some (v, rest) ↦ elim (expect rest) [
    | none ↦ again (set v s) rest
    | some behind ↦ jump behind (set v s)
  ]
]

-- `if (input->ExpectAtEnd()) goto success;`, as a test in the shape of `ExpectTag`.
unfoldable pub at_end : Wire → List ℕ → Option (List ℕ)
at_end w input = if Wire.expect_at_end w input then some input else none

unfoldable pub parse_arg4 : Wire → List ℕ → Sensor → Round
unfolding parse_field at_end
parse_arg4 w = parse_field w set_arg4 (at_end w) (λ behind s. done (success s))

unfoldable pub parse_arg3 : Wire → List ℕ → Sensor → Round
unfolding parse_field parse_arg4
parse_arg3 w = parse_field w set_arg3 (Wire.expect_tag w 45) (parse_arg4 w)

unfoldable pub parse_arg2 : Wire → List ℕ → Sensor → Round
unfolding parse_field parse_arg3
parse_arg2 w = parse_field w set_arg2 (Wire.expect_tag w 37) (parse_arg3 w)

unfoldable pub parse_arg1 : Wire → List ℕ → Sensor → Round
unfolding parse_field parse_arg2
parse_arg1 w = parse_field w set_arg1 (Wire.expect_tag w 29) (parse_arg2 w)

unfoldable pub parse_arg0 : Wire → List ℕ → Sensor → Round
unfolding parse_field parse_arg1
parse_arg0 w = parse_field w set_arg0 (Wire.expect_tag w 21) (parse_arg1 w)

-- The end of the input, an end-group tag, or a field to skip.
unfoldable pub handle_unusual : Wire → ℕ → List ℕ → Sensor → Round
handle_unusual w tag input s =
    if tag == 0 || Wire.wire_type w tag == 4
    then done (success s)
    else elim (Wire.skip_field w tag input) [ none ↦ done (failure s) | some rest ↦ again s rest ]

-- The `switch` on the field number; each case asks for the tag of a float.
unfoldable pub dispatch : Wire → ℕ → List ℕ → Sensor → Round
unfolding handle_unusual parse_arg0
dispatch w tag input s =
    let field = Wire.field_number w tag in
    let unusual = handle_unusual w tag input s in
    if field == 1
    then (if tag == 13 then parse_arg0 w input s else unusual)
    else if field == 2
    then (if tag == 21 then parse_arg1 w input s else unusual)
    else if field == 3
    then (if tag == 29 then parse_arg2 w input s else unusual)
    else if field == 4
    then (if tag == 37 then parse_arg3 w input s else unusual)
    else if field == 5
    then (if tag == 45 then parse_arg4 w input s else unusual)
    else unusual

-- `ReadTagWithCutoff`, then the `switch`, or `handle_unusual` for a tag above the cutoff.
unfoldable pub round : Wire → List ℕ → Sensor → Round
unfolding dispatch
round w input s =
    let read = Wire.read_tag w input in
    if read.0.1 then dispatch w read.0.0 read.1 s else handle_unusual w read.0.0 read.1 s

unfoldable pub loop : ℕ → Wire → List ℕ → Sensor → Parsed
loop zero w input s = stuck
loop (suc fuel) w input s = elim (round w input s) [
  | done r ↦ r
  | again s' rest ↦ loop fuel w rest s'
]

-- A round takes a byte at least, so one round for each byte and one more are enough.
unfoldable pub merge_partial : Wire → List ℕ → Sensor → Parsed
unfolding loop
merge_partial w input s = loop (suc (length input)) w input s
