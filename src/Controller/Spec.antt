-- ===== src/Controller/Spec.antt =====
-- What the section MAIN of MyoNucMotor/MyoNucMotor/main.cpp promises its client, as a machine whose
-- state is the numbers that were sent last: a line with five numbers is sent, with -1 for each 0; any
-- other line sends the last numbers again; and where there is no line nothing is sent.
use myodesignproject.Base.{ℕ, Option, none, some, List, [], ◌∷◌}
use myodesignproject.Sensor.{Float, Sensor, shared_ctor, serialize}
use myodesignproject.Sensor.WireFormat.{Wire}
use myodesignproject.Line.{never_zero, Selected, thrown, skipped, line, select}
use myodesignproject.Line.Fields.{setters, columns, split}

abbrev pub Numbers : Type 0
Numbers = List Float

abbrev pub cons_number : Option Float → Option Numbers → Option Numbers
cons_number none vs = none
cons_number (some v) none = none
cons_number (some v) (some vs) = some (v ∷ vs)

-- All columns as numbers, or `none` if one is no number.
abbrev pub all_numbers : (List ℕ → Option Float) → List (List ℕ) → Option Numbers
all_numbers stof [] = some []
all_numbers stof (t ∷ ts) = cons_number (stof t) (all_numbers stof ts)

abbrev pub numbers_of : (List ℕ → Option Float) → List ℕ → Option Numbers
numbers_of stof s = all_numbers stof (columns 5 (split s))

abbrev pub each : (Float → Float) → Numbers → Numbers
each g [] = []
each g (v ∷ vs) = g v ∷ each g vs

abbrev pub nonzero : Numbers → Numbers
nonzero = each never_zero

-- The numbers as a message, and as the bytes of one.
abbrev pub put_all : List (Float → Sensor → Sensor) → Numbers → Sensor → Sensor
put_all [] vs s = s
put_all (set ∷ sets) [] s = s
put_all (set ∷ sets) (v ∷ vs) s = put_all sets vs (set v s)

abbrev pub message_of : Numbers → Sensor
message_of vs = put_all setters vs shared_ctor

abbrev pub frame_of : Wire → Numbers → List ℕ
frame_of w vs = serialize w (message_of vs) []

abbrev pub frames_of : Wire → Option Numbers → Option (List ℕ)
frames_of w none = none
frames_of w (some vs) = some (frame_of w vs)

abbrev pub spec_line : Option Numbers → Numbers → Numbers × Option Numbers
spec_line none last = (last, some last)
spec_line (some vs) last = (nonzero vs, some (nonzero vs))

abbrev pub spec_step : (List ℕ → Option Float) → Selected → Numbers → Numbers × Option Numbers
spec_step stof thrown last = (last, none)
spec_step stof skipped last = (last, none)
spec_step stof (line s) last = spec_line (numbers_of stof s) last

abbrev pub spec_run :
    (List ℕ → Option Float) → List Selected → Numbers → Numbers × List (Option Numbers)
spec_run stof [] last = (last, [])
spec_run stof (c ∷ cs) last =
    let (next, out) = spec_step stof c last in
    let (end, outs) = spec_run stof cs next in (end, out ∷ outs)

abbrev pub all_selected : List (List ℕ) → List Selected
all_selected [] = []
all_selected (text ∷ texts) = select text ∷ all_selected texts

abbrev pub all_frames : Wire → List (Option Numbers) → List (Option (List ℕ))
all_frames w [] = []
all_frames w (out ∷ outs) = frames_of w out ∷ all_frames w outs
