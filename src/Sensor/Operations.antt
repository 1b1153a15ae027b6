-- ===== src/Sensor/Operations.antt =====
-- The methods of NUCServer/NUCServer/data.pb.{h,cc} that take any message of the library, and
-- sequences of calls of the methods that change a message.
use myodesignproject.Base.{Option, none, some, List, [], ◌∷◌, ℕ}
use myodesignproject.Sensor.{
  Float, Sensor, Source, other, set_arg0, set_arg1, set_arg2, set_arg3, set_arg4, clear_arg0,
  clear_arg1, clear_arg2, clear_arg3, clear_arg4, clear, merge_from, copy_from, swap, byte_size,
}
use myodesignproject.Sensor.WireFormat.{Wire}
use myodesignproject.Sensor.Parse.{Parsed, success, failure, stuck, merge_partial}

-- A `const Message&`: the object itself, another Sensor, or a message of another class, which
-- ReflectionOps::Merge of the library merges. `none` ends the program.
pub data Given (M : Type 0) : Type 0 where
  this : Given M
  sensor : Sensor → Given M
  foreign : M → Given M

-- `SetCachedSize`
abbrev pub set_cached_size : ℕ → Sensor → Sensor
set_cached_size size s = record s { cached_size = size }

module _ {M : Type 0} (reflection_merge : M → Sensor → Option Sensor) where
  -- `MergeFrom(const Message&)`
  unfoldable pub merge_from_message : Given M → Sensor → Option Sensor
  merge_from_message this s = none
  merge_from_message (sensor from) s = merge_from (other from) s
  merge_from_message (foreign m) s = reflection_merge m s

  -- `CopyFrom(const Message&)`
  unfoldable pub copy_from_message : Given M → Sensor → Option Sensor
  copy_from_message this s = some s
  copy_from_message (sensor from) s = merge_from_message (sensor from) (clear s)
  copy_from_message (foreign m) s = merge_from_message (foreign m) (clear s)

-- A call of a method that changes the message.
pub data Operation (M : Type 0) : Type 0 where
  sets0 sets1 sets2 sets3 sets4 : Float → Operation M
  clears0 clears1 clears2 clears3 clears4 clears sizes : Operation M
  merges copies swaps : Source → Operation M
  merges_message copies_message : Given M → Operation M
  parses : List ℕ → Operation M

-- The parser changes the message also where it fails.
abbrev pub left_by : Parsed → Option Sensor
left_by (success s) = some s
left_by (failure s) = some s
left_by stuck = none

module _ {M : Type 0} (w : Wire) (reflection_merge : M → Sensor → Option Sensor) where
  -- The message behind one call, or `none` if the program is ended.
  unfoldable pub step : Operation M → Sensor → Option Sensor
  step (sets0 v) s = some (set_arg0 v s)
  step (sets1 v) s = some (set_arg1 v s)
  step (sets2 v) s = some (set_arg2 v s)
  step (sets3 v) s = some (set_arg3 v s)
  step (sets4 v) s = some (set_arg4 v s)
  step clears0 s = some (clear_arg0 s)
  step clears1 s = some (clear_arg1 s)
  step clears2 s = some (clear_arg2 s)
  step clears3 s = some (clear_arg3 s)
  step clears4 s = some (clear_arg4 s)
  step clears s = some (clear s)
  step sizes s = some (byte_size s).1
  step (merges from) s = merge_from from s
  step (copies from) s = copy_from from s
  step (swaps with) s = some (swap with s).0
  step (merges_message from) s = merge_from_message reflection_merge from s
  step (copies_message from) s = copy_from_message reflection_merge from s
  step (parses input) s = left_by (merge_partial w input s)

  unfoldable pub run : List (Operation M) → Sensor → Option Sensor
  run [] s = some s
  run (o ∷ os) s = elim (step o s) [ none ↦ none | some s' ↦ run os s' ]
