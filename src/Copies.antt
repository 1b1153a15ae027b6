-- ===== src/Copies.antt =====
-- The files that stand in the repository more than once. MyoNucMotor/MyoNucMotor holds byte for byte
-- the SerialPort.{h,cpp} and data.pb.{h,cc} of NUCServer/NUCServer; MyoWin/MyoWin/SerialPort.cpp has
-- one include line more, and MyoWin/MyoWin/DataCollector.cpp differs from that of
-- MyoNucMotor/MyoNucMotor in the last branch of `onOrientationData` alone. These names are the
-- operations of the copies.
use myodesignproject.Base.{ℕ, Bool, Option, List}
use myodesignproject.Sensor.{
  Float, Sensor, Source, Target, shared_ctor, init_as_default_instance, set_arg0, set_arg1,
  set_arg2, set_arg3, set_arg4, clear_arg0, clear_arg1, clear_arg2, clear_arg3, clear_arg4, clear,
  merge_from, copy_from, copy_constructor, swap, internal_swap, byte_size, serialize,
  serialize_to_array,
}
use myodesignproject.Sensor.WireFormat.{Wire}
use myodesignproject.Sensor.Parse.{Parsed, merge_partial}
use myodesignproject.Sensor.Operations.{
  Given, set_cached_size, merge_from_message, copy_from_message,
}
use myodesignproject.Serial.Win32.{Win32}
use myodesignproject.Serial.{
  Settings, Port, Call, closed, open_port, close, destroy, read, write, flush, set_timeout,
  count_read_buff,
}
use myodesignproject.Serial.Errors.{get_last_error_string}
use myodesignproject.Serial.Echo.{Test, echo_round, echo_main}
use myodesignproject.Rounds.{Result}
use myodesignproject.Collector.Print.{print}
use myodesignproject.Base.Int.{ℤ}
use myodesignproject.Collector.Sdk.{Sdk}
use myodesignproject.Collector.{Collector, Request, initial, on_pose, is_update_reference}

-- MyoNucMotor/MyoNucMotor/data.pb.cc
abbrev pub motor_shared_ctor : Sensor
motor_shared_ctor = shared_ctor

abbrev pub motor_init_as_default_instance : Sensor → Sensor
motor_init_as_default_instance = init_as_default_instance

abbrev pub motor_copy_constructor : Sensor → Option Sensor
motor_copy_constructor = copy_constructor

abbrev pub motor_clear : Sensor → Sensor
motor_clear = clear

abbrev pub motor_merge_partial : Wire → List ℕ → Sensor → Parsed
motor_merge_partial = merge_partial

abbrev pub motor_serialize : Wire → Sensor → List ℕ → List ℕ
motor_serialize = serialize

abbrev pub motor_serialize_to_array : Wire → Sensor → Target → Option Target
motor_serialize_to_array = serialize_to_array

abbrev pub motor_byte_size : Sensor → ℕ × Sensor
motor_byte_size = byte_size

abbrev pub motor_merge_from : Source → Sensor → Option Sensor
motor_merge_from = merge_from

abbrev pub motor_copy_from : Source → Sensor → Option Sensor
motor_copy_from = copy_from

abbrev pub motor_clear_arg0 : Sensor → Sensor
motor_clear_arg0 = clear_arg0

abbrev pub motor_clear_arg1 : Sensor → Sensor
motor_clear_arg1 = clear_arg1

abbrev pub motor_clear_arg2 : Sensor → Sensor
motor_clear_arg2 = clear_arg2

abbrev pub motor_clear_arg3 : Sensor → Sensor
motor_clear_arg3 = clear_arg3

abbrev pub motor_clear_arg4 : Sensor → Sensor
motor_clear_arg4 = clear_arg4

abbrev pub motor_set_cached_size : ℕ → Sensor → Sensor
motor_set_cached_size = set_cached_size

abbrev pub motor_merge_from_message :
    {M : Type 0} → (M → Sensor → Option Sensor) → Given M → Sensor → Option Sensor
motor_merge_from_message = merge_from_message

abbrev pub motor_copy_from_message :
    {M : Type 0} → (M → Sensor → Option Sensor) → Given M → Sensor → Option Sensor
motor_copy_from_message = copy_from_message

abbrev pub motor_swap : Source → Sensor → Sensor × Source
motor_swap = swap

abbrev pub motor_internal_swap : Sensor → Sensor → Sensor × Sensor
motor_internal_swap = internal_swap

abbrev pub motor_set_arg0 : Float → Sensor → Sensor
motor_set_arg0 = set_arg0

abbrev pub motor_set_arg1 : Float → Sensor → Sensor
motor_set_arg1 = set_arg1

abbrev pub motor_set_arg2 : Float → Sensor → Sensor
motor_set_arg2 = set_arg2

abbrev pub motor_set_arg3 : Float → Sensor → Sensor
motor_set_arg3 = set_arg3

abbrev pub motor_set_arg4 : Float → Sensor → Sensor
motor_set_arg4 = set_arg4

-- The two other copies of SerialPort.cpp
abbrev pub MotorCall : Type 0
MotorCall = Call

abbrev pub motor_closed : Port
motor_closed = closed

abbrev pub motor_get_last_error_string :
    (ℕ → ℕ → Option (List ℕ)) → ℕ → List ℕ → Result (List ℕ × List ℕ)
motor_get_last_error_string = get_last_error_string

abbrev pub WinCall : Type 0
WinCall = Call

abbrev pub win_closed : Port
win_closed = closed

abbrev pub win_get_last_error_string :
    (ℕ → ℕ → Option (List ℕ)) → ℕ → List ℕ → Result (List ℕ × List ℕ)
win_get_last_error_string = get_last_error_string

module _ {W : Type 0} (api : Win32 W) where
  abbrev pub motor_open_port : List ℕ → Settings → Port → W → Bool × Port × W
  motor_open_port = open_port api

  abbrev pub motor_close : Port → W → Port × W
  motor_close = close api

  abbrev pub motor_destroy : Port → W → W
  motor_destroy = destroy api

  abbrev pub motor_read : ℕ → Port → W → (ℤ × List ℕ) × W
  motor_read = read api

  abbrev pub motor_write : List ℕ → Port → W → ℤ × W
  motor_write = write api

  abbrev pub motor_flush : Port → W → W
  motor_flush = flush api

  abbrev pub motor_set_timeout : ℕ → ℕ → ℕ → Port → W → Bool × W
  motor_set_timeout = set_timeout api

  abbrev pub motor_count_read_buff : Port → W → ℤ × W
  motor_count_read_buff = count_read_buff api

  abbrev pub win_open_port : List ℕ → Settings → Port → W → Bool × Port × W
  win_open_port = open_port api

  abbrev pub win_close : Port → W → Port × W
  win_close = close api

  abbrev pub win_destroy : Port → W → W
  win_destroy = destroy api

  abbrev pub win_read : ℕ → Port → W → (ℤ × List ℕ) × W
  win_read = read api

  abbrev pub win_write : List ℕ → Port → W → ℤ × W
  win_write = write api

  abbrev pub win_flush : Port → W → W
  win_flush = flush api

  abbrev pub win_set_timeout : ℕ → ℕ → ℕ → Port → W → Bool × W
  win_set_timeout = set_timeout api

  abbrev pub win_count_read_buff : Port → W → ℤ × W
  win_count_read_buff = count_read_buff api

-- MyoWin/MyoWin/SerialPortTest.cpp
module _ {W : Type 0} (api : Win32 W) where
  abbrev pub win_echo_round : List ℕ → Test W → Result (Test W × List ℕ)
  win_echo_round = echo_round api

  abbrev pub win_echo_main : List (List ℕ) → List ℕ → W → Result (Test W × List (List ℕ))
  win_echo_main = echo_main api

-- The parts of MyoWin/MyoWin/DataCollector.cpp that are the same
module _ (sdk : Sdk) where
  abbrev pub WinCollector : Type 0
  WinCollector = Collector sdk

  abbrev pub win_print : Collector sdk → List ℕ
  win_print = print sdk

  abbrev pub win_initial : Collector sdk
  win_initial = initial sdk

  abbrev pub win_on_pose : sdk.Pose → Collector sdk → Collector sdk × List Request
  win_on_pose = on_pose sdk

  abbrev pub win_is_update_reference : sdk.Float → Collector sdk → Bool
  win_is_update_reference = is_update_reference sdk
