-- ===== src/Serial.antt =====
-- The class CSerialPort: NUCServer/NUCServer/SerialPort.{h,cpp}, of which MyoNucMotor/MyoNucMotor
-- and MyoWin/MyoWin hold copies with the same code. The Windows calls are the record `Win32` of
-- functions on a state `W` of the operating system; a handle is a number, and
-- INVALID_HANDLE_VALUE is `none`. What is printed on errors is not modelled, but for the text of
-- GetLastErrorString in Serial/Errors.
pub mod Win32
pub mod Handles
pub mod Results
pub mod Errors
pub mod Echo
pub mod Tests
use myodesignproject.Base.{
  ℕ, Bool, true, false, Option, none, some, List, [], ◌∷◌, if◌then◌else◌, length,
}
use myodesignproject.Base.Int.{ℤ, pos, negsuc}
use Win32.{Win32 as Api, Dcb, Timeouts}

-- The arguments of `Open` behind the name, in the order of its declaration.
pub record Settings : Type 0 where
  pub baud_rate : ℕ
  pub data_bits : ℕ
  pub parity : ℕ
  pub stop_bits : ℕ

-- The assignments to `dcbSerialParams`; DTR_CONTROL_DISABLE and RTS_CONTROL_DISABLE are 0.
unfoldable pub configure : Settings → Dcb → Dcb
configure c d = record d {
  baud_rate = c.baud_rate;
  byte_size = c.data_bits;
  parity = c.parity;
  stop_bits = c.stop_bits;
  f_binary = true;
  f_dsr_sensitivity = false;
  f_parity = false;
  f_out_x = false;
  f_in_x = false;
  f_null = false;
  f_abort_on_error = false;
  f_outx_cts_flow = false;
  f_outx_dsr_flow = false;
  f_dtr_control = 0;
  f_rts_control = 0;
}

-- The timeouts of `SetTimeout(readTimeout, writeTimeout, readIntervalTimeout)`.
unfoldable pub set_times : ℕ → ℕ → ℕ → Timeouts → Timeouts
set_times read write interval t = record t {
  read_interval_timeout = interval;
  read_total_timeout_multiplier = 0;
  read_total_timeout_constant = read;
  write_total_timeout_multiplier = 0;
  write_total_timeout_constant = write;
}

-- `_hSerial` after the constructor.
abbrev pub Port : Type 0
Port = Option ℕ

abbrev pub closed : Port
closed = none

abbrev pub read_result : Option (List ℕ) → ℤ × List ℕ
read_result none = (negsuc 0, [])
read_result (some bytes) = (pos (length bytes), bytes)

abbrev pub count_result : Option ℕ → ℤ
count_result none = negsuc 0
count_result (some n) = pos n

module _ {W : Type 0} (api : Api W) where
  -- The part of `Open` behind the answer of GetCommState, and behind that of SetCommState.
  unfoldable pub configured : Bool × W → ℕ → Bool × Port × W
  configured (true, w) h = (true, some h, w)
  configured (false, w) h = (false, some h, w)

  unfoldable pub with_state : Option Dcb × W → Settings → ℕ → Bool × Port × W
  unfolding configured configure
  with_state (none, w) c h = (false, some h, w)
  with_state (some d, w) c h = configured (api.set_comm_state (some h) (configure c d) w) h

  unfoldable pub created : Option ℕ × W → Settings → Bool × Port × W
  unfolding with_state
  created (none, w) c = (false, none, w)
  created (some h, w) c =
      let clean = (api.purge_comm (some h) w).1 in
      with_state (api.get_comm_state (some h) clean) c h

  unfoldable pub open_port : List ℕ → Settings → Port → W → Bool × Port × W
  unfolding created
  open_port name c (some h) w = (false, some h, w)
  open_port name c none w = created (api.create_file name w) c

  unfoldable pub close : Port → W → Port × W
  close (some h) w = (none, api.close_handle h w)
  close none w = (none, w)

  -- The destructor.
  unfoldable pub destroy : Port → W → W
  unfolding close
  destroy p w = (close p w).1

  -- `Read`: the number of bytes, or -1, with the bytes that were stored in `data`.
  unfoldable pub read : ℕ → Port → W → (ℤ × List ℕ) × W
  read max p w = let (answer, w') = api.read_file p max w in (read_result answer, w')

  unfoldable pub write : List ℕ → Port → W → ℤ × W
  write bytes p w = let (answer, w') = api.write_file p bytes w in (count_result answer, w')

  -- `Flush`: PurgeComm only if ClearCommError succeeds.
  unfoldable pub purged : Option ℕ × W → Port → W
  purged (none, w) p = w
  purged (some n, w) p = (api.purge_comm p w).1

  unfoldable pub flush : Port → W → W
  unfolding purged
  flush p w = purged (api.clear_comm_error p w) p

  unfoldable pub timed : Option Timeouts × W → ℕ → ℕ → ℕ → Port → Bool × W
  unfolding set_times
  timed (none, w) r t i p = (false, w)
  timed (some old, w) r t i p = api.set_comm_timeouts p (set_times r t i old) w

  -- `SetTimeout(readTimeout, writeTimeout, readIntervalTimeout)`
  unfoldable pub set_timeout : ℕ → ℕ → ℕ → Port → W → Bool × W
  unfolding timed
  set_timeout r t i p w = timed (api.get_comm_timeouts p w) r t i p

  unfoldable pub count_read_buff : Port → W → ℤ × W
  count_read_buff p w = let (answer, w') = api.clear_comm_error p w in (count_result answer, w')

-- The public methods, and a sequence of calls on one port.
pub data Call : Type 0 where
  opens : List ℕ → Settings → Call
  closes : Call
  reads : ℕ → Call
  writes : List ℕ → Call
  flushes : Call
  sets_timeout : ℕ → ℕ → ℕ → Call
  counts : Call

module _ {W : Type 0} (api : Api W) where
  unfoldable pub step : Call → Port × W → Port × W
  unfolding open_port close read write flush set_timeout count_read_buff
  step (opens name c) (p, w) = let (ok, p', w') = open_port api name c p w in (p', w')
  step closes (p, w) = close api p w
  step (reads max) (p, w) = (p, (read api max p w).1)
  step (writes bytes) (p, w) = (p, (write api bytes p w).1)
  step flushes (p, w) = (p, flush api p w)
  step (sets_timeout r t i) (p, w) = (p, (set_timeout api r t i p w).1)
  step counts (p, w) = (p, (count_read_buff api p w).1)

  unfoldable pub run : List Call → Port × W → Port × W
  unfolding step
  run [] s = s
  run (c ∷ cs) s = run cs (step c s)
