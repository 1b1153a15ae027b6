-- ===== src/Serial/Win32.antt =====
-- The calls of the Windows API that CSerialPort makes (NUCServer/NUCServer/SerialPort.cpp), on a
-- state `W` of the operating system, and what the proofs rely on of them.
use myodesignproject.Base.{ℕ, ◌≤◌, ◌≡◌, Bool, Option, none, some, List, ◌∷◌, length}

-- The fields of DCB and of COMMTIMEOUTS that the class names.
pub record Dcb : Type 0 where
  pub baud_rate : ℕ
  pub byte_size : ℕ
  pub parity : ℕ
  pub stop_bits : ℕ
  pub f_binary : Bool
  pub f_dsr_sensitivity : Bool
  pub f_parity : Bool
  pub f_out_x : Bool
  pub f_in_x : Bool
  pub f_null : Bool
  pub f_abort_on_error : Bool
  pub f_outx_cts_flow : Bool
  pub f_outx_dsr_flow : Bool
  pub f_dtr_control : ℕ
  pub f_rts_control : ℕ

pub record Timeouts : Type 0 where
  pub read_interval_timeout : ℕ
  pub read_total_timeout_multiplier : ℕ
  pub read_total_timeout_constant : ℕ
  pub write_total_timeout_multiplier : ℕ
  pub write_total_timeout_constant : ℕ

-- `none` and `false` are failed calls; a handle of `none` is INVALID_HANDLE_VALUE.
pub record Win32 (W : Type 0) : Type 0 where
  pub create_file : List ℕ → W → Option ℕ × W
  pub close_handle : ℕ → W → W
  pub purge_comm : Option ℕ → W → Bool × W
  pub get_comm_state : Option ℕ → W → Option Dcb × W
  pub set_comm_state : Option ℕ → Dcb → W → Bool × W
  -- the bytes that ReadFile stores
  pub read_file : Option ℕ → ℕ → W → Option (List ℕ) × W
  -- the number of bytes that WriteFile wrote
  pub write_file : Option ℕ → List ℕ → W → Option ℕ × W
  -- cbInQue
  pub clear_comm_error : Option ℕ → W → Option ℕ × W
  pub get_comm_timeouts : Option ℕ → W → Option Timeouts × W
  pub set_comm_timeouts : Option ℕ → Timeouts → W → Bool × W

-- `handles w` are the open handles of the process, the latest first. CreateFile adds one if it
-- succeeds, CloseHandle takes it away, and no other call changes them.
pub record IsWin32 {W : Type 0} (api : Win32 W) : Type 0 where
  pub handles : W → List ℕ
  pub create_file_some :
      (name : List ℕ) (w w' : W) (h : ℕ)
      → api.create_file name w ≡ (some h, w')
      → handles w' ≡ h ∷ handles w
  pub create_file_none :
      (name : List ℕ) (w w' : W) → api.create_file name w ≡ (none, w') → handles w' ≡ handles w
  pub close_handle_lem :
      (h : ℕ) (hs : List ℕ) (w : W) → handles w ≡ h ∷ hs → handles (api.close_handle h w) ≡ hs
  pub purge_comm_keeps : (p : Option ℕ) (w : W) → handles (api.purge_comm p w).1 ≡ handles w
  pub get_comm_state_keeps : (p : Option ℕ) (w : W) → handles (api.get_comm_state p w).1 ≡ handles w
  pub set_comm_state_keeps :
      (p : Option ℕ) (d : Dcb) (w : W) → handles (api.set_comm_state p d w).1 ≡ handles w
  pub read_file_keeps :
      (p : Option ℕ) (max : ℕ) (w : W) → handles (api.read_file p max w).1 ≡ handles w
  pub write_file_keeps :
      (p : Option ℕ) (bytes : List ℕ) (w : W) → handles (api.write_file p bytes w).1 ≡ handles w
  pub clear_comm_error_keeps :
      (p : Option ℕ) (w : W) → handles (api.clear_comm_error p w).1 ≡ handles w
  pub get_comm_timeouts_keeps :
      (p : Option ℕ) (w : W) → handles (api.get_comm_timeouts p w).1 ≡ handles w
  pub set_comm_timeouts_keeps :
      (p : Option ℕ) (t : Timeouts) (w : W) → handles (api.set_comm_timeouts p t w).1 ≡ handles w
  -- ReadFile stores no more bytes than it is asked for.
  pub read_file_bound :
      (p : Option ℕ) (max : ℕ) (w w' : W) (bytes : List ℕ)
      → api.read_file p max w ≡ (some bytes, w')
      → length bytes ≤ max
