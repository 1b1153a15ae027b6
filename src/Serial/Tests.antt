-- ===== src/Serial/Tests.antt =====
-- CSerialPort (NUCServer/NUCServer/SerialPort.cpp) on a small operating system, whose state is the
-- list of the open handles.
use myodesignproject.Base.{
  ℕ, zero, suc, ltb, ◌≤◌, ◌<◌, ◌≡◌, refl, sym, ap, Bool, true, false, Option, none, some, List, [],
  ◌∷◌, arith, length, take, length-take, ◌==◌, if◌then◌else◌,
}
use myodesignproject.Serial.Win32.{Win32 as Api, IsWin32, Dcb, Timeouts}
use myodesignproject.Serial.{
  Settings, closed, opens, closes, reads, open_port, close, run, destroy, created, with_state,
  configured,
}
use myodesignproject.Serial.Handles.{held, run_no_leak}
use myodesignproject.Serial.Errors.{get_last_error_string, texts_of, error_texts}
use myodesignproject.Serial.Echo.{Test, FailsClosed, echo_main, echoes, echo_main-echoes}
use myodesignproject.Text.{c_string}
use myodesignproject.Text.Laws.{Lacks}
use myodesignproject.Rounds.{ok, rounds}
use myodesignproject.Serial.Results.{Remembers, LineHas, open_port_sets, open_port_twice}

abbrev pub create : List ℕ → List ℕ → Option ℕ × List ℕ
create [] w = (none, w)
create (c ∷ name) w = (some (length w), length w ∷ w)

abbrev forget : ℕ → List ℕ → List ℕ
forget h [] = []
forget h (x ∷ w) = if x == h then w else x ∷ forget h w

abbrev plain_dcb : Dcb
plain_dcb = record {
  baud_rate = 0;
  byte_size = 0;
  parity = 0;
  stop_bits = 0;
  f_binary = true;
  f_dsr_sensitivity = false;
  f_parity = false;
  f_out_x = false;
  f_in_x = false;
  f_null = false;
  f_abort_on_error = false;
  f_outx_cts_flow = false;
  f_outx_dsr_flow = false;
  f_dtr_control = 1;
  f_rts_control = 1;
}

abbrev no_timeouts : Timeouts
no_timeouts = record {
  read_interval_timeout = 0;
  read_total_timeout_multiplier = 0;
  read_total_timeout_constant = 0;
  write_total_timeout_multiplier = 0;
  write_total_timeout_constant = 0;
}

-- Calls without a handle fail.
abbrev with_handle {ℓ} : {A : Type ℓ} → Option ℕ → A → Option A
with_handle none a = none
with_handle (some h) a = some a

abbrev pub small : Api (List ℕ)
small = record {
  create_file = create;
  close_handle = forget;
  purge_comm = λ p w. (true, w);
  get_comm_state = λ p w. (with_handle p plain_dcb, w);
  set_comm_state = λ p d w. (true, w);
  read_file = λ p max w. (with_handle p (take max (55 ∷ 10 ∷ [])), w);
  write_file = λ p bytes w. (with_handle p (length bytes), w);
  clear_comm_error = λ p w. (with_handle p 0, w);
  get_comm_timeouts = λ p w. (with_handle p no_timeouts, w);
  set_comm_timeouts = λ p t w. (true, w);
}

create-some : (name w w' : List ℕ) (h : ℕ) → create name w ≡ (some h, w') → w' ≡ h ∷ w
create-some [] w w' h e = cc
create-some (c ∷ name) w w' h e = ground arith

create-none : (name w w' : List ℕ) → create name w ≡ (none, w') → w' ≡ w
create-none [] w w' e = ground arith
create-none (c ∷ name) w w' e = cc

forget-latest : (h : ℕ) (hs w : List ℕ) → w ≡ h ∷ hs → forget h w ≡ hs
forget-latest h hs w e = rw e (ground arith)

read_file-bound :
    (p : Option ℕ) (max : ℕ) (w w' bytes : List ℕ)
    → small.read_file p max w ≡ (some bytes, w')
    → length bytes ≤ max
read_file-bound none max w w' bytes e = cc
read_file-bound (some h) max w w' bytes e = ground (arith, length-take {A = ℕ} max (55 ∷ 10 ∷ []))

pub small-IsWin32 : IsWin32 small
small-IsWin32 = record {
  handles = λ w. w;
  create_file_some = create-some;
  create_file_none = create-none;
  close_handle_lem = forget-latest;
  purge_comm_keeps = λ p w. refl;
  get_comm_state_keeps = λ p w. refl;
  set_comm_state_keeps = λ p d w. refl;
  read_file_keeps = λ p max w. refl;
  write_file_keeps = λ p bytes w. refl;
  clear_comm_error_keeps = λ p w. refl;
  get_comm_timeouts_keeps = λ p w. refl;
  set_comm_timeouts_keeps = λ p t w. refl;
  read_file_bound = read_file-bound;
}

pub small-handles : (w : List ℕ) → small-IsWin32.handles w ≡ w
unfolding small-IsWin32
small-handles w = refl

abbrev settings : Settings
settings = record { baud_rate = 9600; data_bits = 8; parity = 0; stop_bits = 0 }

-- Opened, read, opened again, closed and opened once more: one handle is open.
runs :
    run small
      (opens (67 ∷ []) settings
        ∷ reads 1024
        ∷ opens (68 ∷ []) settings
        ∷ closes
        ∷ opens (69 ∷ []) settings
        ∷ [])
      (closed, 7 ∷ [])
    ≡ (some 1, 1 ∷ 7 ∷ [])
unfolding run
runs = refl

run_no_leak_example :
    let s = run small (opens (67 ∷ []) settings ∷ reads 1024 ∷ []) (closed, 7 ∷ []) in
    (s.1 ≡ held s.0 (7 ∷ [])) × (destroy small s.0 s.1 ≡ 7 ∷ [])
unfolding small-IsWin32
run_no_leak_example =
    run_no_leak small-IsWin32 (7 ∷ []) (opens (67 ∷ []) settings ∷ reads 1024 ∷ []) (7 ∷ []) refl

-- A system with one handle that keeps the state of its line.
abbrev line : Api Dcb
line = record {
  create_file = λ name w. (some 3, w);
  close_handle = λ h w. w;
  purge_comm = λ p w. (true, w);
  get_comm_state = λ p w. (with_handle p w, w);
  set_comm_state = λ p d w. (true, d);
  read_file = λ p max w. (none, w);
  write_file = λ p bytes w. (none, w);
  clear_comm_error = λ p w. (with_handle p 0, w);
  get_comm_timeouts = λ p w. (none, w);
  set_comm_timeouts = λ p t w. (true, w);
}

line-Remembers : Remembers line
line-Remembers h d w w' e = ap (λ (r : Bool × Dcb). some r.1) (sym e)

abbrev set_line : Dcb
set_line = (open_port line (67 ∷ []) settings none plain_dcb).2

opened : open_port line (67 ∷ []) settings none plain_dcb ≡ (true, some 3, set_line)
unfolding open_port created with_state configured
opened = refl

open_port_sets_example :
    (closed ≡ none) × ((h : ℕ) × (some 3 ≡ some h) × LineHas line settings h set_line)
open_port_sets_example =
    open_port_sets line line-Remembers (67 ∷ []) settings none (some 3) plain_dcb set_line opened

open_port_twice_example :
    let first = open_port small (67 ∷ []) settings none [] in
    (first.1 ≡ some 0)
    × (open_port small (68 ∷ []) settings first.1 first.2 ≡ (false, first.1, first.2))
    × ((close small first.1 first.2).0 ≡ none)
open_port_twice_example =
    open_port_twice small (67 ∷ []) (68 ∷ []) settings settings [] (0 ∷ []) 0 refl

-- Two errors have a text, which has room in eight characters.
abbrev messages : ℕ → ℕ → Option (List ℕ)
messages n code =
    if ltb n 8
    then none
    else if code == 2
    then some (78 ∷ 111 ∷ [])
    else if code == 5
    then some (79 ∷ 110 ∷ 99 ∷ 101 ∷ [])
    else none

messages-short : (n code : ℕ) (text : List ℕ) → messages n code ≡ some text → length text < n
messages-short n code text e = ground arith

messages-clean : (n code : ℕ) (text : List ℕ) → messages n code ≡ some text → Lacks 0 text
messages-clean n code text e = ground arith

unfoldable pub zeros : ℕ → List ℕ
zeros zero = []
zeros (suc n) = 0 ∷ zeros n

pub length-zeros : (n : ℕ) → length (zeros n) ≡ n
unfolding zeros
length-zeros zero = refl
length-zeros (suc n) = omega (arith, length-zeros n)

zeros-text : c_string (zeros 1024) ≡ some []
unfolding zeros c_string
zeros-text = refl

error_texts_example :
    (b : List ℕ) × (rounds (get_last_error_string messages) (2 ∷ 7 ∷ 5 ∷ []) (zeros 1024)
      ≡ ok (b, texts_of messages [] (2 ∷ 7 ∷ 5 ∷ [])))
error_texts_example =
    error_texts messages 1024 (omega arith) messages-short messages-clean (2 ∷ 7 ∷ 5 ∷ []) []
      (zeros 1024) (record { sized = length-zeros 1024; reads = zeros-text })

small-FailsClosed : FailsClosed small
small-FailsClosed max w = (w, refl)

echo_main-echoes_example :
    (t : Test (List ℕ)) × (echo_main small ((72 ∷ 105 ∷ []) ∷ [] ∷ []) (1 ∷ 2 ∷ 3 ∷ 4 ∷ []) []
      ≡ ok (t, echoes ((72 ∷ 105 ∷ []) ∷ [] ∷ [])))
echo_main-echoes_example =
    echo_main-echoes small small-FailsClosed 4 ((72 ∷ 105 ∷ []) ∷ [] ∷ []) (1 ∷ 2 ∷ 3 ∷ 4 ∷ []) []
      refl (omega arith, ((λ e. cc), ((λ e. cc), tt)), (omega arith, tt, tt))
