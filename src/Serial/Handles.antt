-- ===== src/Serial/Handles.antt =====
-- The handles that CSerialPort (NUCServer/NUCServer/SerialPort.cpp) opens and closes.
use myodesignproject.Base.{
  ℕ, ◌≡◌, refl, ◌∙◌, ap, Bool, true, false, Option, none, some, List, [], ◌∷◌,
}
use myodesignproject.Serial.Win32.{Win32 as Api, IsWin32, Dcb, Timeouts}
use myodesignproject.Serial.{
  Settings, Port, closed, configure, configured, with_state, created, open_port, close, destroy,
  purged, timed, read, write, flush, set_timeout, count_read_buff, Call, opens, closes, reads,
  writes, flushes, sets_timeout, counts, step, run,
}

-- The handles of the process, if the rest of it has `base`.
abbrev pub held : Port → List ℕ → List ℕ
held none base = base
held (some h) base = h ∷ base

module _ {W : Type 0} {api : Api W} (lawful : IsWin32 api) (base : List ℕ) where
  -- The port's handle is open, and it is the only one that the port has opened.
  abbrev pub Owned : Port × W → Type 0
  Owned s = lawful.handles s.1 ≡ held s.0 base

  configured-Owned :
      (h : ℕ) (r : Bool × W)
      → lawful.handles r.1 ≡ h ∷ base
      → Owned ((configured api r h).1, (configured api r h).2)
  unfolding configured
  configured-Owned h (true, w) e = e
  configured-Owned h (false, w) e = e

  with_state-Owned :
      (c : Settings) (h : ℕ) (r : Option Dcb × W)
      → lawful.handles r.1 ≡ h ∷ base
      → Owned ((with_state api r c h).1, (with_state api r c h).2)
  unfolding with_state
  with_state-Owned c h (none, w) e = e
  with_state-Owned c h (some d, w) e =
      configured-Owned h (api.set_comm_state (some h) (configure c d) w)
        (lawful.set_comm_state_keeps (some h) (configure c d) w ∙ e)

  created-Owned :
      (name : List ℕ) (c : Settings) (w : W) (r : Option ℕ × W)
      → lawful.handles w ≡ base
      → api.create_file name w ≡ r
      → Owned ((created api r c).1, (created api r c).2)
  unfolding created
  created-Owned name c w (none, w') e r = lawful.create_file_none name w w' r ∙ e
  created-Owned name c w (some h, w') e r =
      let purged = (api.purge_comm (some h) w').1 in
      with_state-Owned c h (api.get_comm_state (some h) purged) (
        lawful.get_comm_state_keeps (some h) purged
        ∙ lawful.purge_comm_keeps (some h) w'
        ∙ lawful.create_file_some name w w' h r
        ∙ ap (λ (hs : List ℕ). h ∷ hs) e)

  pub open_port-Owned :
      (name : List ℕ) (c : Settings) (p : Port) (w : W)
      → Owned (p, w)
      → Owned ((open_port api name c p w).1, (open_port api name c p w).2)
  unfolding open_port
  open_port-Owned name c (some h) w e = e
  open_port-Owned name c none w e = created-Owned name c w (api.create_file name w) e refl

  close-Owned : (p : Port) (w : W) → Owned (p, w) → Owned (close api p w)
  unfolding close
  close-Owned none w e = e
  close-Owned (some h) w e = lawful.close_handle_lem h base w e

  purged-keeps :
      (p : Port) (r : Option ℕ × W) → lawful.handles (purged api r p) ≡ lawful.handles r.1
  unfolding purged
  purged-keeps p (none, w) = refl
  purged-keeps p (some n, w) = lawful.purge_comm_keeps p w

  timed-keeps :
      (r t i : ℕ) (p : Port) (a : Option Timeouts × W)
      → lawful.handles (timed api a r t i p).1 ≡ lawful.handles a.1
  unfolding timed
  timed-keeps r t i p (none, w) = refl
  timed-keeps r t i p (some old, w) = lawful.set_comm_timeouts_keeps p _ w

  -- Every call of a method keeps to that.
  pub step-Owned : (c : Call) (p : Port) (w : W) → Owned (p, w) → Owned (step api c (p, w))
  unfolding step flush set_timeout read write count_read_buff
  step-Owned (opens name c) p w e = open_port-Owned name c p w e
  step-Owned closes p w e = close-Owned p w e
  step-Owned (reads max) p w e = lawful.read_file_keeps p max w ∙ e
  step-Owned (writes bytes) p w e = lawful.write_file_keeps p bytes w ∙ e
  step-Owned flushes p w e =
      purged-keeps p (api.clear_comm_error p w) ∙ lawful.clear_comm_error_keeps p w ∙ e
  step-Owned (sets_timeout r t i) p w e =
      timed-keeps r t i p (api.get_comm_timeouts p w) ∙ lawful.get_comm_timeouts_keeps p w ∙ e
  step-Owned counts p w e = lawful.clear_comm_error_keeps p w ∙ e

  run-Owned : (cs : List Call) (p : Port) (w : W) → Owned (p, w) → Owned (run api cs (p, w))
  unfolding run
  run-Owned [] p w e = e
  run-Owned (c ∷ cs) p w e =
      run-Owned cs (step api c (p, w)).0 (step api c (p, w)).1 (step-Owned c p w e)

  pub destroy-Owned : (p : Port) (w : W) → Owned (p, w) → lawful.handles (destroy api p w) ≡ base
  unfolding destroy close
  destroy-Owned none w e = e
  destroy-Owned (some h) w e = lawful.close_handle_lem h base w e

  -- With a system that keeps to IsWin32: for any sequence of calls of the methods of CSerialPort
  -- on a new port, with any failures of the Windows calls: beyond the handles that were open
  -- before, only the handle that the port holds is open, and after the destructor none is.
  pub run_no_leak :
      (cs : List Call) (w : W)
      → lawful.handles w ≡ base
      → (lawful.handles (run api cs (closed, w)).1 ≡ held (run api cs (closed, w)).0 base)
        × (lawful.handles (destroy api (run api cs (closed, w)).0 (run api cs (closed, w)).1)
            ≡ base)
  run_no_leak cs w e =
      let owned = run-Owned cs closed w e in
      (owned, destroy-Owned (run api cs (closed, w)).0 (run api cs (closed, w)).1 owned)
