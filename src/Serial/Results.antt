-- ===== src/Serial/Results.antt =====
-- What the methods of CSerialPort (NUCServer/NUCServer/SerialPort.cpp) return.
use myodesignproject.Base.{
  ℕ, ◌≤◌, ◌≡◌, refl, Bool, true, false, Option, none, some, List, length, arith, ◌⊎◌, inl, inr,
}
use myodesignproject.Base.Int.{pos, negsuc}
use myodesignproject.Serial.Win32.{Win32 as Api, IsWin32, Dcb}
use myodesignproject.Serial.{
  Settings, Port, configure, configured, with_state, created, open_port, close, read, read_result,
}

module _ {W : Type 0} (api : Api W) where
  -- The handle was created, its state was read, and the state with the wanted settings was set.
  abbrev pub Configured : List ℕ → Settings → W → ℕ → W → Type 0
  Configured name c w h w' =
      (w1 : W) × (d : Dcb) × (w2 : W) × (api.create_file name w ≡ (some h, w1))
      × (api.get_comm_state (some h) (api.purge_comm (some h) w1).1 ≡ (some d, w2))
      × (api.set_comm_state (some h) (configure c d) w2 ≡ (true, w'))

  configured-true :
      (r : Bool × W) (h : ℕ) (p' : Port) (w' : W)
      → configured api r h ≡ (true, p', w')
      → (p' ≡ some h) × (r ≡ (true, w'))
  unfolding configured
  configured-true (true, w) h p' w' e = ground arith
  configured-true (false, w) h p' w' e = cc

  with_state-true :
      (r : Option Dcb × W) (c : Settings) (h : ℕ) (p' : Port) (w' : W)
      → with_state api r c h ≡ (true, p', w')
      → (d : Dcb) × (w2 : W) × (p' ≡ some h)
        × (r ≡ (some d, w2))
        × (api.set_comm_state (some h) (configure c d) w2 ≡ (true, w'))
  unfolding with_state
  with_state-true (none, w) c h p' w' e = cc
  with_state-true (some d, w) c h p' w' e =
      let (q, r) = configured-true (api.set_comm_state (some h) (configure c d) w) h p' w' e in
      (d, w, q, refl, r)

  created-true :
      (name : List ℕ) (c : Settings) (w : W) (r : Option ℕ × W) (p' : Port) (w' : W)
      → api.create_file name w ≡ r
      → created api r c ≡ (true, p', w')
      → (h : ℕ) × (p' ≡ some h) × Configured name c w h w'
  unfolding created
  created-true name c w (none, w1) p' w' e r = cc
  created-true name c w (some h, w1) p' w' e r =
      let (d, w2, q, got, set) =
        with_state-true (api.get_comm_state (some h) (api.purge_comm (some h) w1).1) c h p' w' r in
      (h, q, (w1, d, w2, e, got, set))

  -- Open returns true only on a closed port: a new handle was created, its state was read, and
  -- SetCommState succeeded with that state changed to the wanted settings.
  pub open_port-true :
      (name : List ℕ) (c : Settings) (p p' : Port) (w w' : W)
      → open_port api name c p w ≡ (true, p', w')
      → (p ≡ none) × ((h : ℕ) × (p' ≡ some h) × Configured name c w h w')
  unfolding open_port
  open_port-true name c (some h) p' w w' e = cc
  open_port-true name c none p' w w' e =
      (refl, created-true name c w (api.create_file name w) p' w' refl e)

  -- A system that answers the state that was set last.
  abbrev pub Remembers : Type 0
  Remembers =
      (h : ℕ) (d : Dcb) (w w' : W)
      → api.set_comm_state (some h) d w ≡ (true, w')
      → (api.get_comm_state (some h) w').0 ≡ some d

  -- The state of the line on a handle.
  pub record LineHas (c : Settings) (h : ℕ) (w : W) : Type 0 where
    pub state : Dcb
    pub answered : (api.get_comm_state (some h) w).0 ≡ some state
    pub has_baud_rate : state.baud_rate ≡ c.baud_rate
    pub has_data_bits : state.byte_size ≡ c.data_bits
    pub has_parity : state.parity ≡ c.parity
    pub has_stop_bits : state.stop_bits ≡ c.stop_bits
    pub is_binary : state.f_binary ≡ true
    pub no_parity_check : state.f_parity ≡ false
    pub no_out_x : state.f_out_x ≡ false
    pub no_in_x : state.f_in_x ≡ false
    pub no_null : state.f_null ≡ false
    pub no_abort : state.f_abort_on_error ≡ false
    pub no_cts : state.f_outx_cts_flow ≡ false
    pub no_dsr : state.f_outx_dsr_flow ≡ false
    pub no_dsr_sensitivity : state.f_dsr_sensitivity ≡ false
    pub dtr_disabled : state.f_dtr_control ≡ 0
    pub rts_disabled : state.f_rts_control ≡ 0

  -- With a system on which GetCommState answers the state that SetCommState set last: Open returns
  -- true only on a closed port, which then holds a handle, and the state of the line on that
  -- handle has the wanted baud rate, data bits, parity and stop bits, is binary, has no parity
  -- check, flow control, null stripping or abort on errors, and has DTR and RTS disabled.
  pub open_port_sets :
      Remembers
      → (name : List ℕ) (c : Settings) (p p' : Port) (w w' : W)
      → open_port api name c p w ≡ (true, p', w')
      → (p ≡ none) × ((h : ℕ) × (p' ≡ some h) × LineHas c h w')
  unfolding configure
  open_port_sets remembers name c p p' w w' e =
      let (closed_before, (h, held, (w1, d, w2, made, got, set))) =
        open_port-true name c p p' w w' e in
      (
        closed_before,
        (
          h,
          held,
          record {
            state = configure c d;
            answered = remembers h (configure c d) w2 w' set;
            has_baud_rate = refl;
            has_data_bits = refl;
            has_parity = refl;
            has_stop_bits = refl;
            is_binary = refl;
            no_parity_check = refl;
            no_out_x = refl;
            no_in_x = refl;
            no_null = refl;
            no_abort = refl;
            no_cts = refl;
            no_dsr = refl;
            no_dsr_sensitivity = refl;
            dtr_disabled = refl;
            rts_disabled = refl;
          },
        ),
      )

  with_state_taken : (r : Option Dcb × W) (c : Settings) (h : ℕ) → (with_state api r c h).1 ≡ some h
  unfolding with_state configured
  with_state_taken (none, w) c h = refl
  with_state_taken (some d, w) c h = answered (api.set_comm_state (some h) (configure c d) w)
    where
      answered : (r : Bool × W) → (configured api r h).1 ≡ some h
      answered (true, w) = refl
      answered (false, w) = refl

  -- Once CreateFile has succeeded the port holds the handle, also if Open returns false: another
  -- Open fails and changes nothing, and Close frees the port.
  pub open_port_twice :
      (name again : List ℕ) (c d : Settings) (w w1 : W) (h : ℕ)
      → api.create_file name w ≡ (some h, w1)
      → let first = open_port api name c none w in
        (first.1 ≡ some h)
        × (open_port api again d first.1 first.2 ≡ (false, first.1, first.2))
        × ((close api first.1 first.2).0 ≡ none)
  unfolding open_port created close
  open_port_twice name again c d w w1 h e =
      let taken =
        with_state_taken (api.get_comm_state (some h) (api.purge_comm (some h) w1).1) c h in
      rw (e, created, taken) (refl, refl, refl)

  -- With a system that keeps to IsWin32: Read returns -1 and stores nothing, or it returns the
  -- number of the bytes that it stored, which is at most the number asked for.
  pub read_bounds :
      IsWin32 api
      → (max : ℕ) (p : Port) (w : W)
      → let (result, stored) = (read api max p w).0 in
        ((result ≡ negsuc 0) × (length stored ≡ 0))
        ⊎ ((result ≡ pos (length stored)) × (length stored ≤ max))
  unfolding read
  read_bounds lawful max p w = answered (api.read_file p max w) refl
    where
      answered :
          (r : Option (List ℕ) × W)
          → api.read_file p max w ≡ r
          → (((read_result r.0).0 ≡ negsuc 0) × (length (read_result r.0).1 ≡ 0))
            ⊎ (((read_result r.0).0 ≡ pos (length (read_result r.0).1))
                × (length (read_result r.0).1 ≤ max))
      answered (none, w') e = inl (refl, refl)
      answered (some bytes, w') e = inr (refl, lawful.read_file_bound p max w w' bytes e)
