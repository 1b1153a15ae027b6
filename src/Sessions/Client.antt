-- ===== src/Sessions/Client.antt =====
-- The calls of Winsock in the section MAIN (MyoNucMotor/MyoNucMotor/main.cpp) beside the handle of the
-- port.
use myodesignproject.Base.{ℕ, ◌≡◌, refl, ◌∙◌, Bool, true, false, Option, none, some, List, [], ◌∷◌}
use myodesignproject.Sensor.{Float, Sensor}
use myodesignproject.Collector.Sdk.{Sdk}
use myodesignproject.Collector.{Event, on_orientation_data}
use myodesignproject.Serial.Win32.{Win32, IsWin32}
use myodesignproject.Serial.{Port, write, read}
use myodesignproject.Startup.{
  Action, wsa_startup, create_socket, bind_socket, listen_client, accept_client,
}
use myodesignproject.OnPort.{received_of}
use myodesignproject.Controller as Main
use myodesignproject.Sockets.Calls.{Winsock, Address}
use myodesignproject.Sockets.{
  Connection, connected, failed, if_true, if_some, server_address, accept_step, listen_step,
  bind_step, socket_step, connect, transmit,
}
use myodesignproject.Sessions.{Left, command, respond, with_client}
use myodesignproject.Sessions.Programs.{main_session_round}
use myodesignproject.Sessions.Handles.{Holds, Keeps, and_then-Holds, write-Holds, read-Holds}

-- The handles of CreateFile are not those of sockets: the calls of Winsock leave them as they are.
pub record LeavesHandles {W : Type 0} (ws : Winsock W) (handles : W → List ℕ) : Type 0 where
  pub wsa_startup_leaves : (version : ℕ) (w : W) → handles (ws.wsa_startup version w).1 ≡ handles w
  pub socket_leaves :
      (family type protocol : ℕ) (w : W) → handles (ws.socket family type protocol w).1 ≡ handles w
  pub bind_leaves : (s : ℕ) (a : Address) (w : W) → handles (ws.bind s a w).1 ≡ handles w
  pub listen_leaves : (s backlog : ℕ) (w : W) → handles (ws.listen s backlog w).1 ≡ handles w
  pub accept_leaves : (s : ℕ) (w : W) → handles (ws.accept s w).1 ≡ handles w
  pub send_leaves : (s : ℕ) (bytes : List ℕ) (w : W) → handles (ws.send s bytes w).1 ≡ handles w

module _ {W : Type 0} {api : Win32 W} (lawful : IsWin32 api) (base : List ℕ) {ws : Winsock W}
    (leaves : LeavesHandles ws lawful.handles) (p : Port) where
  abbrev HoldsPort : W → Type 0
  HoldsPort = Holds lawful base p

  -- The same where the connection is made, and where a call of it fails.
  abbrev pub HoldsBoth : Connection W → Type 0
  HoldsBoth (connected server client w) = HoldsPort w
  HoldsBoth (failed a w) = HoldsPort w

  if_true-HoldsBoth :
      (a : Action) (r : Bool × W) (next : W → Connection W)
      → HoldsPort r.1
      → ((w : W) → HoldsPort w → HoldsBoth (next w))
      → HoldsBoth (if_true a r next)
  if_true-HoldsBoth a (false, w) next h k = h
  if_true-HoldsBoth a (true, w) next h k = k w h

  if_some-HoldsBoth :
      (a : Action) (r : Option ℕ × W) (next : ℕ → W → Connection W)
      → HoldsPort r.1
      → ((s : ℕ) (w : W) → HoldsPort w → HoldsBoth (next s w))
      → HoldsBoth (if_some a r next)
  if_some-HoldsBoth a (none, w) next h k = h
  if_some-HoldsBoth a (some s, w) next h k = k s w h

  pub connect-HoldsBoth : (w : W) → HoldsPort w → HoldsBoth (connect ws w)
  unfolding connect socket_step bind_step listen_step accept_step
  connect-HoldsBoth w h =
      if_true-HoldsBoth wsa_startup (ws.wsa_startup 0x0202 w) (socket_step ws)
        (leaves.wsa_startup_leaves 0x0202 w ∙ h)
        λ w1 h1.
          if_some-HoldsBoth create_socket (ws.socket 2 1 0 w1) (bind_step ws)
            (leaves.socket_leaves 2 1 0 w1 ∙ h1)
            λ s w2 h2.
              if_true-HoldsBoth bind_socket (ws.bind s (server_address ws) w2) (listen_step ws s)
                (leaves.bind_leaves s (server_address ws) w2 ∙ h2)
                λ w3 h3.
                  if_true-HoldsBoth listen_client (ws.listen s 5 w3) (accept_step ws s)
                    (leaves.listen_leaves s 5 w3 ∙ h3)
                    λ w4 h4.
                      if_some-HoldsBoth accept_client (ws.accept s w4) (connected s)
                        (leaves.accept_leaves s w4 ∙ h4) λ c w5 h5. h5

  pub with_client-Keeps :
      (r : Connection W) (next : ℕ → W → Left W)
      → HoldsBoth r
      → ((client : ℕ) (w : W) → HoldsPort w → Keeps lawful base (next client w))
      → Keeps lawful base (with_client api r next)
  unfolding with_client
  with_client-Keeps (failed a w) next h k = record { kept = (refl, (p, h)) }
  with_client-Keeps (connected server client w) next h k = k client w h

  transmit-Holds :
      (client : ℕ) (sent : List (Option (List ℕ))) (w : W)
      → HoldsPort w
      → HoldsPort (transmit ws client sent w)
  unfolding transmit
  transmit-Holds client [] w h = h
  transmit-Holds client (none ∷ sent) w h = transmit-Holds client sent w h
  transmit-Holds client (some bytes ∷ sent) w h =
      transmit-Holds client sent (ws.send client bytes w).1 (leaves.send_leaves client bytes w ∙ h)

  pub main_session_round-Holds :
      (sdk : Sdk) (stof : List ℕ → Option Float) (serialize_to : Sensor → List ℕ → List ℕ)
      (client : ℕ) (events : List (Event sdk)) (c : Main.Controller sdk) (w : W)
      → HoldsPort w
      → HoldsPort (main_session_round api ws sdk stof serialize_to p client events c w).1
  unfolding main_session_round
  main_session_round-Holds sdk stof serialize_to client events c w h =
      and_then-Holds lawful base p
        (command sdk (on_orientation_data sdk) events c.collector c.buff, w) _ h
        λ put w1 h1.
          let w2 = (write api put.0 p w1).1 in
          let (answer, w3) = read api 1024 p w2 in
          and_then-Holds lawful base p
            (
              respond sdk stof serialize_to (received_of answer)
                  (record { collector = put.1; buff = put.2; outbox = c.outbox }),
              w3,
            )
            _ (read-Holds lawful base p 1024 w2 (write-Holds lawful base p put.0 w1 h1))
            λ r w4 h4. transmit-Holds client (r.1 ∷ []) w4 h4
