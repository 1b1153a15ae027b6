-- ===== src/Sockets/Connect.antt =====
-- What the connection of MyoNucMotor/MyoNucMotor/main.cpp and NUCServer/NUCServer/Server.cpp is, or at which
-- call it fails.
use myodesignproject.Base.{
  ℕ, ◌≡◌, sym, ◌∙◌, ap, Option, none, some, List, [], ◌∷◌, ◌++◌, length, append_assoc, append-nil,
}
use myodesignproject.Startup.{
  Action, wsa_startup, create_socket, bind_socket, listen_client, accept_client,
}
use myodesignproject.Checker.Sent.{received}
use myodesignproject.Sockets.{Connection, connected, failed, transmit}
use myodesignproject.Sockets.Calls.{Winsock, IsWinsock}

module _ {W : Type 0} {ws : Winsock W} (lawful : IsWinsock ws) where
  -- The sockets that are open when ErrorHandling exits at a call.
  abbrev pub LeftOpen : Action → List ℕ → List ℕ → Type 0
  LeftOpen wsa_startup now before = now ≡ before
  LeftOpen create_socket now before = now ≡ before
  LeftOpen bind_socket now before = (s : ℕ) × (now ≡ s ∷ before)
  LeftOpen listen_client now before = (s : ℕ) × (now ≡ s ∷ before)
  LeftOpen accept_client now before = (s : ℕ) × (now ≡ s ∷ before)
  LeftOpen _ now before = ⊥

  pub record Serves (server client : ℕ) (before : List ℕ) (w : W) : Type 0 where
    pub open_sockets : lawful.sockets w ≡ client ∷ server ∷ before
    pub address :
        lawful.bound w server
        ≡ some (record { family = 2; addr = ws.htonl 0; port = ws.htons 9000 })
    pub backlog : lawful.listens w server ≡ some 5
    pub on_server : lawful.accepted_on w client ≡ some server

  abbrev pub Outcome : List ℕ → Connection W → Type 0
  Outcome before (connected server client w) = Serves server client before w
  Outcome before (failed a w) = LeftOpen a (lawful.sockets w) before

  module _ (client : ℕ)
      (sends : (bytes : List ℕ) (w : W) → (ws.send client bytes w).0 ≡ some (length bytes)) where
    sent_all :
        (bytes : List ℕ) (w : W)
        → lawful.sent (ws.send client bytes w).1 client ≡ lawful.sent w client ++ bytes
    sent_all bytes w =
        lawful.send_all client bytes w (ws.send client bytes w).1
          (ap (λ (n : Option ℕ). (n, (ws.send client bytes w).1)) (sends bytes w))

    -- If each call of send sends all of its bytes, what is on the socket is one stream.
    pub transmit-received :
        (sent : List (Option (List ℕ))) (w : W)
        → lawful.sent (transmit ws client sent w) client ≡ lawful.sent w client ++ received sent
    unfolding transmit
    transmit-received [] w = sym (append-nil (lawful.sent w client))
    transmit-received (none ∷ sent) w = transmit-received sent w
    transmit-received (some bytes ∷ sent) w =
        transmit-received sent (ws.send client bytes w).1
        ∙ ap (λ (b : List ℕ). b ++ received sent) (sent_all bytes w)
        ∙ append_assoc (lawful.sent w client) bytes (received sent)
