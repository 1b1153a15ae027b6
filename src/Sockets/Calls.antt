-- ===== src/Sockets/Calls.antt =====
-- The calls of Winsock that MyoNucMotor/MyoNucMotor/main.cpp and NUCServer/NUCServer/Server.cpp make, on a
-- state `W` of the operating system, and what the proofs rely on of them.
use myodesignproject.Base.{ℕ, ◌≡◌, Bool, true, Option, none, some, List, ◌∷◌, ◌++◌, length}

-- The fields of SOCKADDR_IN that the code sets; the last two are in the byte order of the network.
pub record Address : Type 0 where
  pub family : ℕ
  pub addr : ℕ
  pub port : ℕ

-- `none` is INVALID_SOCKET or SOCKET_ERROR, and `false` a call that fails.
pub record Winsock (W : Type 0) : Type 0 where
  pub htons : ℕ → ℕ
  pub htonl : ℕ → ℕ
  -- by the version that is asked for
  pub wsa_startup : ℕ → W → Bool × W
  -- by the family, the type and the protocol
  pub socket : ℕ → ℕ → ℕ → W → Option ℕ × W
  pub bind : ℕ → Address → W → Bool × W
  -- by the socket and the backlog
  pub listen : ℕ → ℕ → W → Bool × W
  pub accept : ℕ → W → Option ℕ × W
  -- the number of bytes that were sent
  pub send : ℕ → List ℕ → W → Option ℕ × W

-- `sockets w` are the open sockets of the process, the latest first; `bound w s` the address that a
-- socket is bound to, `listens w s` its backlog where it listens, and `sent w s` the bytes that were
-- sent on it; and `accepted_on w s` the listening socket that accepted its connection.
pub record IsWinsock {W : Type 0} (ws : Winsock W) : Type 0 where
  pub sockets : W → List ℕ
  pub bound : W → ℕ → Option Address
  pub listens : W → ℕ → Option ℕ
  pub sent : W → ℕ → List ℕ
  pub accepted_on : W → ℕ → Option ℕ
  pub wsa_startup_keeps : (version : ℕ) (w : W) → sockets (ws.wsa_startup version w).1 ≡ sockets w
  pub socket_some :
      (family type protocol : ℕ) (w w' : W) (s : ℕ)
      → ws.socket family type protocol w ≡ (some s, w')
      → sockets w' ≡ s ∷ sockets w
  pub socket_none :
      (family type protocol : ℕ) (w w' : W)
      → ws.socket family type protocol w ≡ (none, w')
      → sockets w' ≡ sockets w
  pub bind_keeps : (s : ℕ) (a : Address) (w : W) → sockets (ws.bind s a w).1 ≡ sockets w
  pub bind_true :
      (s : ℕ) (a : Address) (w w' : W) → ws.bind s a w ≡ (true, w') → bound w' s ≡ some a
  pub listen_keeps : (s backlog : ℕ) (w : W) → sockets (ws.listen s backlog w).1 ≡ sockets w
  pub listen_bound : (s backlog : ℕ) (w : W) → bound (ws.listen s backlog w).1 s ≡ bound w s
  pub listen_true :
      (s backlog : ℕ) (w w' : W) → ws.listen s backlog w ≡ (true, w') → listens w' s ≡ some backlog
  pub accept_some :
      (s : ℕ) (w w' : W) (c : ℕ) → ws.accept s w ≡ (some c, w') → sockets w' ≡ c ∷ sockets w
  pub accept_accepted :
      (s : ℕ) (w w' : W) (c : ℕ) → ws.accept s w ≡ (some c, w') → accepted_on w' c ≡ some s
  pub accept_none : (s : ℕ) (w w' : W) → ws.accept s w ≡ (none, w') → sockets w' ≡ sockets w
  pub accept_bound : (s : ℕ) (w : W) → bound (ws.accept s w).1 s ≡ bound w s
  pub accept_listens : (s : ℕ) (w : W) → listens (ws.accept s w).1 s ≡ listens w s
  -- A call of send on a blocking socket that sends all of the bytes puts them behind those before.
  pub send_all :
      (s : ℕ) (bytes : List ℕ) (w w' : W)
      → ws.send s bytes w ≡ (some (length bytes), w')
      → sent w' s ≡ sent w s ++ bytes
