-- ===== src/Sockets.antt =====
-- The connection to the client: MyoNucMotor/MyoNucMotor/main.cpp (the sections MAIN and NUCServer) and
-- NUCServer/NUCServer/Server.cpp from WSAStartup to accept, and the calls of send in their loops.
pub mod Calls
pub mod Connect
pub mod Tests
use myodesignproject.Base.{ℕ, ◌≡◌, Bool, true, false, Option, none, some, List, [], ◌∷◌}
use myodesignproject.Startup.{
  Action, wsa_startup, create_socket, bind_socket, listen_client, accept_client,
}
use Calls.{Winsock, Address}

-- How that ends: with the listening socket and the one to the client, or in ErrorHandling for a call
-- that failed, which exits.
pub data Connection (W : Type 0) : Type 0 where
  connected : (server client : ℕ) → W → Connection W
  failed : Action → W → Connection W

-- A call whose failure is followed by ErrorHandling, and what follows its success.
module _ {W : Type 0} where
  abbrev pub if_true : Action → Bool × W → (W → Connection W) → Connection W
  if_true a (false, w) next = failed a w
  if_true a (true, w) next = next w

  abbrev pub if_some : Action → Option ℕ × W → (ℕ → W → Connection W) → Connection W
  if_some a (none, w) next = failed a w
  if_some a (some socket, w) next = next socket w

module _ {W : Type 0} (ws : Winsock W) where
  -- AF_INET, htonl(INADDR_ANY) and htons(atoi("9000"))
  abbrev pub server_address : Address
  server_address = record { family = 2; addr = ws.htonl 0; port = ws.htons 9000 }

  unfoldable pub accept_step : ℕ → W → Connection W
  accept_step server w = if_some accept_client (ws.accept server w) (connected server)

  unfoldable pub listen_step : ℕ → W → Connection W
  listen_step server w = if_true listen_client (ws.listen server 5 w) (accept_step server)

  unfoldable pub bind_step : ℕ → W → Connection W
  bind_step server w = if_true bind_socket (ws.bind server server_address w) (listen_step server)

  -- PF_INET and SOCK_STREAM
  unfoldable pub socket_step : W → Connection W
  socket_step w = if_some create_socket (ws.socket 2 1 0 w) bind_step

  -- MAKEWORD(2, 2)
  unfoldable pub connect : W → Connection W
  connect w = if_true wsa_startup (ws.wsa_startup 0x0202 w) socket_step

  -- The server has the same calls, in both of its copies.
  abbrev pub server_connect : W → Connection W
  server_connect = connect

  abbrev pub server_section_connect : W → Connection W
  server_section_connect = connect

  -- The calls of send for what the rounds of a loop send; their answers are not looked at.
  unfoldable pub transmit : ℕ → List (Option (List ℕ)) → W → W
  transmit client [] w = w
  transmit client (none ∷ sent) w = transmit client sent w
  transmit client (some bytes ∷ sent) w = transmit client sent (ws.send client bytes w).1
