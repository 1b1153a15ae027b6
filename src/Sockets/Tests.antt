-- ===== src/Sockets/Tests.antt =====
-- The connection to the client (MyoNucMotor/MyoNucMotor/main.cpp, NUCServer/NUCServer/Server.cpp) on a small
-- network with one listening socket.
use myodesignproject.Base.{
  ℕ, ◌+◌, ◌*◌, ◌/◌, ◌%◌, ◌≡◌, refl, sym, ap, Bool, true, Option, none, some, List, [], ◌∷◌, ◌++◌,
  length,
}
use myodesignproject.Sockets.Calls.{Address, Winsock, IsWinsock}

pub record Net : Type 0 where
  pub opened : List ℕ
  pub address : Option Address
  pub backlog : Option ℕ
  pub bytes : List ℕ
  pub accepted : Option ℕ

abbrev opens : Net → Option ℕ × Net
opens w = (some (length w.opened), record w { opened = length w.opened ∷ w.opened })

abbrev accepts : ℕ → Net → Option ℕ × Net
accepts s w =
    (some (length w.opened), record w { opened = length w.opened ∷ w.opened; accepted = some s })

abbrev pub small_net : Winsock Net
small_net = record {
  htons = λ n. n % 256 * 256 + n / 256;
  htonl = λ n. n;
  wsa_startup = λ version w. (true, w);
  socket = λ family type protocol w. opens w;
  bind = λ s a w. (true, record w { address = some a });
  listen = λ s backlog w. (true, record w { backlog = some backlog });
  accept = λ s w. accepts s w;
  send = λ s bytes w. (some (length bytes), record w { bytes = w.bytes ++ bytes });
}

abbrev pub start_net : Net
start_net = record { opened = []; address = none; backlog = none; bytes = []; accepted = none }

pub opens-some : (w w' : Net) (s : ℕ) → opens w ≡ (some s, w') → w'.opened ≡ s ∷ w.opened
opens-some w w' s e = cc

pub accepts-some :
    (s : ℕ) (w w' : Net) (c : ℕ) → accepts s w ≡ (some c, w') → w'.opened ≡ c ∷ w.opened
accepts-some s w w' c e = cc

unfoldable pub small_net-IsWinsock : IsWinsock small_net
small_net-IsWinsock = record {
  sockets = λ w. w.opened;
  bound = λ w s. w.address;
  listens = λ w s. w.backlog;
  sent = λ w s. w.bytes;
  wsa_startup_keeps = λ version w. refl;
  socket_some = λ family type protocol w w' s e. opens-some w w' s e;
  socket_none = λ family type protocol w w' e. cc;
  bind_keeps = λ s a w. refl;
  bind_true = λ s a w w' e. ap (λ (r : Bool × Net). r.1.address) (sym e);
  listen_keeps = λ s backlog w. refl;
  listen_bound = λ s backlog w. refl;
  listen_true = λ s backlog w w' e. ap (λ (r : Bool × Net). r.1.backlog) (sym e);
  accepted_on = λ w s. w.accepted;
  accept_some = λ s w w' c e. accepts-some s w w' c e;
  accept_accepted = λ s w w' c e. ap (λ (r : Option ℕ × Net). r.1.accepted) (sym e);
  accept_none = λ s w w' e. cc;
  accept_bound = λ s w. refl;
  accept_listens = λ s w. refl;
  send_all = λ s bytes w w' e. ap (λ (r : Option ℕ × Net). r.1.bytes) (sym e);
}
