-- ===== src/Startup.antt =====
-- How the programs come up to their loops: what each does in turn, and what it does where a step
-- fails. MyoNucMotor/MyoNucMotor/main.cpp (the section MAIN), NUCServer/NUCServer/Server.cpp and
-- MyoWin/MyoWin/main.cpp; `ErrorHandling` prints its message and calls exit(1).
pub mod Order
pub mod Tests
use myodesignproject.Base.{◌++◌, Bool, true, false, List, [], ◌∷◌}

pub data Action : Type 0 where
  create_hub set_locking_policy wait_for_myo add_listener : Action
  open_port set_timeout flush write_command sleep read_answer : Action
  wsa_startup create_socket bind_socket listen_client accept_client serialize_once : Action

-- What follows a failed step: an exception that the handler of `main` catches, `return 1`,
-- `ErrorHandling`, or nothing, as its result is not looked at.
pub data OnFailure : Type 0 where
  throws returns_one error_handling ignored : OnFailure

pub data Ending : Type 0 where
  looping : Ending
  ended : Action → OnFailure → Ending

abbrev pub Program : Type 0
Program = List (Action × OnFailure)

-- A failed step ends the program, if it is looked at; `more` is what happens else.
abbrev pub after_step : Bool → Action → OnFailure → List Action × Ending → List Action × Ending
after_step true a f more = (a ∷ more.0, more.1)
after_step false a ignored more = (a ∷ more.0, more.1)
after_step false a throws more = (a ∷ [], ended a throws)
after_step false a returns_one more = (a ∷ [], ended a returns_one)
after_step false a error_handling more = (a ∷ [], ended a error_handling)

-- The steps that are made, and how that ends, where `succeeds` tells which steps succeed.
unfoldable pub start : (Action → Bool) → Program → List Action × Ending
start succeeds [] = ([], looping)
start succeeds ((a, f) ∷ more) = after_step (succeeds a) a f (start succeeds more)

-- The section MAIN up to its first command, and from there on.
abbrev pub main_serial_startup : Program
main_serial_startup =
    (create_hub, throws)
    ∷ (set_locking_policy, throws)
    ∷ (wait_for_myo, throws)
    ∷ (add_listener, ignored)
    ∷ (open_port, returns_one)
    ∷ (set_timeout, ignored)
    ∷ (flush, ignored)
    ∷ []

abbrev pub main_socket_startup : Program
main_socket_startup =
    (wsa_startup, error_handling)
    ∷ (create_socket, error_handling)
    ∷ (bind_socket, error_handling)
    ∷ (serialize_once, ignored)
    ∷ (listen_client, error_handling)
    ∷ (accept_client, error_handling)
    ∷ []

abbrev pub main_startup : Program
main_startup =
    main_serial_startup ++ (write_command, ignored) ∷ (read_answer, ignored) ∷ main_socket_startup

abbrev pub server_startup : Program
server_startup =
    (open_port, ignored)
    ∷ (set_timeout, ignored)
    ∷ (wsa_startup, error_handling)
    ∷ (create_socket, error_handling)
    ∷ (bind_socket, error_handling)
    ∷ (listen_client, error_handling)
    ∷ (accept_client, error_handling)
    ∷ (serialize_once, ignored)
    ∷ (flush, ignored)
    ∷ (read_answer, ignored)
    ∷ []

-- MyoWin up to its first command, and from there on.
abbrev pub win_port_startup : Program
win_port_startup = (open_port, returns_one) ∷ (set_timeout, ignored) ∷ (flush, ignored) ∷ []

abbrev pub win_hub_startup : Program
win_hub_startup =
    (create_hub, throws)
    ∷ (set_locking_policy, throws)
    ∷ (wait_for_myo, throws)
    ∷ (add_listener, ignored)
    ∷ []

abbrev pub myo_win_startup : Program
myo_win_startup =
    win_port_startup
    ++ (write_command, ignored) ∷ (sleep, ignored) ∷ (read_answer, ignored) ∷ win_hub_startup

-- The sections MyoWin and NUCServer of MyoNucMotor/MyoNucMotor/main.cpp start as the programs of
-- those names do.
abbrev pub client_section_startup : Program
client_section_startup = myo_win_startup

abbrev pub server_section_startup : Program
server_section_startup = server_startup
