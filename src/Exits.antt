-- ===== src/Exits.antt =====
-- The programs as a whole: startup, loop, and the ways out of `main`. MyoNucMotor/MyoNucMotor/main.cpp
-- (the section MAIN), NUCServer/NUCServer/Server.cpp and MyoWin/MyoWin/main.cpp; the sections MyoWin
-- and NUCServer of the first file have the same code as the other two. A program is given which of its
-- startup steps succeed, what its first read delivers, and the inputs of the rounds of its loop.
pub mod Loops
pub mod Ways
pub mod Ends
pub mod Others
pub mod Tests
use myodesignproject.Base.{ℕ, zero, suc, Bool, Option, List, [], ◌∷◌}
use myodesignproject.Sensor.{Float, Sensor, shared_ctor}
use myodesignproject.Collector.Sdk.{Sdk}
use myodesignproject.Collector.{Collector, initial, on_orientation_data}
use myodesignproject.Collector.WinCopy.{win_on_orientation_data}
use myodesignproject.Command.{strcpy_s}
use myodesignproject.Rounds.{
  Fault, overrun, unterminated, refused, uncaught, Result, ok, stop, ◌>>=◌, or_stop, receive,
  as_text,
}
use myodesignproject.Startup.{
  Action, OnFailure, Ending, throws, returns_one, error_handling, ignored, looping, ended, start,
  main_serial_startup, main_socket_startup, server_startup, win_port_startup, win_hub_startup,
}
use myodesignproject.Controller as Main
use myodesignproject.Server as Server
use myodesignproject.WinClient as Win

-- `running`: the loop goes on behind the inputs. `returned`: `main` returns. `exited`: exit() of
-- ErrorHandling. `aborted`: the C library ends the program, or the runtime does so for an exception
-- that nothing catches. `undefined`: memory outside an array was touched.
pub data Exit : Type 0 where
  running : Exit
  returned : ℕ → Exit
  exited : ℕ → Exit
  aborted : Exit
  undefined : Exit

-- The way out at a step that fails; an exception reaches the handler at the end of `main`.
abbrev pub failed_step : OnFailure → Exit
failed_step throws = returned 1
failed_step returns_one = returned 1
failed_step error_handling = exited 1
failed_step ignored = running

-- The way out at a fault inside the `try` of `main`, and outside any `try`.
abbrev pub inside_try : Fault → Exit
inside_try overrun = undefined
inside_try unterminated = undefined
inside_try refused = aborted
inside_try uncaught = returned 1

abbrev pub outside_try : Fault → Exit
outside_try overrun = undefined
outside_try unterminated = undefined
outside_try refused = aborted
outside_try uncaught = aborted

abbrev pub after_start : List Action × Ending → Exit → Exit
after_start (made, looping) next = next
after_start (made, ended a f) next = failed_step f

abbrev pub after {ℓ} : {A : Type ℓ} → (Fault → Exit) → Result A → (A → Exit) → Exit
after way (stop f) next = way f
after way (ok a) next = next a

-- What the hub.run behind the last given round does: it goes on waiting for events, or it throws an
-- exception, which the handler at the end of `main` catches.
pub data HubRun : Type 0 where
  waits fails : HubRun

abbrev pub after_rounds : HubRun → Exit
after_rounds waits = running
after_rounds fails = returned 1

-- "sp0.001f", the first command.
abbrev pub hello : List ℕ
hello = 115 ∷ 112 ∷ 48 ∷ 46 ∷ 48 ∷ 48 ∷ 49 ∷ 102 ∷ []

-- The first command and its answer: what is written, and the array after the read, which is used as
-- a text.
unfoldable pub greet : Option (List ℕ) → List ℕ → Result (List ℕ × List ℕ)
greet received buff = do
  b1 ← or_stop refused (strcpy_s hello buff)
  written ← as_text b1
  b2 ← receive received b1
  text ← as_text b2
  ok (written, b2)

-- `strtok_s(buff, "\0", context)` finds no token in a text without a character, and the null pointer
-- that it returns is printed.
abbrev pub with_token : List ℕ → Exit → Exit
with_token [] next = next
with_token (zero ∷ b) next = undefined
with_token (suc c ∷ b) next = next

module _ (sdk : Sdk) where
  -- `main` of the section MAIN. `buff` and `tcp_buffer` are what the arrays hold at first.
  unfoldable pub main_section :
      (List ℕ → Option Float)
      → (Sensor → List ℕ → List ℕ)
      → (Action → Bool)
      → Option (List ℕ)
      → List (Main.Input sdk)
      → HubRun
      → List ℕ
      → List ℕ
      → Exit
  main_section stof serialize_to succeeds first inputs hub_run buff tcp_buffer =
      after_start (start succeeds main_serial_startup) (
        after inside_try (greet first buff) λ (greeted : List ℕ × List ℕ).
          after_start (start succeeds main_socket_startup) (
            after inside_try
              (Main.run sdk stof serialize_to inputs (record {
                collector = initial sdk;
                buff = greeted.1;
                outbox = record { sensor = shared_ctor; tcp_buffer = tcp_buffer };
              }))
              (λ _. after_rounds hub_run)))

  -- `main` of MyoWin and of the section MyoWin, by the handler for orientations and the period. The
  -- first command stands outside the `try`.
  unfoldable pub win_main_by :
      (sdk.Quaternion → Collector sdk → Collector sdk)
      → ℕ
      → (Action → Bool)
      → Option (List ℕ)
      → List (Win.Input sdk)
      → HubRun
      → List ℕ
      → Exit
  win_main_by handler period succeeds first inputs hub_run buff =
      after_start (start succeeds win_port_startup) (
        after outside_try (greet first buff) λ (greeted : List ℕ × List ℕ). with_token greeted.1 (
          after_start (start succeeds win_hub_startup) (
            after inside_try
              (Win.run sdk handler period inputs
                (record { collector = initial sdk; buff = greeted.1; timer = 0 }))
              (λ _. after_rounds hub_run))))

  abbrev pub win_main :
      (Action → Bool) → Option (List ℕ) → List (Win.Input sdk) → HubRun → List ℕ → Exit
  win_main = win_main_by (win_on_orientation_data sdk) 100

  abbrev pub client_section_main :
      (Action → Bool) → Option (List ℕ) → List (Win.Input sdk) → HubRun → List ℕ → Exit
  client_section_main = win_main_by (on_orientation_data sdk) 10

-- `main` of the server. No code sets `GoOn` to false, so that what closes the sockets and the port
-- behind the loop is not reached.
unfoldable pub server_main :
    (List ℕ → Option Float)
    → (Sensor → List ℕ → List ℕ)
    → (Action → Bool)
    → Option (List ℕ)
    → List (Option (List ℕ))
    → List ℕ
    → List ℕ
    → Exit
server_main stof serialize_to succeeds first inputs serial_buffer tcp_buffer =
    after_start (start succeeds server_startup) (
      after outside_try (receive first serial_buffer) λ (buffer : List ℕ).
        after outside_try
          (Server.run stof serialize_to inputs (record {
            serial_buffer = buffer;
            outbox = record { sensor = shared_ctor; tcp_buffer = tcp_buffer };
          }))
          (λ _. running))

-- `main` of the section NUCServer
abbrev pub server_section_main :
    (List ℕ → Option Float)
    → (Sensor → List ℕ → List ℕ)
    → (Action → Bool)
    → Option (List ℕ)
    → List (Option (List ℕ))
    → List ℕ
    → List ℕ
    → Exit
server_section_main = server_main
