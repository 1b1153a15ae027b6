-- ===== src/Exits/Ends.antt =====
-- When each way out of `main` is taken in the section MAIN of MyoNucMotor/MyoNucMotor/main.cpp.
use myodesignproject.Base.{ℕ, ◌≡◌, ◌≢◌, refl, Bool, true, false, Option, List, ◌⊎◌, inr, arith}
use myodesignproject.Sensor.{Float, Sensor}
use myodesignproject.Collector.Sdk.{Sdk}
use myodesignproject.Rounds.{Fault, overrun, unterminated, refused, uncaught}
use myodesignproject.Rounds.Rules.{NoException}
use myodesignproject.Startup.{
  Action, open_port, OnFailure, throws, returns_one, error_handling, ignored, main_serial_startup,
  main_socket_startup,
}
use myodesignproject.Startup.Order.{AllPass}
use myodesignproject.Controller as Main
use myodesignproject.Exits.{
  Exit, HubRun, waits, fails, after_rounds, running, returned, exited, aborted, undefined,
  failed_step, inside_try, greet, main_section,
}
use myodesignproject.Exits.Loops.{main_run-NoException}
use myodesignproject.Exits.Ways.{
  MyoReady, MyoFails, ClientReady, ClientFails, Fails, after_start-cases, after-cases,
  greet-NoException,
}

-- The armband and the serial port are there.
abbrev pub PortReady : (Action → Bool) → Type 0
PortReady succeeds = MyoReady succeeds × (succeeds open_port ≡ true)

-- The ways out of the section MAIN.
abbrev pub MainEnds : (Action → Bool) → HubRun → Exit → Type 0
MainEnds succeeds hub_run running = (hub_run ≡ waits) × PortReady succeeds × ClientReady succeeds
MainEnds succeeds hub_run (returned n) =
    (n ≡ 1)
    × (MyoFails succeeds
        ⊎ ((succeeds open_port ≡ false)
            ⊎ ((hub_run ≡ fails) × PortReady succeeds × ClientReady succeeds)))
MainEnds succeeds hub_run (exited n) = (n ≡ 1) × PortReady succeeds × ClientFails succeeds
MainEnds succeeds hub_run aborted = PortReady succeeds
MainEnds succeeds hub_run undefined = PortReady succeeds

module _ (succeeds : Action → Bool) (hub_run : HubRun) where
  port_ready : AllPass succeeds main_serial_startup → PortReady succeeds
  port_ready (hub, (policy, (myo, (listener, (port, rest))))) = ((hub, policy, myo), port)

  client_ready : AllPass succeeds main_socket_startup → ClientReady succeeds
  client_ready (startup, (socket, (bound, (once, (listens, (accepted, rest)))))) =
      (startup, socket, bound, listens, accepted)

  serial-Fails :
      (f : OnFailure)
      → f ≢ ignored
      → Fails succeeds f main_serial_startup
      → MainEnds succeeds hub_run (failed_step f)
  serial-Fails throws ne h = ground arith
  serial-Fails returns_one ne h = ground arith
  serial-Fails error_handling ne h = ground arith
  serial-Fails ignored ne h = absurd (ne refl)

  socket-Fails :
      AllPass succeeds main_serial_startup
      → (f : OnFailure) → f ≢ ignored
      → Fails succeeds f main_socket_startup
      → MainEnds succeeds hub_run (failed_step f)
  socket-Fails all throws ne h = ground arith
  socket-Fails all returns_one ne h = ground arith
  socket-Fails all error_handling ne h = (refl, port_ready all, ground arith)
  socket-Fails all ignored ne h = absurd (ne refl)

  main_faults :
      AllPass succeeds main_serial_startup
      → (f : Fault) → NoException f
      → MainEnds succeeds hub_run (inside_try f)
  main_faults all overrun h = port_ready all
  main_faults all unterminated h = port_ready all
  main_faults all refused h = port_ready all
  main_faults all uncaught h = absurd h

  rounds_over :
      AllPass succeeds main_serial_startup
      → AllPass succeeds main_socket_startup
      → (way : HubRun) → hub_run ≡ way
      → MainEnds succeeds hub_run (after_rounds way)
  rounds_over all more waits e = (e, port_ready all, client_ready more)
  rounds_over all more fails e = (refl, inr (inr (e, port_ready all, client_ready more)))

  module _ (sdk : Sdk) (stof : List ℕ → Option Float)
      (serialize_to : Sensor → List ℕ → List ℕ) where
    -- Main of the section MAIN, whichever steps succeed, whatever is read, and whether hub.run
    -- throws behind the given rounds or not: returns only 1, and only if the hub,
    -- setLockingPolicy, the armband or Open fails, or if these four and the five socket calls
    -- succeed and hub.run throws in the loop; exits only with 1, and only if these four succeed
    -- and WSAStartup, socket, bind, listen or accept fails; is ended by the C library or leaves an
    -- array only if these four succeed; and is in its loop only if these nine succeed and hub.run
    -- does not throw.
    pub main_section-MainEnds :
        (first : Option (List ℕ)) (inputs : List (Main.Input sdk)) (buff tcp_buffer : List ℕ)
        → MainEnds succeeds hub_run
            (main_section sdk stof serialize_to succeeds first inputs hub_run buff tcp_buffer)
    unfolding main_section
    main_section-MainEnds first inputs buff tcp_buffer =
        after_start-cases succeeds (MainEnds succeeds hub_run) main_serial_startup _
          (λ all.
            after-cases (MainEnds succeeds hub_run) NoException inside_try (greet first buff) _
              (greet-NoException first buff) (main_faults all)
              λ greeted.
                after_start-cases succeeds (MainEnds succeeds hub_run) main_socket_startup _
                  (λ more.
                    after-cases (MainEnds succeeds hub_run) NoException inside_try
                      (Main.run sdk stof serialize_to inputs _) _
                      (main_run-NoException stof serialize_to sdk inputs _) (main_faults all)
                      λ _. rounds_over all more hub_run refl)
                  (socket-Fails all))
          serial-Fails
