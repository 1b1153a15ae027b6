-- ===== src/Exits/Others.antt =====
-- When each way out of `main` is taken in NUCServer/NUCServer/Server.cpp and MyoWin/MyoWin/main.cpp.
use myodesignproject.Base.{
  ℕ, zero, suc, ◌≡◌, ◌≢◌, refl, Bool, true, false, Option, List, [], ◌∷◌, ◌⊎◌, inl, inr, arith,
}
use myodesignproject.Sensor.{Float, Sensor}
use myodesignproject.Collector.Sdk.{Sdk}
use myodesignproject.Collector.{Collector}
use myodesignproject.Rounds.{Fault, overrun, unterminated, refused, uncaught, receive}
use myodesignproject.Rounds.Rules.{NoException, OfMemory, receive-Ensures}
use myodesignproject.Startup.{
  Action, open_port, OnFailure, throws, returns_one, error_handling, ignored, server_startup,
  win_port_startup, win_hub_startup,
}
use myodesignproject.Startup.Order.{AllPass}
use myodesignproject.Server as Server
use myodesignproject.WinClient as Win
use myodesignproject.Exits.{
  Exit, HubRun, waits, fails, after_rounds, running, returned, exited, aborted, undefined,
  failed_step, inside_try, outside_try, with_token, greet, server_main, win_main_by,
}
use myodesignproject.Exits.Loops.{server_run-OfMemory, win_run-NoException}
use myodesignproject.Exits.Ways.{
  MyoReady, MyoFails, ClientReady, ClientFails, Fails, after_start-cases, after-cases,
  greet-NoException,
}

-- The ways out of the server: it never returns, and no exception ends it.
abbrev pub ServerEnds : (Action → Bool) → Exit → Type 0
ServerEnds succeeds running = ClientReady succeeds
ServerEnds succeeds (returned n) = ⊥
ServerEnds succeeds (exited n) = (n ≡ 1) × ClientFails succeeds
ServerEnds succeeds aborted = ⊥
ServerEnds succeeds undefined = ClientReady succeeds

-- The ways out of the client.
abbrev pub WinEnds : (Action → Bool) → HubRun → Exit → Type 0
WinEnds succeeds hub_run running =
    (hub_run ≡ waits) × (succeeds open_port ≡ true) × MyoReady succeeds
WinEnds succeeds hub_run (returned n) =
    (n ≡ 1)
    × ((succeeds open_port ≡ false)
        ⊎ (((succeeds open_port ≡ true) × MyoFails succeeds)
            ⊎ ((hub_run ≡ fails) × (succeeds open_port ≡ true) × MyoReady succeeds)))
WinEnds succeeds hub_run (exited n) = ⊥
WinEnds succeeds hub_run aborted = succeeds open_port ≡ true
WinEnds succeeds hub_run undefined = succeeds open_port ≡ true

module _ (succeeds : Action → Bool) where
  client_ready : AllPass succeeds server_startup → ClientReady succeeds
  client_ready (port, (timeout, (startup, (socket, (bound, (listens, (accepted, rest))))))) =
      (startup, socket, bound, listens, accepted)

  port_opened : AllPass succeeds win_port_startup → succeeds open_port ≡ true
  port_opened (port, rest) = port

  myo_ready : AllPass succeeds win_hub_startup → MyoReady succeeds
  myo_ready (hub, (policy, (myo, rest))) = (hub, policy, myo)

  server-Fails :
      (f : OnFailure)
      → f ≢ ignored
      → Fails succeeds f server_startup
      → ServerEnds succeeds (failed_step f)
  server-Fails throws ne h = ground arith
  server-Fails returns_one ne h = ground arith
  server-Fails error_handling ne h = ground arith
  server-Fails ignored ne h = absurd (ne refl)

  server_faults :
      AllPass succeeds server_startup
      → (f : Fault) → OfMemory f
      → ServerEnds succeeds (outside_try f)
  server_faults all overrun h = client_ready all
  server_faults all unterminated h = client_ready all
  server_faults all refused h = absurd h
  server_faults all uncaught h = absurd h

  -- Main of the server, whichever steps succeed and whatever is read: never returns, and no
  -- exception and no call of the C library ends it; it exits only with 1, and only if WSAStartup,
  -- socket, bind, listen or accept fails; and it is in its loop, or leaves an array, only if these
  -- five succeed.
  pub server_main-ServerEnds :
      (stof : List ℕ → Option Float) (serialize_to : Sensor → List ℕ → List ℕ)
      (first : Option (List ℕ)) (inputs : List (Option (List ℕ)))
      (serial_buffer tcp_buffer : List ℕ)
      → ServerEnds succeeds
          (server_main stof serialize_to succeeds first inputs serial_buffer tcp_buffer)
  unfolding server_main
  server_main-ServerEnds stof serialize_to first inputs serial_buffer tcp_buffer =
      after_start-cases succeeds (ServerEnds succeeds) server_startup _
        (λ all.
          after-cases (ServerEnds succeeds) OfMemory outside_try (receive first serial_buffer) _
            (receive-Ensures OfMemory first serial_buffer tt) (server_faults all)
            λ buffer.
              after-cases (ServerEnds succeeds) OfMemory outside_try
                (Server.run stof serialize_to inputs _) _
                (server_run-OfMemory stof serialize_to inputs _) (server_faults all)
                λ _. client_ready all)
        server-Fails

module _ (succeeds : Action → Bool) (hub_run : HubRun) where
  port-Fails :
      (f : OnFailure)
      → f ≢ ignored
      → Fails succeeds f win_port_startup
      → WinEnds succeeds hub_run (failed_step f)
  port-Fails throws ne h = ground arith
  port-Fails returns_one ne h = ground arith
  port-Fails error_handling ne h = ground arith
  port-Fails ignored ne h = absurd (ne refl)

  hub-Fails :
      AllPass succeeds win_port_startup
      → (f : OnFailure) → f ≢ ignored
      → Fails succeeds f win_hub_startup
      → WinEnds succeeds hub_run (failed_step f)
  hub-Fails all throws ne h = (refl, inr (inl (port_opened succeeds all, ground arith)))
  hub-Fails all returns_one ne h = ground arith
  hub-Fails all error_handling ne h = ground arith
  hub-Fails all ignored ne h = absurd (ne refl)

  outside_faults :
      AllPass succeeds win_port_startup
      → (f : Fault) → NoException f
      → WinEnds succeeds hub_run (outside_try f)
  outside_faults all overrun h = port_opened succeeds all
  outside_faults all unterminated h = port_opened succeeds all
  outside_faults all refused h = port_opened succeeds all
  outside_faults all uncaught h = absurd h

  inside_faults :
      AllPass succeeds win_port_startup
      → (f : Fault) → NoException f
      → WinEnds succeeds hub_run (inside_try f)
  inside_faults all overrun h = port_opened succeeds all
  inside_faults all unterminated h = port_opened succeeds all
  inside_faults all refused h = port_opened succeeds all
  inside_faults all uncaught h = absurd h

  rounds_over :
      AllPass succeeds win_port_startup
      → AllPass succeeds win_hub_startup
      → (way : HubRun) → hub_run ≡ way
      → WinEnds succeeds hub_run (after_rounds way)
  rounds_over all more waits e = (e, port_opened succeeds all, myo_ready succeeds more)
  rounds_over all more fails e =
      (refl, inr (inr (e, port_opened succeeds all, myo_ready succeeds more)))

  token_printed :
      AllPass succeeds win_port_startup
      → (buff : List ℕ) (next : Exit) → WinEnds succeeds hub_run next
      → WinEnds succeeds hub_run (with_token buff next)
  token_printed all [] next h = h
  token_printed all (zero ∷ b) next h = port_opened succeeds all
  token_printed all (suc c ∷ b) next h = h

  -- Main of the client, in both its copies, whichever steps succeed, whatever is read, and whether
  -- hub.run throws behind the given rounds or not: returns only 1, and only if Open fails, or if
  -- it succeeds and the hub, setLockingPolicy or the armband fails, or if all four succeed and
  -- hub.run throws in the loop; never exits by ErrorHandling; is ended by the C library, or leaves
  -- an array or uses a null pointer, only if Open succeeds; and is in its loop only if all four
  -- succeed and hub.run does not throw.
  pub win_main_by-WinEnds :
      (sdk : Sdk) (handler : sdk.Quaternion → Collector sdk → Collector sdk) (period : ℕ)
      (first : Option (List ℕ)) (inputs : List (Win.Input sdk)) (buff : List ℕ)
      → WinEnds succeeds hub_run (win_main_by sdk handler period succeeds first inputs hub_run buff)
  unfolding win_main_by
  win_main_by-WinEnds sdk handler period first inputs buff =
      after_start-cases succeeds (WinEnds succeeds hub_run) win_port_startup _
        (λ all.
          after-cases (WinEnds succeeds hub_run) NoException outside_try (greet first buff) _
            (greet-NoException first buff) (outside_faults all)
            λ greeted. token_printed all greeted.1 _ (
              after_start-cases succeeds (WinEnds succeeds hub_run) win_hub_startup _
                (λ more.
                  after-cases (WinEnds succeeds hub_run) NoException inside_try
                    (Win.run sdk handler period inputs _) _
                    (win_run-NoException sdk handler period inputs _) (inside_faults all)
                    λ _. rounds_over all more hub_run refl)
                (hub-Fails all)))
        port-Fails
