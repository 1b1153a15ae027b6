-- ===== src/Sessions/Handles.antt =====
-- The proof rules for what the programs (MyoNucMotor/MyoNucMotor/main.cpp and MyoWin/MyoWin/main.cpp) leave open.
use myodesignproject.Base.{ℕ, zero, suc, ◌≡◌, refl, Bool, true, false, List, [], ◌∷◌}
use myodesignproject.Collector.Sdk.{Sdk}
use myodesignproject.Collector.{Collector, Event}
use myodesignproject.Rounds.{Fault, overrun, unterminated, refused, uncaught, Result, ok, stop}
use myodesignproject.Serial.Win32.{Win32, IsWin32}
use myodesignproject.Serial.{
  Port, read, write, flush, set_timeout, step, reads, writes, flushes, sets_timeout,
}
use myodesignproject.Serial.Handles.{held, step-Owned, destroy-Owned}
use myodesignproject.Startup.{
  Action, OnFailure, Ending, throws, returns_one, error_handling, ignored, looping, ended,
}
use myodesignproject.Exits.{HubRun, waits, fails}
use myodesignproject.OnPort.{polled_read}
use myodesignproject.WinClient as Win
use myodesignproject.Sessions.{
  Left, running, returned, exited, aborted, undefined, and_then, session_rounds, failed, started,
  opened, left_rounds, in_try, out_of_try, finish, command,
}
use myodesignproject.Sessions.Programs.{prepared, greet_on, win_session_round, token}

module _ {W : Type 0} {api : Win32 W} (lawful : IsWin32 api) (base : List ℕ) where
  -- Beyond `base`, the port's handle alone is open.
  abbrev pub Holds : Port → W → Type 0
  Holds p w = lawful.handles w ≡ held p base

  -- What is open when `main` is left: nothing new after a return, and else the port's handle at most.
  abbrev pub Kept : Left W → Type 0
  Kept (running p w) = lawful.handles w ≡ held p base
  Kept (returned n w) = (n ≡ 1) × (lawful.handles w ≡ base)
  Kept (exited n w) = (n ≡ 1) × ((p : Port) × (lawful.handles w ≡ held p base))
  Kept aborted = Unit
  Kept undefined = Unit

  -- The same as a type that determines how `main` is left.
  pub record Keeps (l : Left W) : Type 0 where
    pub kept : Kept l

  failed-Kept : (p : Port) (w : W) (f : OnFailure) → Holds p w → Kept (failed api p w f)
  failed-Kept p w throws h = (refl, destroy-Owned lawful base p w h)
  failed-Kept p w returns_one h = (refl, destroy-Owned lawful base p w h)
  failed-Kept p w error_handling h = (refl, (p, h))
  failed-Kept p w ignored h = h

  pub started-Kept :
      (r : List Action × Ending) (p : Port) (w : W) (next : Left W)
      → Holds p w
      → Keeps next
      → Keeps (started api r p w next)
  unfolding started
  started-Kept (made, looping) p w next h k = k
  started-Kept (made, ended a f) p w next h k = record { kept = failed-Kept p w f h }

  pub opened-Kept :
      (r : Bool × Port × W) (next : Port → W → Left W)
      → Holds r.1 r.2
      → ((p : Port) (w : W) → Holds p w → Keeps (next p w))
      → Keeps (opened api r next)
  unfolding opened
  opened-Kept (false, p, w) next h k = record { kept = (refl, destroy-Owned lawful base p w h) }
  opened-Kept (true, p, w) next h k = k p w h

  pub in_try-Kept : (p : Port) (w : W) (f : Fault) → Holds p w → Kept (in_try api p w f)
  in_try-Kept p w overrun h = tt
  in_try-Kept p w unterminated h = tt
  in_try-Kept p w refused h = tt
  in_try-Kept p w uncaught h = (refl, destroy-Owned lawful base p w h)

  pub out_of_try-Kept : (p : Port) (w : W) (f : Fault) → Holds p w → Kept (out_of_try api p w f)
  out_of_try-Kept p w overrun h = tt
  out_of_try-Kept p w unterminated h = tt
  out_of_try-Kept p w refused h = tt
  out_of_try-Kept p w uncaught h = tt

  pub left_rounds-Keeps :
      (hub_run : HubRun) (p : Port) (w : W) → Holds p w → Keeps (left_rounds api hub_run p w)
  left_rounds-Keeps waits p w h = record { kept = h }
  left_rounds-Keeps fails p w h = record { kept = (refl, destroy-Owned lawful base p w h) }

  pub finish-Kept :
      {A : Type 0} (p : Port) (way : W → Fault → Left W) (r : Result A × W) (next : A → W → Left W)
      → Holds p r.1
      → ((w : W) (f : Fault) → Holds p w → Kept (way w f))
      → ((a : A) (w : W) → Holds p w → Keeps (next a w))
      → Keeps (finish api way r next)
  unfolding finish
  finish-Kept p way (stop f, w) next h bad good = record { kept = bad w f h }
  finish-Kept p way (ok a, w) next h bad good = good a w h

  pub and_then-Holds :
      {A B : Type 0} (p : Port) (r : Result A × W) (next : A → W → Result B × W)
      → Holds p r.1
      → ((a : A) (w : W) → Holds p w → Holds p (next a w).1)
      → Holds p (and_then r next).1
  unfolding and_then
  and_then-Holds p (stop f, w) next h k = h
  and_then-Holds p (ok a, w) next h k = k a w h

  pub session_rounds-Holds :
      {I S : Type 0} (p : Port) (round : I → S → W → Result S × W)
      → ((i : I) (s : S) (w : W) → Holds p w → Holds p (round i s w).1)
      → (is : List I) (s : S) (w : W) → Holds p w
      → Holds p (session_rounds round is s w).1
  unfolding session_rounds
  session_rounds-Holds p round k [] s w h = h
  session_rounds-Holds p round k (i ∷ is) s w h =
      and_then-Holds p (round i s w) (session_rounds round is) (k i s w h)
        (session_rounds-Holds p round k is)

  -- The calls of the port.
  module _ (p : Port) where
    pub read-Holds : (max : ℕ) (w : W) → Holds p w → Holds p (read api max p w).1
    unfolding step
    read-Holds max w h = step-Owned lawful base (reads max) p w h

    pub write-Holds : (bytes : List ℕ) (w : W) → Holds p w → Holds p (write api bytes p w).1
    unfolding step
    write-Holds bytes w h = step-Owned lawful base (writes bytes) p w h

    pub flush-Holds : (w : W) → Holds p w → Holds p (flush api p w)
    unfolding step
    flush-Holds w h = step-Owned lawful base flushes p w h

    pub set_timeout-Holds : (r t i : ℕ) (w : W) → Holds p w → Holds p (set_timeout api r t i p w).1
    unfolding step
    set_timeout-Holds r t i w h = step-Owned lawful base (sets_timeout r t i) p w h

    pub prepared-Holds : (w : W) → Holds p w → Holds p (prepared api p w)
    unfolding prepared
    prepared-Holds w h = flush-Holds (set_timeout api 10 10 1 p w).1 (set_timeout-Holds 10 10 1 w h)

    pub greet_on-Holds :
        (size : ℕ) (buff : List ℕ) (w : W) → Holds p w → Holds p (greet_on api size p buff w).1
    unfolding greet_on
    greet_on-Holds size buff w h =
        and_then-Holds {A = List ℕ × List ℕ} p _ _ h
          λ put w1 h1. read-Holds size (write api put.0 p w1).1 (write-Holds put.0 w1 h1)

    polled_read-Holds : (polls : Bool) (w : W) → Holds p w → Holds p (polled_read api p polls w).1
    polled_read-Holds true w h = read-Holds 1024 w h
    polled_read-Holds false w h = h

    module _ (sdk : Sdk) where
      pub win_session_round-Holds :
          (handler : sdk.Quaternion → Collector sdk → Collector sdk) (period : ℕ)
          (events : List (Event sdk)) (c : Win.WinClient sdk) (w : W)
          → Holds p w
          → Holds p (win_session_round api sdk handler period p events c w).1
      unfolding win_session_round
      win_session_round-Holds handler period events c w h =
          and_then-Holds p (command sdk handler events c.collector c.buff, w) _ h
            λ put w1 h1.
              polled_read-Holds (Win.tick period c.timer).0 (write api put.0 p w1).1
                (write-Holds put.0 w1 h1)

  pub token-Kept : (b : List ℕ) (next : Left W) → Keeps next → Keeps (token api b next)
  unfolding token
  token-Kept [] next h = h
  token-Kept (zero ∷ b) next h = record { kept = tt }
  token-Kept (suc c ∷ b) next h = h
