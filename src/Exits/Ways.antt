-- ===== src/Exits/Ways.antt =====
-- The rules for the ways out of `main`: MyoNucMotor/MyoNucMotor/main.cpp (the section MAIN),
-- NUCServer/NUCServer/Server.cpp and MyoWin/MyoWin/main.cpp.
use myodesignproject.Base.{
  ℕ, ◌≡◌, ◌≢◌, refl, Bool, true, false, Option, List, [], ◌∷◌, ◌++◌, ◌⊎◌, inl, inr, subst, sym,
}
use myodesignproject.Command.{strcpy_s}
use myodesignproject.Rounds.{
  Fault, refused, Result, ok, stop, Ensures, bind-Ensures, or_stop, receive, as_text,
}
use myodesignproject.Rounds.Rules.{
  NoException, Any, or_stop-Ensures, receive-Ensures, as_text-Ensures,
}
use myodesignproject.Startup.{
  create_hub, set_locking_policy, wait_for_myo, wsa_startup, create_socket, bind_socket,
  listen_client, accept_client, Action, OnFailure, Ending, Program, looping, ended, ignored, start,
}
use myodesignproject.Startup.Order.{AllPass, Starts, start-Starts}
use myodesignproject.Exits.{Exit, failed_step, after_start, after, hello, greet}

-- A step of the program fails, which is followed by `f`.
abbrev pub Fails : (Action → Bool) → OnFailure → Program → Type 0
Fails succeeds f [] = ⊥
Fails succeeds f ((a, g) ∷ p) = ((g ≡ f) × (succeeds a ≡ false)) ⊎ Fails succeeds f p

-- The steps that a program cannot do without.
abbrev pub MyoReady : (Action → Bool) → Type 0
MyoReady succeeds =
    (succeeds create_hub ≡ true)
    × (succeeds set_locking_policy ≡ true)
    × (succeeds wait_for_myo ≡ true)

abbrev pub MyoFails : (Action → Bool) → Type 0
MyoFails succeeds =
    (succeeds create_hub ≡ false)
    ⊎ ((succeeds set_locking_policy ≡ false) ⊎ (succeeds wait_for_myo ≡ false))

abbrev pub ClientReady : (Action → Bool) → Type 0
ClientReady succeeds =
    (succeeds wsa_startup ≡ true)
    × (succeeds create_socket ≡ true)
    × (succeeds bind_socket ≡ true)
    × (succeeds listen_client ≡ true)
    × (succeeds accept_client ≡ true)

abbrev pub ClientFails : (Action → Bool) → Type 0
ClientFails succeeds =
    (succeeds wsa_startup ≡ false)
    ⊎ ((succeeds create_socket ≡ false)
        ⊎ ((succeeds bind_socket ≡ false)
            ⊎ ((succeeds listen_client ≡ false) ⊎ (succeeds accept_client ≡ false))))

Fails-append :
    (succeeds : Action → Bool) (before behind : Program) (a : Action) (f : OnFailure)
    → succeeds a ≡ false
    → Fails succeeds f (before ++ (a, f) ∷ behind)
Fails-append succeeds [] behind a f e = inl (refl, e)
Fails-append succeeds (s ∷ before) behind a f e = inr (Fails-append succeeds before behind a f e)

module _ (succeeds : Action → Bool) (P : Exit → Type 0) where
  by_ending :
      (p : Program) (next : Exit) (r : List Action × Ending)
      → Starts succeeds p r
      → (AllPass succeeds p → P next)
      → ((f : OnFailure) → f ≢ ignored → Fails succeeds f p → P (failed_step f))
      → P (after_start r next)
  by_ending p next (made, looping) s good bad = good s.1
  by_ending p next (made, ended a f) (before, behind, e, all, no_a, looked, m) good bad =
      bad f looked (subst (Fails succeeds f) (sym e) (Fails-append succeeds before behind a f no_a))

  -- The way out of a startup and of what follows it.
  pub after_start-cases :
      (p : Program) (next : Exit)
      → (AllPass succeeds p → P next)
      → ((f : OnFailure) → f ≢ ignored → Fails succeeds f p → P (failed_step f))
      → P (after_start (start succeeds p) next)
  after_start-cases p next = by_ending p next (start succeeds p) (start-Starts succeeds p)

pub after-cases :
    {A : Type 0} (P : Exit → Type 0) (E : Fault → Type 0) (way : Fault → Exit) (m : Result A)
    (next : A → Exit)
    → Ensures E Any m
    → ((f : Fault) → E f → P (way f))
    → ((a : A) → P (next a))
    → P (after way m next)
after-cases P E way (stop f) next h bad good = bad f h
after-cases P E way (ok a) next h bad good = good a

pub greet-NoException :
    (first : Option (List ℕ)) (buff : List ℕ) → Ensures NoException Any (greet first buff)
unfolding greet
greet-NoException first buff =
    let put = strcpy_s hello buff in
    bind-Ensures NoException Any Any (or_stop refused put) _
      (or_stop-Ensures NoException refused put tt)
      λ b1 _.
        bind-Ensures NoException Any Any (as_text b1) _ (as_text-Ensures NoException b1 tt)
          λ written _.
            bind-Ensures NoException Any Any (receive first b1) _
              (receive-Ensures NoException first b1 tt)
              λ b2 _.
                bind-Ensures NoException Any Any (as_text b2) _ (as_text-Ensures NoException b2 tt)
                  λ t _. tt
