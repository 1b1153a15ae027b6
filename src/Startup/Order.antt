-- ===== src/Startup/Order.antt =====
-- When the programs (MyoNucMotor/MyoNucMotor/main.cpp, NUCServer/NUCServer/Server.cpp,
-- MyoWin/MyoWin/main.cpp) reach their loops.
use myodesignproject.Base.{◌≡◌, ◌≢◌, refl, Bool, true, false, List, [], ◌∷◌, ◌++◌, arith, ap}
use myodesignproject.Startup.{
  Action, OnFailure, Ending, Program, looping, ended, throws, returns_one, error_handling, ignored,
  after_step, start, main_startup, server_startup, wait_for_myo, open_port, wsa_startup,
  create_socket, bind_socket, listen_client, accept_client,
}

-- A step that is looked at succeeds.
abbrev pub Passes : (Action → Bool) → Action → OnFailure → Type 0
Passes succeeds a throws = succeeds a ≡ true
Passes succeeds a returns_one = succeeds a ≡ true
Passes succeeds a error_handling = succeeds a ≡ true
Passes succeeds a ignored = Unit

abbrev pub AllPass : (Action → Bool) → Program → Type 0
AllPass succeeds [] = Unit
AllPass succeeds ((a, f) ∷ more) = Passes succeeds a f × AllPass succeeds more

abbrev pub actions : Program → List Action
actions [] = []
actions ((a, f) ∷ more) = a ∷ actions more

-- How a program starts: every step is made and those that are looked at succeed, or there is a
-- first step that is looked at and fails, and nothing is done after it.
abbrev pub Starts : (Action → Bool) → Program → List Action × Ending → Type 0
Starts succeeds p (made, looping) = (made ≡ actions p) × AllPass succeeds p
Starts succeeds p (made, ended a f) =
    (before : Program) × (behind : Program) × (p ≡ before ++ (a, f) ∷ behind)
    × AllPass succeeds before
    × (succeeds a ≡ false)
    × (f ≢ ignored)
    × (made ≡ actions before ++ a ∷ [])

step-Starts :
    (succeeds : Action → Bool) (a : Action) (f : OnFailure) (p : Program) (r : List Action × Ending)
    → Passes succeeds a f
    → Starts succeeds p r
    → Starts succeeds ((a, f) ∷ p) (a ∷ r.0, r.1)
step-Starts succeeds a f p (made, looping) ok (m, all) =
    (ap (λ (l : List Action). a ∷ l) m, (ok, all))
step-Starts succeeds a f p (made, ended b g) ok (before, behind, e, all, no_b, looked, m) = (
  (a, f) ∷ before,
  behind,
  ap (λ (l : Program). (a, f) ∷ l) e,
  (ok, all),
  no_b,
  looked,
  ap (λ (l : List Action). a ∷ l) m,
)

after_step-Starts :
    (succeeds : Action → Bool) (b : Bool) (a : Action) (f : OnFailure) (p : Program)
    (r : List Action × Ending)
    → succeeds a ≡ b
    → Starts succeeds p r
    → Starts succeeds ((a, f) ∷ p) (after_step b a f r)
after_step-Starts succeeds true a throws p r e h = step-Starts succeeds a throws p r e h
after_step-Starts succeeds true a returns_one p r e h = step-Starts succeeds a returns_one p r e h
after_step-Starts succeeds true a error_handling p r e h =
    step-Starts succeeds a error_handling p r e h
after_step-Starts succeeds true a ignored p r e h = step-Starts succeeds a ignored p r tt h
after_step-Starts succeeds false a throws p r e h = ([], p, refl, tt, e, (λ q. cc), refl)
after_step-Starts succeeds false a returns_one p r e h = ([], p, refl, tt, e, (λ q. cc), refl)
after_step-Starts succeeds false a error_handling p r e h = ([], p, refl, tt, e, (λ q. cc), refl)
after_step-Starts succeeds false a ignored p r e h = step-Starts succeeds a ignored p r tt h

-- How a program starts, whichever of its steps succeed: all steps are made in order and those that
-- are looked at succeed, or it ends at its first step that is looked at and fails, after just the
-- steps before that one.
pub start-Starts : (succeeds : Action → Bool) (p : Program) → Starts succeeds p (start succeeds p)
unfolding start
start-Starts succeeds [] = (refl, tt)
start-Starts succeeds ((a, f) ∷ p) =
    after_step-Starts succeeds (succeeds a) a f p (start succeeds p) refl (start-Starts succeeds p)

looping-AllPass :
    (succeeds : Action → Bool) (p : Program) (r : List Action × Ending)
    → Starts succeeds p r
    → r.1 ≡ looping
    → AllPass succeeds p
looping-AllPass succeeds p (made, looping) h e = h.1
looping-AllPass succeeds p (made, ended a f) h e = cc

-- The section MAIN reaches its loop only if a Myo was found, the serial port was opened and a
-- client was accepted.
pub main_startup_needs :
    (succeeds : Action → Bool)
    → (start succeeds main_startup).1 ≡ looping
    → (succeeds wait_for_myo ≡ true) × (succeeds open_port ≡ true) × (succeeds accept_client ≡ true)
main_startup_needs succeeds e =
    let all = looping-AllPass succeeds main_startup _ (start-Starts succeeds main_startup) e in
    ground arith

-- If its five socket calls succeed, the server makes all its steps and reaches its loop, whether
-- or not the serial port could be opened.
pub server_startup_without_port :
    (succeeds : Action → Bool)
    → succeeds wsa_startup ≡ true
    → succeeds create_socket ≡ true
    → succeeds bind_socket ≡ true
    → succeeds listen_client ≡ true
    → succeeds accept_client ≡ true
    → start succeeds server_startup ≡ (actions server_startup, looping)
unfolding start
server_startup_without_port succeeds h1 h2 h3 h4 h5 = ground arith
