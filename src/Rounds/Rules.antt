-- ===== src/Rounds/Rules.antt =====
-- The proof rules of the parts that the loops share (MyoNucMotor/MyoNucMotor/main.cpp,
-- NUCServer/NUCServer/Server.cpp, MyoWin/MyoWin/main.cpp).
use myodesignproject.Base.{
  ◌≤◌, ◌≡◌, refl, ap, ◌++◌, length, drop, arith, ℕ, Option, none, some, List, [], ◌∷◌,
}
use myodesignproject.Text.{c_string, overwrite}
use myodesignproject.Text.Laws.{overwrite-length}
use myodesignproject.Rounds.{
  Fault, overrun, unterminated, refused, uncaught, Result, ok, stop, ◌>>=◌, Ensures, bind-Ensures,
  rounds, or_stop, receive, as_text,
}

-- A fault that is no exception, and one that is a wrong access to memory.
abbrev pub NoException : Fault → Type 0
NoException uncaught = ⊥
NoException overrun = Unit
NoException unterminated = Unit
NoException refused = Unit

abbrev pub OfMemory : Fault → Type 0
OfMemory overrun = Unit
OfMemory unterminated = Unit
OfMemory refused = ⊥
OfMemory uncaught = ⊥

-- Nothing is said of the value.
abbrev pub Any {ℓ} : {A : Type ℓ} → A → Type 0
Any a = Unit

-- What a computation ends with, where each value is known to be that of its part.
pub bind-known :
    {A B : Type 0} (P : B → Type 0) (m : Result A) (f : A → Result B)
    → ((a : A) → m ≡ ok a → Ensures Any P (f a))
    → Ensures Any P (m >>= f)
bind-known P (ok a) f k = k a refl
bind-known P (stop x) f k = tt

pub known : {A : Type 0} (P : A → Type 0) (m : Result A) (a : A) → m ≡ ok a → Ensures Any P m → P a
known P m a e h = rw e at h

abbrev value : {A : Type 0} → A → Result A → A
value a (ok b) = b
value a (stop f) = a

pub ok-eq : {A : Type 0} (a b : A) → ok a ≡ ok b → a ≡ b
ok-eq a b e = ap (value a) e

pub or_stop-Ensures :
    {A : Type 0} (E : Fault → Type 0) (f : Fault) (o : Option A) → E f → Ensures E Any (or_stop f o)
or_stop-Ensures E f none h = h
or_stop-Ensures E f (some a) h = tt

pub receive-Ensures :
    (E : Fault → Type 0) (received : Option (List ℕ)) (array : List ℕ)
    → E overrun
    → Ensures E Any (receive received array)
unfolding receive
receive-Ensures E none array h = tt
receive-Ensures E (some bytes) array h = or_stop-Ensures E overrun (overwrite bytes array) h

pub as_text-Ensures :
    (E : Fault → Type 0) (array : List ℕ) → E unterminated → Ensures E Any (as_text array)
unfolding as_text
as_text-Ensures E array h = or_stop-Ensures E unterminated (c_string array) h

-- The faults of a loop are those of its rounds.
pub rounds_stop :
    {I S O : Type 0} (E : Fault → Type 0) (round : I → S → Result (S × O))
    → ((i : I) (s : S) → Ensures E Any (round i s))
    → (is : List I) (s : S) → Ensures E Any (rounds round is s)
unfolding rounds
rounds_stop E round h [] s = tt
rounds_stop E round h (i ∷ is) s =
    bind-Ensures E Any Any (round i s) _ (h i s)
      λ p _. bind-Ensures E Any Any (rounds round is p.0) _ (rounds_stop E round h is p.0) λ q _. tt

-- What a read delivers has room in `size` bytes.
abbrev pub Room : ℕ → Option (List ℕ) → Type 0
Room size none = Unit
Room size (some bytes) = length bytes ≤ size

overwrite-room :
    (bytes array : List ℕ)
    → length bytes ≤ length array
    → overwrite bytes array ≡ some (bytes ++ drop (length bytes) array)
unfolding overwrite
overwrite-room bytes array h = ground arith

pub receive-Room :
    (received : Option (List ℕ)) (buff : List ℕ)
    → Room (length buff) received
    → (b : List ℕ) × (receive received buff ≡ ok b) × (length b ≡ length buff)
unfolding receive
receive-Room none buff room = (buff, refl, refl)
receive-Room (some bytes) buff room =
    let stored : overwrite bytes buff ≡ some (bytes ++ drop (length bytes) buff) =
      overwrite-room bytes buff room in
    (_, ap (or_stop overrun) stored, overwrite-length bytes buff stored)
