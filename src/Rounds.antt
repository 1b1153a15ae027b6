-- ===== src/Rounds.antt =====
-- What one round of a program's loop ends with, and the parts that the loops of
-- MyoNucMotor/MyoNucMotor/main.cpp, NUCServer/NUCServer/Server.cpp and MyoWin/MyoWin/main.cpp share.
pub mod Rules
use myodesignproject.Base.{
  All, ◌∷◌, ℕ, ◌≤◌, ◌≡◌, Option, none, some, List, [], ◌++◌, length, take, drop,
}
use myodesignproject.Sensor.{Sensor, serialize, total_size, byte_size}
use myodesignproject.Sensor.WireFormat.{Wire}
use myodesignproject.Text.{c_string, overwrite}

-- Why a program stops: a write behind an array, a read behind an array that has no zero byte, an
-- argument that the C library refuses, or an exception that reaches the handler of `main`.
pub data Fault : Type 0 where
  overrun unterminated refused uncaught : Fault

pub data Result {ℓ} (A : Type ℓ) : Type ℓ where
  ok : A → Result A
  stop : Fault → Result A

infixl 5 ◌>>=◌
abbrev pub ◌>>=◌ {ℓ κ} : {A : Type ℓ} {B : Type κ} → Result A → (A → Result B) → Result B
ok a >>= f = f a
stop e >>= f = stop e

-- What a computation ends with: `E` of its fault, or `P` of its value; and the rule for a sequence.
abbrev pub Ensures : {A : Type 0} → (Fault → Type 0) → (A → Type 0) → Result A → Type 0
Ensures E P (stop f) = E f
Ensures E P (ok a) = P a

pub bind-Ensures :
    {A B : Type 0} (E : Fault → Type 0) (Q : A → Type 0) (P : B → Type 0) (m : Result A)
    (f : A → Result B)
    → Ensures E Q m
    → ((a : A) → Q a → Ensures E P (f a))
    → Ensures E P (m >>= f)
bind-Ensures E Q P (stop e) f h k = h
bind-Ensures E Q P (ok a) f h k = k a h

abbrev pub or_stop {ℓ} : {A : Type ℓ} → Fault → Option A → Result A
or_stop e none = stop e
or_stop e (some a) = ok a

-- The rounds of an endless loop, as far as there are inputs; what they put out comes in order.
unfoldable pub rounds :
    {I S O : Type 0} → (I → S → Result (S × O)) → List I → S → Result (S × List O)
rounds round [] s = ok (s, [])
rounds round (i ∷ is) s = do
  (s', out) ← round i s
  (s'', outs) ← rounds round is s'
  ok (s'', out ∷ outs)

-- An invariant of a round is one of the loop, and so is what each round puts out.
module _ {I S O : Type 0} (E : Fault → Type 0) (Inv : S → Type 0) (Q : O → Type 0)
    (round : I → S → Result (S × O))
    (keeps : (i : I) (s : S) → Inv s → Ensures E (λ (p : S × O). Inv p.0 × Q p.1) (round i s)) where
  pub rounds-Ensures :
      (is : List I) (s : S)
      → Inv s
      → Ensures E (λ (p : S × List O). Inv p.0 × All Q p.1) (rounds round is s)
  unfolding rounds
  rounds-Ensures [] s h = (h, tt)
  rounds-Ensures (i ∷ is) s h =
      bind-Ensures E (λ p. Inv p.0 × Q p.1) (λ p. Inv p.0 × All Q p.1) (round i s) _ (keeps i s h)
        λ p k.
          bind-Ensures E (λ q. Inv q.0 × All Q q.1) (λ q. Inv q.0 × All Q q.1) (rounds round is p.0)
            _ (rounds-Ensures is p.0 k.0) λ q r. (r.0, (k.1, r.1))

-- `port.Read` into an array: a failed read (-1, here `none`) stores nothing.
unfoldable pub receive : Option (List ℕ) → List ℕ → Result (List ℕ)
receive none array = ok array
receive (some bytes) array = or_stop overrun (overwrite bytes array)

-- `std::string s = array;`
unfoldable pub as_text : List ℕ → Result (List ℕ)
as_text array = or_stop unterminated (c_string array)

-- MessageLite::SerializeToArray of the protocol buffer library: the array after it, and what is
-- relied on, "serialize the message and store it in the given byte array".
pub record IsStore (w : Wire) (serialize_to : Sensor → List ℕ → List ℕ) : Type 0 where
  pub stores :
      (s : Sensor) (array : List ℕ)
      → total_size s ≤ length array
      → serialize_to s array ≡ serialize w s [] ++ drop (total_size s) array

-- The message and the array that is sent from.
pub record Outbox : Type 0 where
  pub sensor : Sensor
  pub tcp_buffer : List ℕ

-- `send(hClientSock, tcpBuffer, sensor.ByteSize(), 0)`: as many bytes of the array as the message
-- has now.
unfoldable pub send : Outbox → Outbox × List ℕ
unfolding byte_size
send o = let (size, s) = byte_size o.sensor in (record o { sensor = s }, take size o.tcp_buffer)
