-- ===== src/WinClient/Bounds.antt =====
-- The array of the client (MyoWin/MyoWin/main.cpp), `char buff[1024]`, and what a round does to it.
use myodesignproject.Base.{
  ℕ, ◌+◌, ◌≤◌, ◌≡◌, refl, ◌∙◌, Bool, true, false, inl, inr, ◌⊎◌, Option, none, some, List, [], ◌∷◌,
  ◌++◌, arith, length, length-append,
}
use myodesignproject.Base.Int.{ℤ}
use myodesignproject.Text.{c_string}
use myodesignproject.Collector.Sdk.{Sdk}
use myodesignproject.Collector.{Collector, deliver}
use myodesignproject.Command.Digits.{Fits}
use myodesignproject.Command.Buffer.{put_command_text, command_text}
use myodesignproject.Rounds.{Result, ok, stop, unterminated, ◌>>=◌, as_text}
use myodesignproject.Rounds.Rules.{Room, receive-Room}
use myodesignproject.WinClient.{
  WinClient, Input, Output, tick, end_token, strtok_s, tokenize, poll, round, shown_text,
}

length-end_token : (s : List ℕ) → length (end_token s).0 + length (end_token s).1 ≡ length s
unfolding end_token
length-end_token [] = refl
length-end_token (c ∷ s) = ground (arith, length-end_token s)

length-strtok_s : (s : List ℕ) → length (strtok_s s).0 + length (strtok_s s).1 ≡ length s
unfolding strtok_s
length-strtok_s [] = refl
length-strtok_s (c ∷ s) = ground (arith, length-strtok_s s, length-end_token (c ∷ s))

-- The two calls of `strtok_s` leave the size of the array.
pub length-tokenize : (s : List ℕ) → length (tokenize s) ≡ length s
unfolding tokenize
length-tokenize s = ground (
  arith,
  length-append (strtok_s s).0 ((strtok_s (strtok_s s).1).0 ++ (strtok_s (strtok_s s).1).1),
  length-append (strtok_s (strtok_s s).1).0 (strtok_s (strtok_s s).1).1,
  length-strtok_s s,
  length-strtok_s (strtok_s s).1,
)

-- A read may fill the array without a zero byte; else the array keeps its size, and a text is shown
-- just if the round reads.
abbrev pub Polled : Bool → List ℕ → Result (List ℕ × Option (List ℕ)) → Type 0
Polled polls buff (stop f) = (polls ≡ true) × (f ≡ unterminated)
Polled polls buff (ok (b, none)) = (polls ≡ false) × (length b ≡ length buff)
Polled polls buff (ok (b, some text)) = (polls ≡ true) × (length b ≡ length buff)

shown-Polled :
    (received : Option (List ℕ)) (buff b : List ℕ) (t : Option (List ℕ))
    → c_string b ≡ t
    → length b ≡ length buff
    → Polled true buff (as_text b >>= λ text. ok (tokenize b, some (shown_text received text)))
unfolding as_text
shown-Polled received buff b none e size = rw e (refl, refl)
shown-Polled received buff b (some text) e size = rw e (refl, length-tokenize b ∙ size)

poll-Polled :
    (polls : Bool) (received : Option (List ℕ)) (buff : List ℕ)
    → Room (length buff) received
    → Polled polls buff (poll polls received buff)
poll-Polled false received buff room = (refl, refl)
poll-Polled true received buff room =
    let (b, e, size) = receive-Room received buff room in
    rw e (shown-Polled received buff b (c_string b) refl size)

-- What a round comes to: a new timer, an array of the old size and the command for the new speed, or
-- a stop where a read has filled the array.
abbrev pub Proceeds :
    (sdk : Sdk) → Bool × ℕ → ℤ → WinClient sdk → Result (WinClient sdk × Output) → Type 0
Proceeds sdk (polls, timer) speed c (stop f) = (polls ≡ true) × (f ≡ unterminated)
Proceeds sdk (polls, timer) speed c (ok (d, out)) =
    (d.timer ≡ timer)
    × (length d.buff ≡ length c.buff)
    × (out.written ≡ command_text speed)
    × ((out.shown ≡ none) ⊎ (polls ≡ true))

module _ (sdk : Sdk) (handler : sdk.Quaternion → Collector sdk → Collector sdk) (period : ℕ)
    (i : Input sdk) (c : WinClient sdk) where
  abbrev pub speed_of : ℤ
  speed_of = sdk.to_int (sdk.mul (deliver sdk handler c.collector i.events).speed (sdk.num 50))

  finish :
      (polls : Bool) (timer : ℕ) (b1 : List ℕ) (m : Result (List ℕ × Option (List ℕ)))
      → length b1 ≡ length c.buff
      → Polled polls b1 m
      → Proceeds sdk
          (polls, timer)
          speed_of
          c
          (m >>= λ (p : List ℕ × Option (List ℕ)). ok (
            record {
              collector = deliver sdk handler c.collector i.events;
              buff = p.0;
              timer = timer;
            },
            record { written = command_text speed_of; shown = p.1 },
          ))
  finish polls timer b1 (stop f) size h = h
  finish polls timer b1 (ok (b, none)) size h = (refl, h.1 ∙ size, refl, inl refl)
  finish polls timer b1 (ok (b, some t)) size h = (refl, h.1 ∙ size, refl, inr h.0)

  -- A round of the client, with a speed that fits, an array of ten bytes or more and a read that
  -- has room in it, never writes behind the array; it can stop only where it reads and the array
  -- has no zero byte left, and else it moves the timer on, keeps the array's size, has written the
  -- command for its speed and shows a text only if it reads.
  pub round-Proceeds :
      Fits speed_of
      → 10 ≤ length c.buff
      → Room (length c.buff) i.received
      → Proceeds sdk (tick period c.timer) speed_of c (round sdk handler period i c)
  unfolding round as_text
  round-Proceeds fits room received =
      let (b1, stored, text, size) = put_command_text speed_of c.buff fits room in
      rw (stored, round, text)
        (finish (tick period c.timer).0 (tick period c.timer).1 b1
          (poll (tick period c.timer).0 i.received b1) size
          (poll-Polled (tick period c.timer).0 i.received b1 (rw size received)))
