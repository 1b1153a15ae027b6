-- ===== src/Sessions/Phases.antt =====
-- The two parts of a round (MyoNucMotor/MyoNucMotor/main.cpp and MyoWin/MyoWin/main.cpp) are the
-- round.
use myodesignproject.Base.{ℕ, ◌≡◌, refl, sym, ◌∙◌, Option, List}
use myodesignproject.Sensor.{Float, Sensor}
use myodesignproject.Line.{select}
use myodesignproject.Collector.Sdk.{Sdk}
use myodesignproject.Collector.{Collector, deliver, on_orientation_data}
use myodesignproject.Command.{put_command}
use myodesignproject.Rounds.{refused, Result, ok, stop, ◌>>=◌, or_stop, receive, as_text}
use myodesignproject.Controller as Main
use myodesignproject.WinClient as Win
use myodesignproject.Sessions.{command, respond, poll_into}

-- A sequence is that of the first part and the rest of the second.
bind_then :
    {A B C : Type 0} (m : Result A) (f : A → Result B) (g : A → Result C) (k : B → Result C)
    → ((a : A) → (f a >>= k) ≡ g a)
    → ((m >>= f) >>= k) ≡ (m >>= g)
bind_then (stop e) f g k h = refl
bind_then (ok a) f g k h = h a

module _ (sdk : Sdk) where
  -- The first command part of a round, and what follows it.
  command_then :
      {C : Type 0} (handler : sdk.Quaternion → Collector sdk → Collector sdk) (events : List _)
      (c : Collector sdk) (buff : List ℕ) (k : List ℕ × Collector sdk × List ℕ → Result C)
      → (command sdk handler events c buff >>= k) ≡ (
          or_stop refused (
            put_command
              (sdk.to_int (sdk.mul (deliver sdk handler c events).speed (sdk.num 50)))
              buff)
          >>= λ b1. as_text b1 >>= λ written. k (written, deliver sdk handler c events, b1))
  unfolding command
  command_then handler events c buff k =
      bind_then _ _ _ k λ b1. bind_then (as_text b1) _ _ k λ written. refl

  main_round-phases :
      (stof : List ℕ → Option Float) (serialize_to : Sensor → List ℕ → List ℕ) (i : Main.Input sdk)
      (c : Main.Controller sdk)
      → (Main.round sdk stof serialize_to i c >>= λ p. ok (p.0, p.1.sent)) ≡ (
          command sdk (on_orientation_data sdk) i.events c.collector c.buff >>= λ put.
          respond sdk stof serialize_to i.received
            (record { collector = put.1; buff = put.2; outbox = c.outbox }))
  unfolding Main.round respond
  main_round-phases stof serialize_to i c =
      bind_then _ _ _ _ (λ b1. bind_then (as_text b1) _ _ _ λ written.
        bind_then (receive i.received b1) _ _ _ λ b2.
          bind_then (as_text b2) _ _ _ λ text.
            bind_then (Main.answer stof serialize_to (select text) c.outbox) _ _ _ λ p. refl)
      ∙ sym (command_then (on_orientation_data sdk) i.events c.collector c.buff _)

  win_round-phases :
      (handler : sdk.Quaternion → Collector sdk → Collector sdk) (period : ℕ) (i : Win.Input sdk)
      (c : Win.WinClient sdk)
      → (Win.round sdk handler period i c >>= λ p. ok p.0) ≡ (
          command sdk handler i.events c.collector c.buff >>= λ put.
          poll_into sdk
            (Win.tick period c.timer).0
            i.received
            (Win.tick period c.timer).1
            put.1
            put.2)
  unfolding Win.round poll_into
  win_round-phases handler period i c =
      bind_then _ _ _ _ (λ b1.
        bind_then (as_text b1) _ _ _
          λ written. bind_then (Win.poll (Win.tick period c.timer).0 i.received b1) _ _ _ λ p. refl)
      ∙ sym (command_then handler i.events c.collector c.buff _)
