-- ===== src/Controller/Rules.antt =====
-- The proof rule of a round of the section MAIN (MyoNucMotor/MyoNucMotor/main.cpp).
use myodesignproject.Base.{ℕ, Option, List}
use myodesignproject.Sensor.{Float, Sensor}
use myodesignproject.Line.{select}
use myodesignproject.Collector.Sdk.{Sdk}
use myodesignproject.Collector.{deliver, on_orientation_data}
use myodesignproject.Command.{put_command}
use myodesignproject.Rounds.{
  Fault, overrun, unterminated, refused, Ensures, bind-Ensures, or_stop, receive, as_text, Outbox,
}
use myodesignproject.Rounds.Rules.{Any, or_stop-Ensures, receive-Ensures, as_text-Ensures}
use myodesignproject.Controller.{Controller, Input, Output, answer, round}

module _ (sdk : Sdk) where
  -- What a round ends with, by the array and what was written and answered.
  abbrev pub round_result :
      Input sdk
      → Controller sdk
      → List ℕ
      → List ℕ
      → Outbox × Option (List ℕ)
      → Controller sdk × Output
  round_result i c b2 written (outbox, sent) = (
    record {
      collector = deliver sdk (on_orientation_data sdk) c.collector i.events;
      buff = b2;
      outbox = outbox;
    },
    record { written = written; sent = sent },
  )

module _ (sdk : Sdk) (stof : List ℕ → Option Float) (serialize_to : Sensor → List ℕ → List ℕ) where
  -- What holds after the answer to any text holds after the round.
  pub round-Ensures :
      (E : Fault → Type 0) (P : Controller sdk × Output → Type 0) (i : Input sdk)
      (c : Controller sdk)
      → E overrun
      → E unterminated
      → E refused
      → ((b2 written text : List ℕ)
          → Ensures E
              (λ p. P (round_result sdk i c b2 written p))
              (answer stof serialize_to (select text) c.outbox))
      → Ensures E P (round sdk stof serialize_to i c)
  unfolding round
  round-Ensures E P i c h1 h2 h3 k =
      let d = deliver sdk (on_orientation_data sdk) c.collector i.events in
      let put = put_command (sdk.to_int (sdk.mul d.speed (sdk.num 50))) c.buff in
      bind-Ensures E Any P (or_stop refused put) _ (or_stop-Ensures E refused put h3) λ b1 _.
        bind-Ensures E Any P (as_text b1) _ (as_text-Ensures E b1 h2) λ written _.
          bind-Ensures E Any P (receive i.received b1) _ (receive-Ensures E i.received b1 h1)
            λ b2 _. bind-Ensures E Any P (as_text b2) _ (as_text-Ensures E b2 h2) λ text _.
              bind-Ensures E (λ p. P (round_result sdk i c b2 written p)) P
                (answer stof serialize_to (select text) c.outbox) _ (k b2 written text) λ p h. h
