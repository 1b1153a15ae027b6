-- ===== src/Controller/Ready/Runs.antt =====
-- All rounds of the section MAIN of MyoNucMotor/MyoNucMotor/main.cpp, from a ready outbox on.
use myodesignproject.Base.{ℕ, Option, List, All}
use myodesignproject.Sensor.{Float, Sensor}
use myodesignproject.Sensor.WireFormat.{Wire, IsWire}
use myodesignproject.Collector.Sdk.{Sdk}
use myodesignproject.Rounds.{Result, ok, stop, Ensures, rounds-Ensures, Outbox, IsStore}
use myodesignproject.Controller.{Controller, Input, Output, round, run}
use myodesignproject.Controller.Rules.{round_result, round-Ensures}
use myodesignproject.Controller.Ready.{Ready, Sent, Answers, select-Answers}

module _ {w : Wire} (lawful : IsWire w) (stof : List ℕ → Option Float)
    {serialize_to : Sensor → List ℕ → List ℕ} (store : IsStore w serialize_to) where
  module _ (sdk : Sdk) where
    abbrev pub RoundKept : Controller sdk × Output → Type 0
    RoundKept (c, out) = Ready w c.outbox × Sent w out.sent

    abbrev pub RoundKeeps : Result (Controller sdk × Output) → Type 0
    RoundKeeps = Ensures (λ _. Unit) RoundKept

    abbrev pub RunKeeps : Result (Controller sdk × List Output) → Type 0
    RunKeeps =
        Ensures (λ _. Unit)
          (λ (p : Controller sdk × List Output).
            Ready w p.0.outbox × All (λ (out : Output). Sent w out.sent) p.1)

    round-RoundKeeps :
        (i : Input sdk) (c : Controller sdk)
        → Ready w c.outbox
        → RoundKeeps (round sdk stof serialize_to i c)
    round-RoundKeeps i c r =
        round-Ensures sdk stof serialize_to (λ _. Unit) RoundKept i c tt tt tt
          λ b2 written text.
            answered b2 written _ (select-Answers lawful stof store text c.outbox r)
      where
        answered :
            (b2 written : List ℕ) (m : Result (Outbox × Option (List ℕ)))
            → Answers w m
            → Ensures (λ _. Unit) (λ p. RoundKept (round_result sdk i c b2 written p)) m
        answered b2 written (stop f) h = tt
        answered b2 written (ok p) h = h

    -- With a library that keeps to IsWire and IsStore, over any number of rounds of the section
    -- MAIN with any events and any reads, from a state on where the message has no zero and
    -- tcpBuffer begins with the bytes of a message without a zero: unless the program has stopped,
    -- it is in such a state again and each message sent in those rounds is the bytes of a message
    -- without a zero.
    pub run-RunKeeps :
        (is : List (Input sdk)) (c : Controller sdk)
        → Ready w c.outbox
        → RunKeeps (run sdk stof serialize_to is c)
    run-RunKeeps =
        rounds-Ensures (λ _. Unit) (λ (c : Controller sdk). Ready w c.outbox)
          (λ (out : Output). Sent w out.sent) (round sdk stof serialize_to) round-RoundKeeps
