-- ===== src/Controller/Whole.antt =====
-- The whole loop of the section MAIN of MyoNucMotor/MyoNucMotor/main.cpp from its start on, with its
-- events, commands and arrays.
use myodesignproject.Base.{ℕ, ◌≤◌, ◌≡◌, refl, sym, ◌∙◌, subst, Option, List, [], ◌∷◌, length}
use myodesignproject.Sensor.{Float, Sensor}
use myodesignproject.Sensor.WireFormat.{Wire, IsWire}
use myodesignproject.Line.{select}
use myodesignproject.Collector.Sdk.{Sdk}
use myodesignproject.Collector.{deliver, on_orientation_data}
use myodesignproject.Command.{put_command}
use myodesignproject.Rounds.{
  Result, ok, stop, Ensures, or_stop, refused, receive, as_text, rounds, Outbox, IsStore,
}
use myodesignproject.Rounds.Rules.{Any, bind-known, known, ok-eq}
use myodesignproject.Controller.{Controller, Input, Output, answer, answers, round, run}
use myodesignproject.Controller.Spec.{all_selected}
use myodesignproject.Controller.Begins.{Begins, Sends, answers_from_start}

abbrev pub all_sent : List Output → List (Option (List ℕ))
all_sent [] = []
all_sent (o ∷ os) = o.sent ∷ all_sent os

module _ (sdk : Sdk) (stof : List ℕ → Option Float) (serialize_to : Sensor → List ℕ → List ℕ) where
  -- The rounds were made one behind the other, and `texts` is what buff held as a text after each.
  abbrev pub Reads : List (Input sdk) → Controller sdk → List (List ℕ) → List Output → Type 0
  Reads [] c [] [] = Unit
  Reads (i ∷ is) c (t ∷ ts) (o ∷ os) =
      (c1 : Controller sdk) × (round sdk stof serialize_to i c ≡ ok (c1, o))
      × (as_text c1.buff ≡ ok t)
      × Reads is c1 ts os
  Reads _ _ _ _ = ⊥

  -- What a round ends with: its answer is that to the text that buff holds then.
  abbrev Told : Controller sdk → Controller sdk × Output → Type 0
  Told c p =
      (t : List ℕ) × (as_text p.0.buff ≡ ok t)
      × (answer stof serialize_to (select t) c.outbox ≡ ok (p.0.outbox, p.1.sent))

  round-Told :
      (i : Input sdk) (c : Controller sdk) → Ensures Any (Told c) (round sdk stof serialize_to i c)
  unfolding round
  round-Told i c =
      let d = deliver sdk (on_orientation_data sdk) c.collector i.events in
      let put = put_command (sdk.to_int (sdk.mul d.speed (sdk.num 50))) c.buff in
      bind-known (Told c) (or_stop refused put) _ λ b1 e1.
        bind-known (Told c) (as_text b1) _ λ written e2.
          bind-known (Told c) (receive i.received b1) _ λ b2 e3.
            bind-known (Told c) (as_text b2) _ λ t e4.
              bind-known (Told c) (answer stof serialize_to (select t) c.outbox) _
                λ q e5. (t, e4, e5)

  abbrev AllTold : List (Input sdk) → Controller sdk → Controller sdk × List Output → Type 0
  AllTold is c p =
      (texts : List (List ℕ)) × Reads is c texts p.1
      × (answers stof serialize_to texts c.outbox ≡ ok (p.0.outbox, all_sent p.1))

  run-AllTold :
      (is : List (Input sdk)) (c : Controller sdk)
      → Ensures Any (AllTold is c) (run sdk stof serialize_to is c)
  unfolding rounds
  run-AllTold [] c = ([], tt, refl)
  run-AllTold (i ∷ is) c =
      bind-known (AllTold (i ∷ is) c) (round sdk stof serialize_to i c) _ λ p e.
        bind-known (AllTold (i ∷ is) c) (run sdk stof serialize_to is p.0) _ λ q e'.
          let (t, text, answered) = known (Told c) _ p e (round-Told i c) in
          let (ts, reads, more) = known (AllTold is p.0) _ q e' (run-AllTold is p.0) in
          (t ∷ ts, (p.0, e, text, reads), rw (answered, rounds, more) refl)

  -- The rounds were made, and what they sent is what the texts between them ask for.
  abbrev pub SentFromStart :
      Wire → List ℕ → List (Input sdk) → Controller sdk → Controller sdk × List Output → Type 0
  SentFromStart w array is c p =
      (texts : List (List ℕ)) × Reads is c texts p.1
      × Sends w stof array (all_selected texts) (all_sent p.1)

  module _ {w : Wire} (lawful : IsWire w) (store : IsStore w serialize_to) (array : List ℕ)
      (room : 25 ≤ length array) where
    -- With a library that keeps to IsWire and IsStore, over any number of rounds of the section
    -- MAIN with any events and any reads, from a message without an arg4 and a tcpBuffer of 25
    -- bytes or more on, as it starts with: unless the program has stopped, what the rounds sent
    -- is, in order, what the texts that buff held behind each of them ask for: nothing for a text
    -- without a line; at most 20 bytes of tcpBuffer as it was at the start for each line before
    -- the first one with five numbers; the bytes of its numbers for that line, with -1 for each 0;
    -- and from there on what the machine of Controller/Spec puts out.
    pub run_from_start :
        (is : List (Input sdk)) (c : Controller sdk)
        → Begins array c.outbox
        → Ensures Any (SentFromStart w array is c) (run sdk stof serialize_to is c)
    run_from_start is c b = by_run (run sdk stof serialize_to is c) (run-AllTold is c)
      where
        by_run :
            (m : Result (Controller sdk × List Output))
            → Ensures Any (AllTold is c) m
            → Ensures Any (SentFromStart w array is c) m
        by_run (stop f) h = tt
        by_run (ok p) (texts, reads, e) =
            let (o', outs, e', sends) =
              answers_from_start lawful stof store array room texts c.outbox b in
            let same = ok-eq (o', outs) (p.0.outbox, all_sent p.1) (sym e' ∙ e) in
            (
              texts,
              reads,
              subst
                  (λ (q : Outbox × List (Option (List ℕ))).
                    Sends w stof array (all_selected texts) q.1)
                  same sends,
            )
