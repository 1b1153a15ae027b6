-- ===== src/Controller/Refines/Runs.antt =====
-- All answers of the section MAIN of MyoNucMotor/MyoNucMotor/main.cpp against the machine of
-- Controller/Spec.
use myodesignproject.Base.{ℕ, ◌≡◌, refl, ap, Option, List, [], ◌∷◌}
use myodesignproject.Sensor.{Float, Sensor}
use myodesignproject.Sensor.WireFormat.{Wire, IsWire}
use myodesignproject.Line.{select}
use myodesignproject.Line.Select.{select-IsCut}
use myodesignproject.Rounds.{Result, ok, stop, rounds, Outbox, IsStore}
use myodesignproject.Controller.{answer, answers}
use myodesignproject.Controller.Spec.{
  Numbers, frames_of, spec_step, spec_run, all_selected, all_frames,
}
use myodesignproject.Controller.Refines.{Holds, Agrees, answer-Agrees}

module _ {w : Wire} (lawful : IsWire w) (stof : List ℕ → Option Float)
    {serialize_to : Sensor → List ℕ → List ℕ} (store : IsStore w serialize_to) where
  -- The answer is an `ok` that holds the machine's next state.
  as_ok :
      (r : Numbers × Option Numbers) (m : Result (Outbox × Option (List ℕ)))
      → Agrees w r m
      → (o : Outbox) × (m ≡ ok (o, frames_of w r.1)) × Holds w r.0 o
  as_ok (last, out) (stop f) h = absurd h
  as_ok (last, out) (ok (o, sent)) h = (o, ap (λ (b : Option (List ℕ)). ok (o, b)) h.1, h.0)

  -- With a library that keeps to IsWire and IsStore, for any texts that are read, and a message
  -- and tcpBuffer of which the first has no zero and the second begins with the bytes of the
  -- numbers that were sent last, none of them a zero: the answers of the section MAIN do not stop
  -- the program, what each sends is the bytes of the numbers that the machine of Controller/Spec
  -- puts out, nothing where it puts out nothing, and the message and tcpBuffer then match the
  -- machine's state again.
  pub answers-refine :
      (texts : List (List ℕ)) (o : Outbox) (last : Numbers)
      → Holds w last o
      → let (end, outs) = spec_run stof (all_selected texts) last in
        (o' : Outbox) × (answers stof serialize_to texts o ≡ ok (o', all_frames w outs))
        × Holds w end o'
  unfolding rounds
  answers-refine [] o last h = (o, refl, h)
  answers-refine (text ∷ texts) o last h =
      let r = spec_step stof (select text) last in
      let (o1, e, h1) =
        as_ok r (answer stof serialize_to (select text) o)
          (answer-Agrees lawful stof store (select text) o last (select-IsCut text) h) in
      let (o2, e2, h2) = answers-refine texts o1 r.0 h1 in (o2, rw (e, rounds, e2), h2)
