-- ===== src/Server/Whole.antt =====
-- The whole loop of NUCServer/NUCServer/Server.cpp, with its reads into serialBuffer.
use myodesignproject.Base.{ℕ, ◌≤◌, ◌≡◌, refl, sym, ◌∙◌, ap, Option, List, [], ◌∷◌, length}
use myodesignproject.Sensor.{Float, Sensor}
use myodesignproject.Sensor.WireFormat.{Wire, IsWire}
use myodesignproject.Line.{server_select}
use myodesignproject.Rounds.{Result, ok, stop, Ensures, receive, as_text, rounds, Outbox, IsStore}
use myodesignproject.Rounds.Rules.{Any, bind-known, known, ok-eq}
use myodesignproject.Controller.Spec.{all_frames}
use myodesignproject.Server.{Server, real_size, answer, server_answers, round, run}
use myodesignproject.Server.Refines.{readings_of, server_answers-refine}

module _ (stof : List ℕ → Option Float) (serialize_to : Sensor → List ℕ → List ℕ) where
  -- The rounds were made one behind the other; of each, `rs` has the count of its read and what
  -- serialBuffer held as a text behind it.
  abbrev pub Reads :
      List (Option (List ℕ)) → Server → List (Option ℕ × List ℕ) → List (Option (List ℕ)) → Type 0
  Reads [] s [] [] = Unit
  Reads (i ∷ is) s (r ∷ rs) (o ∷ os) =
      (s1 : Server) × (round stof serialize_to i s ≡ ok (s1, o))
      × (r.0 ≡ real_size i)
      × (as_text s1.serial_buffer ≡ ok r.1)
      × Reads is s1 rs os
  Reads _ _ _ _ = ⊥

  abbrev Told : Option (List ℕ) → Server → Server × Option (List ℕ) → Type 0
  Told i s p =
      (t : List ℕ) × (as_text p.0.serial_buffer ≡ ok t)
      × (answer stof serialize_to (server_select (real_size i) t) s.outbox ≡ ok (p.0.outbox, p.1))

  round-Told :
      (i : Option (List ℕ)) (s : Server) → Ensures Any (Told i s) (round stof serialize_to i s)
  unfolding round
  round-Told i s = bind-known (Told i s) (receive i s.serial_buffer) _ λ b e1.
      bind-known (Told i s) (as_text b) _ λ t e2.
        bind-known (Told i s) (answer stof serialize_to (server_select (real_size i) t) s.outbox) _
          λ q e3. (t, e2, e3)

  abbrev AllTold : List (Option (List ℕ)) → Server → Server × List (Option (List ℕ)) → Type 0
  AllTold is s p =
      (rs : List (Option ℕ × List ℕ)) × Reads is s rs p.1
      × (server_answers stof serialize_to rs s.outbox ≡ ok (p.0.outbox, p.1))

  run-AllTold :
      (is : List (Option (List ℕ))) (s : Server)
      → Ensures Any (AllTold is s) (run stof serialize_to is s)
  unfolding rounds
  run-AllTold [] s = ([], tt, refl)
  run-AllTold (i ∷ is) s = bind-known (AllTold (i ∷ is) s) (round stof serialize_to i s) _ λ p e.
      bind-known (AllTold (i ∷ is) s) (run stof serialize_to is p.0) _ λ q e'.
        let (t, text, answered) = known (Told i s) _ p e (round-Told i s) in
        let (rs, reads, more) = known (AllTold is p.0) _ q e' (run-AllTold is p.0) in
        ((real_size i, t) ∷ rs, (p.0, e, refl, text, reads), rw (answered, rounds, more) refl)

  -- The rounds were made, and each sent the bytes of the numbers of its own line.
  abbrev pub SentByLines :
      Wire → List (Option (List ℕ)) → Server → Server × List (Option (List ℕ)) → Type 0
  SentByLines w is s p =
      (rs : List (Option ℕ × List ℕ)) × Reads is s rs p.1
      × (p.1 ≡ all_frames w (readings_of stof rs))

  module _ {w : Wire} (lawful : IsWire w) (store : IsStore w serialize_to) where
    -- With a library that keeps to IsWire and IsStore, and a tcpBuffer of 25 bytes or more: over
    -- any number of rounds of the server with any reads: unless it has stopped, each round sent
    -- the bytes of a message with the five numbers of the line that it chose by the count of its
    -- read from what serialBuffer held as a text, where that line has them, and nothing else,
    -- whatever was read before.
    pub server_run-refines :
        (is : List (Option (List ℕ))) (s : Server)
        → 25 ≤ length s.outbox.tcp_buffer
        → Ensures Any (SentByLines w is s) (run stof serialize_to is s)
    server_run-refines is s room = by_run (run stof serialize_to is s) (run-AllTold is s)
      where
        by_run :
            (m : Result (Server × List (Option (List ℕ))))
            → Ensures Any (AllTold is s) m
            → Ensures Any (SentByLines w is s) m
        by_run (stop f) h = tt
        by_run (ok p) (rs, reads, e) =
            let (o', e') = server_answers-refine lawful stof store rs s.outbox room in
            let same =
              ok-eq (o', all_frames w (readings_of stof rs)) (p.0.outbox, p.1) (sym e' ∙ e) in
            (rs, reads, sym (ap (λ (q : Outbox × List (Option (List ℕ))). q.1) same))
