-- ===== src/Checker/Shows.antt =====
-- What the Android client (MyoChecker/app/src/main/java/com/myoprj/myochecker) shows of what
-- MyoNucMotor/MyoNucMotor/main.cpp (the section MAIN) and NUCServer/NUCServer/Server.cpp send.
use myodesignproject.Base.{
  ℕ, zero, suc, ◌-◌, ◌≤◌, ◌<◌, ◌≡◌, refl, ◌∙◌, ap, true, false, Option, none, some, List, [], ◌∷◌,
  ◌++◌, arith, length, drop, All, leb,
}
use myodesignproject.Sensor.{Float, Sensor, serialize, total_size}
use myodesignproject.Sensor.WireFormat.{Wire, IsWire}
use myodesignproject.Sensor.Stream.{HasFloats}
use myodesignproject.Text.{overwrite}
use myodesignproject.Line.{Selected, server_select}
use myodesignproject.Rounds.{ok, Outbox, IsStore}
use myodesignproject.Controller.{answers}
use myodesignproject.Sensor.Size.{length-serialize}
use myodesignproject.Controller.Repeats.{IsFull}
use myodesignproject.Controller.Refines.{Holds}
use myodesignproject.Controller.Refines.Runs.{answers-refine}
use myodesignproject.Controller.Spec.{
  Numbers, message_of, frame_of, spec_step, spec_run, all_selected, all_frames,
}
use myodesignproject.Server.{server_answers}
use myodesignproject.Server.Refines.{reading_of, server_answers-refine}
use myodesignproject.Checker.Sent.{received, messages, received-all_frames}
use myodesignproject.Checker.Numbers.{
  Steps-Whole, reading_of-Floats, GivesFloats, Floats, Whole, Steps, spec_step-Steps,
  message_of-HasFloats,
}
use myodesignproject.Checker.Input.{JavaWire, IsJavaWire}
use myodesignproject.Checker.{
  DataSensor, Read, stored, fill_str, check_round, check_update, zeros, new_str,
}
use myodesignproject.Checker.Parse.{shown_of, parse_from-zero}
use myodesignproject.Checker.Blocks.{Complete, reads_of, shown_all, check_update-stream}

-- The five numbers of a message.
abbrev pub exact : Sensor → DataSensor
exact m = record { arg0 = m.arg0; arg1 = m.arg1; arg2 = m.arg2; arg3 = m.arg3; arg4 = m.arg4 }

abbrev pub exact_all : List Sensor → List DataSensor
exact_all [] = []
exact_all (m ∷ ms) = exact m ∷ exact_all ms

Complete-cons :
    (r : Numbers × Option Numbers) (last : Numbers) (outs : List (Option Numbers))
    → Steps last r
    → All Complete (messages outs)
    → All Complete (messages (r.1 ∷ outs))
Complete-cons (next, none) last outs e h = h
Complete-cons (next, some out) last outs (e, good) h =
    rw e (record { full = good.full; floats = good.floats }, h)

spec_run-Complete :
    (stof : List ℕ → Option Float)
    → GivesFloats stof
    → (cs : List Selected) (last : Numbers) → Whole last
    → All Complete (messages (spec_run stof cs last).1)
spec_run-Complete stof gives [] last good = tt
spec_run-Complete stof gives (c ∷ cs) last good =
    let r = spec_step stof c last in
    let steps = spec_step-Steps stof gives c last good in
    Complete-cons r last (spec_run stof cs r.0).1 steps
      (spec_run-Complete stof gives cs r.0 (Steps-Whole last r good steps))

drop-zeros : (n m : ℕ) → n < m → drop n (zeros m) ≡ 0 ∷ zeros (m - suc n)
drop-zeros n zero h = absurd (omega (arith, h))
drop-zeros zero (suc m) h = let same : m ≡ suc m - suc 0 = omega arith in ap (λ k. 0 ∷ zeros k) same
drop-zeros (suc n) (suc m) h =
    let same : m - suc n ≡ suc m - suc (suc n) = omega arith in
    drop-zeros n m (omega (arith, h)) ∙ ap (λ k. 0 ∷ zeros k) same

length-zeros : (n : ℕ) → length (zeros n) ≡ n
length-zeros zero = refl
length-zeros (suc n) = ap suc (length-zeros n)

-- A first read that gets fewer than 25 bytes leaves zero bytes behind them.
short_filled :
    (bytes : List ℕ)
    → length bytes < 25
    → fill_str (stored bytes) new_str ≡ some (bytes ++ 0 ∷ zeros (25 - suc (length bytes)))
unfolding fill_str overwrite
short_filled bytes h =
    let fits : leb (length bytes) (length new_str) ≡ true = ground (arith, h, length-zeros 25) in
    rw (fits, drop-zeros (length bytes) 25 h) refl

module _ {w : Wire} (lawful : IsWire w) {j : JavaWire} (java : IsJavaWire j) where
  shown_of-exact : (m : Sensor) → IsFull m → shown_of lawful java m ≡ exact m
  shown_of-exact m f = rw (f.full0, f.full1, f.full2, f.full3, f.full4) refl

  shown_all-exact : (ms : List Sensor) → All Complete ms → shown_all lawful java ms ≡ exact_all ms
  shown_all-exact [] h = refl
  shown_all-exact (m ∷ ms) h = rw (shown_of-exact m h.0.full, shown_all-exact ms h.1) refl

  -- A message of fewer than 25 bytes in the first read: the parser comes to a zero byte as a tag.
  pub short_message_ends :
      (m : Sensor) (rs : List Read)
      → HasFloats m
      → total_size m < 25
      → check_update j (stored (serialize w m []) ∷ rs) new_str ≡ ([], false)
  unfolding check_update check_round
  short_message_ends m rs f small =
      let size = length-serialize lawful m in
      let bytes = serialize w m [] in
      rw
        (
          short_filled bytes (omega (arith, size, small)),
          check_round,
          parse_from-zero lawful java m (zeros (25 - suc (length bytes))) f,
          check_update,
        )
        refl

  module _ (stof : List ℕ → Option Float) {serialize_to : Sensor → List ℕ → List ℕ}
      (store : IsStore w serialize_to) (gives : GivesFloats stof) where
    -- With libraries that keep to IsWire, IsStore and IsJavaWire, and a std::stof that gives bit
    -- patterns below 2 ^ 32: for any texts that the section MAIN reads, from a state on where its
    -- message has no zero and tcpBuffer begins with the bytes of the numbers that were sent last,
    -- none of them a zero: an Android client that gets the next 25 bytes of all that is sent by
    -- each of its reads, one for each message, is not ended by an exception and shows just the
    -- five numbers of each message that the machine of Controller/Spec puts out, in order.
    pub checker_shows_answers :
        (texts : List (List ℕ)) (o : Outbox) (last : Numbers)
        → Holds w last o
        → HasFloats (message_of last)
        → let ms = messages (spec_run stof (all_selected texts) last).1 in
          (o' : Outbox) × (sent : List (Option (List ℕ))) × (answers stof serialize_to texts o
            ≡ ok (o', sent))
          × (check_update j (reads_of (length ms) (received sent)) new_str ≡ (exact_all ms, true))
    checker_shows_answers texts o last h floats =
        let outs = (spec_run stof (all_selected texts) last).1 in
        let ms = messages outs in
        let complete =
          spec_run-Complete stof gives (all_selected texts) last
            (record { full = h.last_full; floats = floats }) in
        let (o', e, _) = answers-refine lawful stof store texts o last h in
        (
          o',
          all_frames w outs,
          e,
          ap (λ (b : List ℕ). check_update j (reads_of (length ms) b) new_str)
                (received-all_frames w outs)
              ∙ check_update-stream lawful java ms new_str complete (length-zeros 25)
              ∙ ap (λ (shown : List DataSensor). (shown, true)) (shown_all-exact ms complete),
        )

    -- With libraries that keep to IsWire, IsStore and IsJavaWire, a std::stof that gives bit
    -- patterns below 2 ^ 32, and a tcpBuffer of 25 bytes or more: where a read of the server has a
    -- line with five numbers whose message takes fewer than 25 bytes, as it does if one of them is
    -- a zero, an Android client whose first read gets just what the server sends for it is ended
    -- by an exception before it hands anything to its screen.
    pub server_zero_ends_checker :
        (real : Option ℕ) (text : List ℕ) (o : Outbox) (vs : Numbers)
        → 25 ≤ length o.tcp_buffer
        → reading_of stof (server_select real text) ≡ some vs
        → total_size (message_of vs) < 25
        → (o' : Outbox) × (bytes : List ℕ) × (server_answers stof serialize_to ((real, text) ∷ []) o
            ≡ ok (o', some bytes ∷ []))
          × ((rs : List Read) → check_update j (stored bytes ∷ rs) new_str ≡ ([], false))
    server_zero_ends_checker real text o vs room e small =
        let (o', sent) = server_answers-refine lawful stof store ((real, text) ∷ []) o room in
        let c = server_select real text in
        let (floats, five) : Floats 5 (some vs) = rw e at (reading_of-Floats stof gives c) in
        (
          o',
          frame_of w vs,
          rw e at sent,
          λ rs. short_message_ends (message_of vs) rs (message_of-HasFloats vs floats five) small,
        )
