-- ===== src/Checker/Socket.antt =====
-- The Android client (MyoChecker/app/src/main/java/com/myoprj/myochecker) at the socket on which the section
-- MAIN of MyoNucMotor/MyoNucMotor/main.cpp calls send.
use myodesignproject.Base.{ℕ, ◌≡◌, ◌∙◌, ap, true, Option, some, List, [], ◌++◌, length}
use myodesignproject.Sensor.{Float, Sensor}
use myodesignproject.Sensor.WireFormat.{Wire, IsWire}
use myodesignproject.Sensor.Stream.{HasFloats}
use myodesignproject.Rounds.{ok, Outbox, IsStore}
use myodesignproject.Controller.{answers}
use myodesignproject.Controller.Refines.{Holds}
use myodesignproject.Controller.Spec.{Numbers, message_of, spec_run, all_selected}
use myodesignproject.Sockets.{transmit}
use myodesignproject.Sockets.Calls.{Winsock, IsWinsock}
use myodesignproject.Sockets.Connect.{transmit-received}
use myodesignproject.Checker.Sent.{received, messages}
use myodesignproject.Checker.Numbers.{GivesFloats}
use myodesignproject.Checker.Input.{JavaWire, IsJavaWire}
use myodesignproject.Checker.{check_update, new_str}
use myodesignproject.Checker.Blocks.{reads_of}
use myodesignproject.Checker.Shows.{exact_all, checker_shows_answers}

module _ {w : Wire} (lawful : IsWire w) {j : JavaWire} (java : IsJavaWire j)
    (stof : List ℕ → Option Float) {serialize_to : Sensor → List ℕ → List ℕ}
    (store : IsStore w serialize_to) (gives : GivesFloats stof) {W : Type 0} {ws : Winsock W}
    (net : IsWinsock ws) (client : ℕ)
    (sends : (bytes : List ℕ) (v : W) → (ws.send client bytes v).0 ≡ some (length bytes)) where
  -- With libraries that keep to IsWire, IsStore and IsJavaWire, a std::stof that gives bit
  -- patterns below 2 ^ 32, a system that keeps to IsWinsock, and a socket on which nothing was
  -- sent and on which each call of send sends all of its bytes: for any texts that the section
  -- MAIN reads, from a state on where its message has no zero and tcpBuffer begins with the bytes
  -- of the numbers that were sent last, none of them a zero: its answers do not stop it, and an
  -- Android client each of whose reads gets the next 25 bytes on the socket behind the calls of
  -- send, one read for each message, is not ended by an exception and hands to its screen just the
  -- five numbers of each message that the machine of Controller/Spec puts out, in order.
  pub checker_shows_sent :
      (texts : List (List ℕ)) (o : Outbox) (last : Numbers) (v : W)
      → Holds w last o
      → HasFloats (message_of last)
      → net.sent v client ≡ []
      → let ms = messages (spec_run stof (all_selected texts) last).1 in
        (o' : Outbox) × (sent : List (Option (List ℕ))) × (answers stof serialize_to texts o
          ≡ ok (o', sent))
        × (check_update j
              (reads_of (length ms) (net.sent (transmit ws client sent v) client))
              new_str
            ≡ (exact_all ms, true))
  checker_shows_sent texts o last v h floats empty =
      let ms = messages (spec_run stof (all_selected texts) last).1 in
      let (o', sent, e, shown) =
        checker_shows_answers lawful java stof store gives texts o last h floats in
      let stream : net.sent (transmit ws client sent v) client ≡ received sent =
        transmit-received net client sends sent v ∙ ap (λ (b : List ℕ). b ++ received sent) empty in
      (
        o',
        sent,
        e,
        ap (λ (b : List ℕ). check_update j (reads_of (length ms) b) new_str) stream ∙ shown,
      )
