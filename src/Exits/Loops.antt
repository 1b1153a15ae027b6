-- ===== src/Exits/Loops.antt =====
-- What can stop the loops of MyoNucMotor/MyoNucMotor/main.cpp (the section MAIN),
-- NUCServer/NUCServer/Server.cpp and MyoWin/MyoWin/main.cpp.
use myodesignproject.Base.{ℕ, Option, List, Bool, true, false}
use myodesignproject.Sensor.{Float, Sensor}
use myodesignproject.Line.{Selected, thrown, skipped, line, select, server_select}
use myodesignproject.Line.Select.{IsCut, select-IsCut, server_select-IsCut}
use myodesignproject.Collector.Sdk.{Sdk}
use myodesignproject.Collector.{Collector, deliver}
use myodesignproject.Command.{put_command}
use myodesignproject.Rounds.{
  Fault, overrun, unterminated, refused, Ensures, bind-Ensures, or_stop, receive, as_text, Outbox,
}
use myodesignproject.Rounds.Rules.{
  NoException, OfMemory, Any, or_stop-Ensures, receive-Ensures, as_text-Ensures, rounds_stop,
}
use myodesignproject.Controller as Main
use myodesignproject.Controller.Rules.{round-Ensures}
use myodesignproject.Server as Server
use myodesignproject.WinClient as Win

module _ (stof : List ℕ → Option Float) (serialize_to : Sensor → List ℕ → List ℕ) where
  pub main_answer-Ensures :
      (E : Fault → Type 0) (c : Selected) (o : Outbox)
      → IsCut c
      → Ensures E Any (Main.answer stof serialize_to c o)
  unfolding Main.answer
  main_answer-Ensures E thrown o cut = absurd cut
  main_answer-Ensures E skipped o cut = tt
  main_answer-Ensures E (line s) o cut = tt

  -- No exception leaves the loop of the section MAIN.
  pub main_run-NoException :
      (sdk : Sdk) (is : List (Main.Input sdk)) (c : Main.Controller sdk)
      → Ensures NoException Any (Main.run sdk stof serialize_to is c)
  main_run-NoException sdk = rounds_stop NoException (Main.round sdk stof serialize_to) λ i c.
      round-Ensures sdk stof serialize_to NoException Any i c tt tt tt λ b2 written text.
        main_answer-Ensures NoException (select text) c.outbox (select-IsCut text)

  pub server_answer-Ensures :
      (E : Fault → Type 0) (c : Selected) (o : Outbox)
      → IsCut c
      → Ensures E Any (Server.answer stof serialize_to c o)
  unfolding Server.answer
  server_answer-Ensures E thrown o cut = absurd cut
  server_answer-Ensures E skipped o cut = tt
  server_answer-Ensures E (line s) o cut = tt

  server_round-OfMemory :
      (received : Option (List ℕ)) (s : Server.Server)
      → Ensures OfMemory Any (Server.round stof serialize_to received s)
  unfolding Server.round
  server_round-OfMemory received s =
      bind-Ensures OfMemory Any Any (receive received s.serial_buffer) _
        (receive-Ensures OfMemory received s.serial_buffer tt)
        λ buffer _.
          bind-Ensures OfMemory Any Any (as_text buffer) _ (as_text-Ensures OfMemory buffer tt)
            λ text _.
              let selected = server_select (Server.real_size received) text in
              bind-Ensures OfMemory Any Any (Server.answer stof serialize_to selected s.outbox) _
                (server_answer-Ensures OfMemory selected s.outbox
                  (server_select-IsCut (Server.real_size received) text))
                λ p _. tt

  -- Only a wrong access to memory stops the loop of the server.
  pub server_run-OfMemory :
      (is : List (Option (List ℕ))) (s : Server.Server)
      → Ensures OfMemory Any (Server.run stof serialize_to is s)
  server_run-OfMemory = rounds_stop OfMemory (Server.round stof serialize_to) server_round-OfMemory

poll-Ensures :
    (E : Fault → Type 0) (polls : Bool) (received : Option (List ℕ)) (buff : List ℕ)
    → E overrun
    → E unterminated
    → Ensures E Any (Win.poll polls received buff)
poll-Ensures E false received buff h1 h2 = tt
poll-Ensures E true received buff h1 h2 =
    bind-Ensures E Any Any (receive received buff) _ (receive-Ensures E received buff h1)
      λ b _. bind-Ensures E Any Any (as_text b) _ (as_text-Ensures E b h2) λ text _. tt

module _ (sdk : Sdk) (handler : sdk.Quaternion → Collector sdk → Collector sdk) (period : ℕ) where
  win_round-NoException :
      (i : Win.Input sdk) (c : Win.WinClient sdk)
      → Ensures NoException Any (Win.round sdk handler period i c)
  unfolding Win.round
  win_round-NoException i c =
      let d = deliver sdk handler c.collector i.events in
      let put = put_command (sdk.to_int (sdk.mul d.speed (sdk.num 50))) c.buff in
      let polls = (Win.tick period c.timer).0 in
      bind-Ensures NoException Any Any (or_stop refused put) _
        (or_stop-Ensures NoException refused put tt)
        λ b1 _.
          bind-Ensures NoException Any Any (as_text b1) _ (as_text-Ensures NoException b1 tt)
            λ written _.
              bind-Ensures NoException Any Any (Win.poll polls i.received b1) _
                (poll-Ensures NoException polls i.received b1 tt tt) λ p _. tt

  -- No exception leaves the loop of the client.
  pub win_run-NoException :
      (is : List (Win.Input sdk)) (c : Win.WinClient sdk)
      → Ensures NoException Any (Win.run sdk handler period is c)
  win_run-NoException = rounds_stop NoException (Win.round sdk handler period) win_round-NoException
