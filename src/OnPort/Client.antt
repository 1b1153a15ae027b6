-- ===== src/OnPort/Client.antt =====
-- No read of the client writes behind its array (MyoWin/MyoWin/main.cpp, and the section MyoWin of
-- MyoNucMotor/MyoNucMotor/main.cpp).
use myodesignproject.Base.{
  ℕ, ◌≡◌, refl, sym, ◌∙◌, subst, Bool, true, false, Option, List, arith, length, All,
}
use myodesignproject.Collector.Sdk.{Sdk}
use myodesignproject.Collector.{Collector, Event, deliver}
use myodesignproject.Command.{put_command}
use myodesignproject.Rounds.{
  refused, Ensures, bind-Ensures, rounds-Ensures, or_stop, receive, as_text,
}
use myodesignproject.Rounds.Rules.{Any, Room, as_text-Ensures}
use myodesignproject.Serial.Win32.{Win32, IsWin32}
use myodesignproject.Serial.{Port}
use myodesignproject.WinClient as Win
use myodesignproject.WinClient.Bounds.{length-tokenize}
use myodesignproject.OnPort.{win_port_round, win_on_port, polled_read}
use myodesignproject.OnPort.Bounds.{OfTextOrCommand, receive-Sized, read-Room, put_command-Sized}

module _ (sdk : Sdk) (handler : sdk.Quaternion → Collector sdk → Collector sdk) (period : ℕ) where
  poll-Sized :
      (polls : Bool) (received : Option (List ℕ)) (buff : List ℕ)
      → Room (length buff) received
      → Ensures OfTextOrCommand
          (λ (p : List ℕ × Option (List ℕ)). length p.0 ≡ length buff)
          (Win.poll polls received buff)
  poll-Sized false received buff room = refl
  poll-Sized true received buff room =
      let P = λ (p : List ℕ × Option (List ℕ)). length p.0 ≡ length buff in
      bind-Ensures OfTextOrCommand (λ (b : List ℕ). length b ≡ length buff) P
        (receive received buff) _ (receive-Sized OfTextOrCommand received buff room)
        λ b same.
          bind-Ensures OfTextOrCommand Any P (as_text b) _ (as_text-Ensures OfTextOrCommand b tt)
            λ text _. length-tokenize b ∙ same

  win_round-Sized :
      (size : ℕ) (i : Win.Input sdk) (c : Win.WinClient sdk)
      → length c.buff ≡ size
      → Room size i.received
      → Ensures OfTextOrCommand
          (λ (p : Win.WinClient sdk × Win.Output). length p.0.buff ≡ size)
          (Win.round sdk handler period i c)
  unfolding Win.round
  win_round-Sized size i c sized room =
      let P = λ (p : Win.WinClient sdk × Win.Output). length p.0.buff ≡ size in
      let d = deliver sdk handler c.collector i.events in
      let v = sdk.to_int (sdk.mul d.speed (sdk.num 50)) in
      let polls = (Win.tick period c.timer).0 in
      bind-Ensures OfTextOrCommand (λ (b : List ℕ). length b ≡ length c.buff) P
        (or_stop refused (put_command v c.buff)) _ (put_command-Sized OfTextOrCommand v c.buff tt)
        λ b1 same.
          bind-Ensures OfTextOrCommand Any P (as_text b1) _ (as_text-Ensures OfTextOrCommand b1 tt)
            λ written _.
              bind-Ensures OfTextOrCommand
                (λ (p : List ℕ × Option (List ℕ)). length p.0 ≡ length b1) P
                (Win.poll polls i.received b1) _
                (poll-Sized polls i.received b1
                  (subst (λ n. Room n i.received) (sym (same ∙ sized)) room))
                λ p same2. same2 ∙ same ∙ sized

  module _ {W : Type 0} {api : Win32 W} (lawful : IsWin32 api) (port : Port) where
    polled-Room : (polls : Bool) (w : W) → Room 1024 (polled_read api port polls w).0
    polled-Room true w = read-Room lawful port 1024 1024 w (omega arith)
    polled-Room false w = tt

    win_port_round-Sized :
        (events : List (Event sdk)) (s : Win.WinClient sdk × W)
        → length s.0.buff ≡ 1024
        → Ensures OfTextOrCommand
            (λ (p : (Win.WinClient sdk × W) × Win.Output). (length p.0.0.buff ≡ 1024) × Unit {0})
            (win_port_round api port sdk handler period events s)
    unfolding win_port_round
    win_port_round-Sized events (c, w) sized =
        let polled = polled_read api port (Win.tick period c.timer).0 w in
        let i : Win.Input sdk = record { events = events; received = polled.0 } in
        bind-Ensures OfTextOrCommand
          (λ (p : Win.WinClient sdk × Win.Output). length p.0.buff ≡ 1024)
          (λ (p : (Win.WinClient sdk × W) × Win.Output). (length p.0.0.buff ≡ 1024) × Unit {0})
          (Win.round sdk handler period i c) _
          (win_round-Sized 1024 i c sized (polled-Room (Win.tick period c.timer).0 w))
          λ p k. (k, tt)

    -- With a system that keeps to IsWin32, and the buff of 1024 bytes: over any number of rounds,
    -- some of which read from a port, the client never writes behind buff and keeps its size, and
    -- nothing stops it but a buff without a zero byte or a command that the C library refuses.
    pub win_on_port-OfTextOrCommand :
        (is : List (List (Event sdk))) (c : Win.WinClient sdk) (w : W)
        → length c.buff ≡ 1024
        → Ensures OfTextOrCommand
            (λ (p : (Win.WinClient sdk × W) × List Win.Output).
              (length p.0.0.buff ≡ 1024) × All Any p.1)
            (win_on_port api port sdk handler period is (c, w))
    win_on_port-OfTextOrCommand is c w sized =
        rounds-Ensures OfTextOrCommand (λ (p : Win.WinClient sdk × W). length p.0.buff ≡ 1024) Any
          (win_port_round api port sdk handler period) win_port_round-Sized is (c, w) sized
