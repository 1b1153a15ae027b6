-- ===== src/OnPort/Bounds.antt =====
-- Which reads of the loops can write behind their arrays (NUCServer/NUCServer/Server.cpp and
-- MyoNucMotor/MyoNucMotor/main.cpp).
use myodesignproject.Base.{
  ℕ, ◌≤◌, ◌<◌, ◌≡◌, refl, ◌∙◌, subst, Option, none, some, List, arith, length, All,
}
use myodesignproject.Base.Int.{ℤ}
use myodesignproject.Sensor.{Float, Sensor}
use myodesignproject.Text.{overwrite}
use myodesignproject.Text.Laws.{overwrite-length}
use myodesignproject.Line.{select, server_select}
use myodesignproject.Line.Select.{select-IsCut, server_select-IsCut}
use myodesignproject.Collector.Sdk.{Sdk}
use myodesignproject.Collector.{Event, deliver, on_orientation_data}
use myodesignproject.Command.{put_command}
use myodesignproject.Command.Buffer.{put_command-length}
use myodesignproject.Rounds.{
  Fault, overrun, unterminated, refused, uncaught, Result, Ensures, bind-Ensures, rounds-Ensures,
  or_stop, receive, as_text,
}
use myodesignproject.Rounds.Rules.{Any, Room, receive-Room, as_text-Ensures}
use myodesignproject.Serial.Win32.{Win32, IsWin32}
use myodesignproject.Serial.{Port, read, read_result}
use myodesignproject.Controller as Main
use myodesignproject.Server as Server
use myodesignproject.Exits.Loops.{main_answer-Ensures, server_answer-Ensures}
use myodesignproject.OnPort.{received_of, feed, server_on_port, main_on_port}

-- An array without a zero byte was read as a text; or the C library refused a command.
abbrev pub OfText : Fault → Type 0
OfText unterminated = Unit
OfText overrun = ⊥
OfText refused = ⊥
OfText uncaught = ⊥

abbrev pub OfTextOrCommand : Fault → Type 0
OfTextOrCommand unterminated = Unit
OfTextOrCommand refused = Unit
OfTextOrCommand overrun = ⊥
OfTextOrCommand uncaught = ⊥

pub receive-Sized :
    (E : Fault → Type 0) (received : Option (List ℕ)) (array : List ℕ)
    → Room (length array) received
    → Ensures E (λ (b : List ℕ). length b ≡ length array) (receive received array)
receive-Sized E received array room =
    let (b, e, size) = receive-Room received array room in rw e size

-- What `Read` delivers has room where it may be stored.
module _ {W : Type 0} {api : Win32 W} (lawful : IsWin32 api) (port : Port) where
  pub read-Room :
      (size max : ℕ) (w : W) → max ≤ size → Room size (received_of (read api max port w).0)
  unfolding read
  read-Room size max w le = answered (api.read_file port max w) refl
    where
      answered :
          (r : Option (List ℕ) × W)
          → api.read_file port max w ≡ r
          → Room size (received_of (read_result r.0))
      answered (none, w') e = tt
      answered (some bytes, w') e = omega (arith, lawful.read_file_bound port max w w' bytes e)

module _ (stof : List ℕ → Option Float) (serialize_to : Sensor → List ℕ → List ℕ) where
  server_round-Sized :
      (size : ℕ) (received : Option (List ℕ)) (s : Server.Server)
      → length s.serial_buffer ≡ size
      → Room size received
      → Ensures OfText
          (λ (p : Server.Server × Option (List ℕ)). length p.0.serial_buffer ≡ size)
          (Server.round stof serialize_to received s)
  unfolding Server.round
  server_round-Sized size received s sized room =
      let P = λ (p : Server.Server × Option (List ℕ)). length p.0.serial_buffer ≡ size in
      bind-Ensures OfText (λ (b : List ℕ). length b ≡ length s.serial_buffer) P
        (receive received s.serial_buffer) _
        (receive-Sized OfText received s.serial_buffer (rw sized room))
        λ buffer same.
          bind-Ensures OfText Any P (as_text buffer) _ (as_text-Ensures OfText buffer tt) λ text _.
            let selected = server_select (Server.real_size received) text in
            bind-Ensures OfText Any P (Server.answer stof serialize_to selected s.outbox) _
              (server_answer-Ensures stof serialize_to OfText selected s.outbox
                (server_select-IsCut (Server.real_size received) text))
              λ p _. same ∙ sized

pub put_command-Sized :
    (E : Fault → Type 0) (v : ℤ) (buff : List ℕ)
    → E refused
    → Ensures E (λ (b : List ℕ). length b ≡ length buff) (or_stop refused (put_command v buff))
put_command-Sized E v buff r = answered (put_command v buff) refl
  where
    answered :
        (o : Option (List ℕ))
        → put_command v buff ≡ o
        → Ensures E (λ (b : List ℕ). length b ≡ length buff) (or_stop refused o)
    answered none e = r
    answered (some b) e = put_command-length v buff b e

-- What stops the section MAIN, by the size of its array: a write behind it where it is smaller than
-- the 1024 bytes that a read asks for.
abbrev pub Stops : ℕ → Fault → Type 0
Stops bufsiz unterminated = Unit
Stops bufsiz refused = Unit
Stops bufsiz overrun = bufsiz < 1024
Stops bufsiz uncaught = ⊥

receive-Stops :
    (received : Option (List ℕ)) (array : List ℕ)
    → Room 1024 received
    → Ensures
        (Stops (length array))
        (λ (b : List ℕ). length b ≡ length array)
        (receive received array)
unfolding receive overwrite
receive-Stops none array room = refl
receive-Stops (some bytes) array room = answered (overwrite bytes array) refl
  where
    answered :
        (o : Option (List ℕ))
        → overwrite bytes array ≡ o
        → Ensures
            (Stops (length array))
            (λ (b : List ℕ). length b ≡ length array)
            (or_stop overrun o)
    answered none e = ground arith
    answered (some b) e = overwrite-length bytes array e

module _ (sdk : Sdk) (stof : List ℕ → Option Float) (serialize_to : Sensor → List ℕ → List ℕ) where
  main_round-Stops :
      (bufsiz : ℕ) (i : Main.Input sdk) (c : Main.Controller sdk)
      → length c.buff ≡ bufsiz
      → Room 1024 i.received
      → Ensures
          (Stops bufsiz)
          (λ (p : Main.Controller sdk × Main.Output). length p.0.buff ≡ bufsiz)
          (Main.round sdk stof serialize_to i c)
  unfolding Main.round
  main_round-Stops bufsiz i c sized room =
      let E = Stops bufsiz in
      let P = λ (p : Main.Controller sdk × Main.Output). length p.0.buff ≡ bufsiz in
      let d = deliver sdk (on_orientation_data sdk) c.collector i.events in
      let v = sdk.to_int (sdk.mul d.speed (sdk.num 50)) in
      bind-Ensures E (λ (b : List ℕ). length b ≡ length c.buff) P
        (or_stop refused (put_command v c.buff)) _ (put_command-Sized E v c.buff tt)
        λ b1 same. bind-Ensures E Any P (as_text b1) _ (as_text-Ensures E b1 tt) λ written _.
          bind-Ensures E (λ (b : List ℕ). length b ≡ length b1) P (receive i.received b1) _
            (subst
              (λ n.
                Ensures (Stops n) (λ (b : List ℕ). length b ≡ length b1) (receive i.received b1))
              (same ∙ sized) (receive-Stops i.received b1 room))
            λ b2 same2. bind-Ensures E Any P (as_text b2) _ (as_text-Ensures E b2 tt) λ text _.
              bind-Ensures E Any P (Main.answer stof serialize_to (select text) c.outbox) _
                (main_answer-Ensures stof serialize_to E (select text) c.outbox (select-IsCut text))
                λ p _. same2 ∙ same ∙ sized

-- The loops on a port.
module _ {W : Type 0} {api : Win32 W} (lawful : IsWin32 api) (port : Port) where
  feed-Ensures :
      {I S O : Type 0} (E : Fault → Type 0) (Inv : S → Type 0) (max : ℕ)
      (round : I → Option (List ℕ) → S → Result (S × O))
      → ((i : I) (received : Option (List ℕ)) (s : S)
          → Inv s
          → Room max received
          → Ensures E (λ (p : S × O). Inv p.0) (round i received s))
      → (i : I) (s : S × W) → Inv s.0
      → Ensures E (λ (p : (S × W) × O). Inv p.0.0 × Unit {0}) (feed api port max round i s)
  unfolding feed
  feed-Ensures {I} {S} {O} E Inv max round keeps i (s, w) h =
      bind-Ensures E (λ (p : S × O). Inv p.0) (λ (p : (S × W) × O). Inv p.0.0 × Unit {0}) _ _
        (keeps i (received_of (read api max port w).0) s h
          (read-Room lawful port max max w (omega arith)))
        λ p k. (k, tt)

  -- With a system that keeps to IsWin32, and a serialBuffer of BUFSIZ bytes: over any number of
  -- rounds that read from a port, open or closed, the server never writes behind serialBuffer and
  -- keeps its size, and nothing but a serialBuffer without a zero byte stops it.
  pub server_on_port-OfText :
      (stof : List ℕ → Option Float) (serialize_to : Sensor → List ℕ → List ℕ) (bufsiz : ℕ)
      (rs : List (Unit {0})) (s : Server.Server) (w : W)
      → length s.serial_buffer ≡ bufsiz
      → Ensures OfText
          (λ (p : (Server.Server × W) × List (Option (List ℕ))).
            (length p.0.0.serial_buffer ≡ bufsiz) × All Any p.1)
          (server_on_port api port stof serialize_to bufsiz rs (s, w))
  server_on_port-OfText stof serialize_to bufsiz rs s w sized =
      rounds-Ensures OfText (λ (p : Server.Server × W). length p.0.serial_buffer ≡ bufsiz) Any _
        (feed-Ensures OfText (λ (s : Server.Server). length s.serial_buffer ≡ bufsiz) bufsiz
          (λ next received. Server.round stof serialize_to received)
          λ next received s h room. server_round-Sized stof serialize_to bufsiz received s h room)
        rs (s, w) sized

  -- With a system that keeps to IsWin32 and a buff of any size: over any number of rounds that
  -- read from a port, the section MAIN keeps the size of buff and lets no exception out; nothing
  -- stops it but a buff without a zero byte, a command that the C library refuses, or, only where
  -- buff has fewer than the 1024 bytes that it asks for, a write behind buff.
  pub main_on_port-Stops :
      (sdk : Sdk) (stof : List ℕ → Option Float) (serialize_to : Sensor → List ℕ → List ℕ)
      (bufsiz : ℕ) (is : List (List (Event sdk))) (c : Main.Controller sdk) (w : W)
      → length c.buff ≡ bufsiz
      → Ensures
          (Stops bufsiz)
          (λ (p : (Main.Controller sdk × W) × List Main.Output).
            (length p.0.0.buff ≡ bufsiz) × All Any p.1)
          (main_on_port api port sdk stof serialize_to is (c, w))
  main_on_port-Stops sdk stof serialize_to bufsiz is c w sized =
      rounds-Ensures (Stops bufsiz) (λ (p : Main.Controller sdk × W). length p.0.buff ≡ bufsiz) Any
        _
        (feed-Ensures (Stops bufsiz) (λ (c : Main.Controller sdk). length c.buff ≡ bufsiz) 1024
          (λ events received.
            Main.round sdk stof serialize_to (record { events = events; received = received }))
          λ events received c h room.
            main_round-Stops sdk stof serialize_to bufsiz
              (record { events = events; received = received }) c h room)
        is (c, w) sized
