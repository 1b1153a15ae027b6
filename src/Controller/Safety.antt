-- ===== src/Controller/Safety.antt =====
-- The arrays of the section MAIN of MyoNucMotor/MyoNucMotor/main.cpp: `char buff[BUFSIZ]`, from
-- which the command is written and into which `port.Read(buff, 1024)` stores.
use myodesignproject.Base.{ℕ, ◌≤◌, ◌<◌, ◌≡◌, ◌∙◌, ap, Option, none, some, List, arith, length}
use myodesignproject.Base.Int.{ℤ}
use myodesignproject.Sensor.{Float, Sensor}
use myodesignproject.Text.{newline, c_string, overwrite}
use myodesignproject.Line.{select}
use myodesignproject.Line.Select.{select-no_line}
use myodesignproject.Collector.Sdk.{Sdk}
use myodesignproject.Collector.{Collector, deliver, on_orientation_data}
use myodesignproject.Command.Digits.{Fits}
use myodesignproject.Command.Buffer.{put_command_text, command_text, command_text-Lacks}
use myodesignproject.Rounds.{
  Result, ok, stop, overrun, ◌>>=◌, or_stop, unterminated, receive, as_text,
}
use myodesignproject.Controller.{Controller, Input, Output, answer, round}

module _ (sdk : Sdk) (stof : List ℕ → Option Float) (serialize_to : Sensor → List ℕ → List ℕ) where
  -- The listener after the events of a round, and the speed that is sent.
  abbrev pub moved : Input sdk → Controller sdk → Collector sdk
  moved i c = deliver sdk (on_orientation_data sdk) c.collector i.events

  abbrev pub speed_of : Input sdk → Controller sdk → ℤ
  speed_of i c = sdk.to_int (sdk.mul (moved i c).speed (sdk.num 50))

  -- The round behind the command.
  abbrev after_command :
      Input sdk → Controller sdk → List ℕ → List ℕ → Result (Controller sdk × Output)
  after_command i c b1 written = do
    b2 ← receive i.received b1
    text ← as_text b2
    (outbox, sent) ← answer stof serialize_to (select text) c.outbox
    ok (
      record { collector = moved i c; buff = b2; outbox = outbox },
      record { written = written; sent = sent },
    )

  module _ (i : Input sdk) (c : Controller sdk) (fits : Fits (speed_of i c))
      (room : 10 ≤ length c.buff) where
    -- The command is written, whatever follows.
    round-command :
        (b1 : List ℕ) × (round sdk stof serialize_to i c
          ≡ after_command i c b1 (command_text (speed_of i c)))
        × (c_string b1 ≡ some (command_text (speed_of i c)))
        × (length b1 ≡ length c.buff)
    unfolding round as_text
    round-command =
        let (b1, stored, text, size) = put_command_text (speed_of i c) c.buff fits room in
        (b1, rw (stored, text), text, size)

    received_none : i.received ≡ none → (b1 : List ℕ) → receive i.received b1 ≡ ok b1
    unfolding receive
    received_none e b1 = ap (λ (r : Option (List ℕ)). receive r b1) e

    text_of : (b1 : List ℕ) {t : List ℕ} → c_string b1 ≡ some t → as_text b1 ≡ ok t
    unfolding as_text
    text_of b1 e = ap (or_stop unterminated) e

    -- A read in the section MAIN that delivers more bytes than buff has, after a speed that fits
    -- and with a buff of ten bytes or more, is a write behind the array.
    pub round_overrun :
        (bytes : List ℕ)
        → i.received ≡ some bytes
        → length c.buff < length bytes
        → round sdk stof serialize_to i c ≡ stop overrun
    unfolding receive overwrite
    round_overrun bytes e long =
        let (b1, r, text, size) = round-command in r ∙ rw e (ground (arith, size))

    -- After a failed read, with a speed that fits and a buff of ten bytes or more, a round of the
    -- section MAIN goes on: the listener has taken its events, it has written its command, sends
    -- nothing, keeps the size of buff, and leaves the message and tcpBuffer as they were.
    pub round_silent :
        i.received ≡ none
        → (b1 : List ℕ) × (round sdk stof serialize_to i c
            ≡ ok (
              record { collector = moved i c; buff = b1; outbox = c.outbox },
              record { written = command_text (speed_of i c); sent = none },
            ))
          × (length b1 ≡ length c.buff)
    unfolding answer
    round_silent e =
        let (b1, r, text, size) = round-command in
        (
          b1,
          r
              ∙ rw (
                received_none e b1,
                text_of b1 text,
                select-no_line _ (command_text-Lacks newline (speed_of i c) (omega arith)),
              ),
          size,
        )
