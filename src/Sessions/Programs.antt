-- ===== src/Sessions/Programs.antt =====
-- Two `main` functions on a Windows system: MyoNucMotor/MyoNucMotor/main.cpp (the section MAIN; its
-- section MyoWin has the code of the other one) and MyoWin/MyoWin/main.cpp.
use myodesignproject.Base.{ℕ, zero, suc, Bool, Option, List, [], ◌∷◌}
use myodesignproject.Sensor.{Float, Sensor, shared_ctor}
use myodesignproject.Collector.Sdk.{Sdk}
use myodesignproject.Collector.{Collector, Event, initial, on_orientation_data}
use myodesignproject.Command.{strcpy_s}
use myodesignproject.Rounds.{Result, ok, ◌>>=◌, refused, or_stop, receive, as_text}
use myodesignproject.Serial.Win32.{Win32}
use myodesignproject.Serial.{Port, closed, open_port, read, write, flush, set_timeout}
use myodesignproject.Startup.{Action, start, win_hub_startup}
use myodesignproject.Exits.{HubRun, hello}
use myodesignproject.OnPort.{received_of, polled_read}
use myodesignproject.Sockets.Calls.{Winsock}
use myodesignproject.Sockets.{connect, transmit}
use myodesignproject.Controller as Main
use myodesignproject.WinClient as Win
use myodesignproject.Sessions.{
  settings, Left, undefined, and_then, session_rounds, command, respond, poll_into, started, opened,
  with_client, left_rounds, in_try, out_of_try, finish,
}

module _ {W : Type 0} (api : Win32 W) where
  -- `SetTimeout(10, 10, 1)` and `Flush()`
  unfoldable pub prepared : Port → W → W
  prepared p w = flush api p (set_timeout api 10 10 1 p w).1

  -- The first command and its answer: `buff` behind the read.
  unfoldable pub greet_on : ℕ → Port → List ℕ → W → Result (List ℕ) × W
  greet_on size p buff w =
      and_then
        ((do b1 ← or_stop refused (strcpy_s hello buff); written ← as_text b1; ok (written, b1)), w)
        λ (put : List ℕ × List ℕ) w1.
          let w2 = (write api put.0 p w1).1 in
          let (answer, w3) = read api size p w2 in
          ((do b2 ← receive (received_of answer) put.1; text ← as_text b2; ok b2), w3)

  unfoldable pub main_session_round :
      Winsock W
      → (sdk : Sdk) → (List ℕ → Option Float)
      → (Sensor → List ℕ → List ℕ)
      → Port
      → (client : ℕ) → List (Event sdk)
      → Main.Controller sdk
      → W
      → Result (Main.Controller sdk) × W
  main_session_round ws sdk stof serialize_to p client events c w =
      and_then (command sdk (on_orientation_data sdk) events c.collector c.buff, w)
        λ (put : List ℕ × Collector sdk × List ℕ) w1.
          let w2 = (write api put.0 p w1).1 in
          let (answer, w3) = read api 1024 p w2 in
          and_then
            (
              respond sdk stof serialize_to (received_of answer)
                  (record { collector = put.1; buff = put.2; outbox = c.outbox }),
              w3,
            )
            λ (r : Main.Controller sdk × Option (List ℕ)) w4.
              (ok r.0, transmit ws client (r.1 ∷ []) w4)

  unfoldable pub main_session :
      Winsock W
      → (sdk : Sdk) → (List ℕ → Option Float)
      → (Sensor → List ℕ → List ℕ)
      → (Action → Bool)
      → (name : List ℕ) → (bufsiz : ℕ) → List (List (Event sdk))
      → HubRun
      → (buff tcp_buffer : List ℕ) → W
      → Left W
  main_session ws sdk stof serialize_to succeeds name bufsiz inputs hub_run buff tcp_buffer w =
      started api (start succeeds win_hub_startup) closed w (
        opened api (open_port api name settings closed w) λ p w1.
          finish api (in_try api p) (greet_on bufsiz p buff (prepared p w1)) λ (b : List ℕ) w2.
            with_client api (connect ws w2) λ client w3.
              finish api (in_try api p)
                (session_rounds (main_session_round ws sdk stof serialize_to p client) inputs
                  (record {
                    collector = initial sdk;
                    buff = b;
                    outbox = record { sensor = shared_ctor; tcp_buffer = tcp_buffer };
                  })
                  w3)
                λ c w4. left_rounds api hub_run p w4)

  unfoldable pub win_session_round :
      (sdk : Sdk)
      → (sdk.Quaternion → Collector sdk → Collector sdk)
      → (period : ℕ) → Port
      → List (Event sdk)
      → Win.WinClient sdk
      → W
      → Result (Win.WinClient sdk) × W
  win_session_round sdk handler period p events c w =
      and_then (command sdk handler events c.collector c.buff, w)
        λ (put : List ℕ × Collector sdk × List ℕ) w1.
          let w2 = (write api put.0 p w1).1 in
          let (polls, timer) = Win.tick period c.timer in
          let (received, w3) = polled_read api p polls w2 in
          (poll_into sdk polls received timer put.1 put.2, w3)

  -- `strtok_s` behind the first answer, as in `Exits.with_token`.
  unfoldable pub token : List ℕ → Left W → Left W
  token [] next = next
  token (zero ∷ b) next = undefined
  token (suc c ∷ b) next = next

  unfoldable pub win_session :
      (sdk : Sdk)
      → (sdk.Quaternion → Collector sdk → Collector sdk)
      → (period : ℕ) → (Action → Bool)
      → (name : List ℕ) → List (List (Event sdk))
      → HubRun
      → (buff : List ℕ) → W
      → Left W
  win_session sdk handler period succeeds name inputs hub_run buff w =
      opened api (open_port api name settings closed w) λ p w1.
        finish api (out_of_try api p) (greet_on 1024 p buff (prepared p w1)) λ (b : List ℕ) w2.
          token b (
            started api (start succeeds win_hub_startup) p w2 (
              finish api (in_try api p)
                (session_rounds (win_session_round sdk handler period p) inputs
                  (record { collector = initial sdk; buff = b; timer = 0 }) w2)
                λ c w3. left_rounds api hub_run p w3))
