-- ===== src/OnPort/Tests.antt =====
-- The loops on the small operating system of Serial/Tests (NUCServer/NUCServer/Server.cpp,
-- MyoNucMotor/MyoNucMotor/main.cpp, MyoWin/MyoWin/main.cpp).
use myodesignproject.Base.{ℕ, ◌≡◌, refl, some, List, [], ◌∷◌, All, length, arith}
use myodesignproject.Line.Tests.{digit}
use myodesignproject.Collector.{initial, deliver}
use myodesignproject.Collector.WinCopy.{win_on_orientation_data}
use myodesignproject.Collector.Tests.{whole}
use myodesignproject.Command.Tests.{array_12}
use myodesignproject.Serial.Win32.{Win32}
use myodesignproject.Rounds.{Ensures, overrun, stop}
use myodesignproject.Rounds.Rules.{Any}
use myodesignproject.Serial.Tests.{small, small-IsWin32, zeros, length-zeros}
use myodesignproject.Controller.{Controller}
use myodesignproject.Controller.Tests.{keep_rest, fresh}
use myodesignproject.Server.{Server}
use myodesignproject.WinClient.{WinClient}
use myodesignproject.OnPort.{server_on_port, main_on_port, win_on_port}
use myodesignproject.OnPort.Bounds.{
  OfText, OfTextOrCommand, Stops, server_on_port-OfText, main_on_port-Stops,
}
use myodesignproject.OnPort.Overrun.{main_on_port-overruns}
use myodesignproject.OnPort.Client.{win_on_port-OfTextOrCommand}

abbrev server : Server
server = record { serial_buffer = array_12; outbox = fresh }

server_on_port-OfText_example :
    Ensures OfText
      (λ p. (length p.0.0.serial_buffer ≡ 12) × All Any p.1)
      (server_on_port small (some 0) digit keep_rest 12 (tt ∷ tt ∷ []) (server, 0 ∷ []))
server_on_port-OfText_example =
    server_on_port-OfText small-IsWin32 (some 0) digit keep_rest 12 (tt ∷ tt ∷ []) server (0 ∷ [])
      refl

-- An array of 512 bytes, as BUFSIZ may be.
abbrev controller : Controller whole
controller = record { collector = initial whole; buff = zeros 512; outbox = fresh }

main_on_port-Stops_example :
    Ensures
      (Stops 512)
      (λ p. (length p.0.0.buff ≡ 512) × All Any p.1)
      (main_on_port small (some 0) whole digit keep_rest ([] ∷ [] ∷ []) (controller, 0 ∷ []))
main_on_port-Stops_example =
    main_on_port-Stops small-IsWin32 (some 0) whole digit keep_rest 512 ([] ∷ [] ∷ []) controller
      (0 ∷ []) (length-zeros 512)

abbrev client : WinClient whole
client = record { collector = initial whole; buff = zeros 1024; timer = 100 }

win_on_port-OfTextOrCommand_example :
    Ensures OfTextOrCommand
      (λ p. (length p.0.0.buff ≡ 1024) × All Any p.1)
      (win_on_port small
        (some 0)
        whole
        (win_on_orientation_data whole)
        100
        ([] ∷ [] ∷ [])
        (client, 0 ∷ []))
win_on_port-OfTextOrCommand_example =
    win_on_port-OfTextOrCommand whole (win_on_orientation_data whole) 100 small-IsWin32 (some 0)
      ([] ∷ [] ∷ []) client (0 ∷ []) (length-zeros 1024)

-- A system whose port gives 13 bytes to each read.
abbrev generous : Win32 (List ℕ)
generous = record small { read_file = λ h n w. (some (zeros 13), w) }

abbrev short : Controller whole
short = record { collector = initial whole; buff = array_12; outbox = fresh }

main_on_port-overruns_example :
    main_on_port generous (some 0) whole digit keep_rest ([] ∷ []) (short, []) ≡ stop overrun
unfolding deliver initial zeros
main_on_port-overruns_example =
    main_on_port-overruns generous (some 0) whole digit keep_rest [] [] short [] [] (zeros 13)
      (omega arith) (omega arith) refl (omega arith)
