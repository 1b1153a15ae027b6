-- ===== src/Exits/Tests.antt =====
-- The programs as a whole at concrete startups (MyoNucMotor/MyoNucMotor/main.cpp,
-- NUCServer/NUCServer/Server.cpp, MyoWin/MyoWin/main.cpp).
use myodesignproject.Base.{Bool, true, false, none, some, [], ◌∷◌}
use myodesignproject.Text.{newline}
use myodesignproject.Line.Tests.{digit}
use myodesignproject.Collector.WinCopy.{win_on_orientation_data}
use myodesignproject.Collector.Tests.{whole}
use myodesignproject.Command.Tests.{array_12}
use myodesignproject.Startup.{Action, accept_client}
use myodesignproject.Startup.Tests.{all, no_port}
use myodesignproject.Controller.Tests.{keep_rest, array_25, read_input}
use myodesignproject.Exits.{waits, fails, main_section, server_main, win_main}
use myodesignproject.Exits.Ends.{MainEnds, main_section-MainEnds}
use myodesignproject.Exits.Others.{ServerEnds, server_main-ServerEnds, WinEnds, win_main_by-WinEnds}

abbrev no_client : Action → Bool
no_client accept_client = false
no_client _ = true

main_section-MainEnds_example :
    MainEnds no_port waits
      (main_section whole digit keep_rest no_port none (read_input ∷ []) waits array_12 array_25)
main_section-MainEnds_example =
    main_section-MainEnds no_port waits whole digit keep_rest none (read_input ∷ []) array_12
      array_25

server_main-ServerEnds_example : ServerEnds no_client (
    server_main digit keep_rest no_client none
      (some (55 ∷ newline ∷ []) ∷ none ∷ [])
      array_12
      array_25)
server_main-ServerEnds_example =
    server_main-ServerEnds no_client digit keep_rest none (some (55 ∷ newline ∷ []) ∷ none ∷ [])
      array_12 array_25

win_main_by-WinEnds_example : WinEnds all fails (win_main whole all none [] fails array_12)
win_main_by-WinEnds_example =
    win_main_by-WinEnds all fails whole (win_on_orientation_data whole) 100 none [] array_12
