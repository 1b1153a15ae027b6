-- ===== src/Server/Tests.antt =====
-- The answers of NUCServer/NUCServer/Server.cpp to concrete lines.
use myodesignproject.Base.{ℕ, none, some, Option, List, [], ◌∷◌, ◌++◌, arith}
use myodesignproject.Sensor.{Sensor, shared_ctor}
use myodesignproject.Sensor.Tests.{plain, plain-IsWire}
use myodesignproject.Text.{comma, newline}
use myodesignproject.Line.Tests.{digit, short_line}
use myodesignproject.Rounds.{Ensures}
use myodesignproject.Rounds.Rules.{Any}
use myodesignproject.Controller.Tests.{keep_rest, keep_rest-IsStore, fresh, array_25}
use myodesignproject.Server.{Server, run}
use myodesignproject.Server.Whole.{SentByLines, server_run-refines}

-- "3,x"
abbrev bad_line : List ℕ
bad_line = 51 ∷ comma ∷ 120 ∷ []

abbrev read : Sensor
read = record shared_ctor { arg0 = 7; arg2 = 9; arg3 = 9; arg4 = 9 }

-- Reads of a text of two lines, then a read that failed.
abbrev received : List (Option (List ℕ))
received = some (bad_line ++ newline ∷ short_line ++ newline ∷ 0 ∷ []) ∷ none ∷ []

abbrev fresh_server : Server
fresh_server = record { serial_buffer = array_25; outbox = fresh }

server_run-refines_example :
    Ensures Any
      (SentByLines digit keep_rest plain received fresh_server)
      (run digit keep_rest received fresh_server)
server_run-refines_example =
    server_run-refines digit keep_rest plain-IsWire keep_rest-IsStore received fresh_server
      (omega arith)
