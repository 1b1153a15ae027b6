-- ===== src/Controller/Tests.antt =====
-- The loop of the section MAIN (MyoNucMotor/MyoNucMotor/main.cpp) at concrete lines and arrays.
use myodesignproject.Base.{
  ℕ, ◌≡◌, refl, none, some, Option, List, [], ◌∷◌, ◌++◌, arith, length, drop,
}
use myodesignproject.Sensor.{Sensor, shared_ctor, serialize, total_size, is_zero}
use myodesignproject.Sensor.Parse.{success, merge_partial}
use myodesignproject.Sensor.Tests.{plain, plain-IsWire}
use myodesignproject.Text.{newline, comma}
use myodesignproject.Line.{line, never_zero}
use myodesignproject.Line.Fields.{split}
use myodesignproject.Line.Tests.{digit, short_line}
use myodesignproject.Collector.{initial}
use myodesignproject.Collector.Tests.{whole}
use myodesignproject.Command.Tests.{array_12}
use myodesignproject.Rounds.{Ensures, ok, Outbox, IsStore}
use myodesignproject.Controller.{Controller, Input, answer, answers, run}
use myodesignproject.Controller.Frames.{IsReading, message, line_to_client}
use myodesignproject.Controller.Repeats.{IsFull, answer_repeats}
use myodesignproject.Controller.Whole.{SentFromStart, run_from_start}
use myodesignproject.Rounds.Rules.{Any}
use myodesignproject.Controller.Spec.{Numbers, all_selected}
use myodesignproject.Controller.Refines.{Holds}
use myodesignproject.Controller.Begins.{Begins, Sends, answers_from_start}

-- SerializeToArray into an array with room for the message.
unfoldable pub keep_rest : Sensor → List ℕ → List ℕ
keep_rest s array = serialize plain s [] ++ drop (total_size s) array

pub keep_rest-IsStore : IsStore plain keep_rest
unfolding keep_rest
keep_rest-IsStore = record { stores = λ s array room. refl }

abbrev pub array_25 : List ℕ
array_25 = 0 ∷ 0 ∷ 0 ∷ 0 ∷ 0 ∷ array_12 ++ 0 ∷ 0 ∷ 0 ∷ 0 ∷ 0 ∷ 0 ∷ 0 ∷ 0 ∷ []

abbrev pub fresh : Outbox
fresh = record { sensor = shared_ctor; tcp_buffer = array_25 }

short_reading : IsReading digit short_line 7 0 9 9 9
unfolding split
short_reading = record {
  t0 = 55 ∷ [];
  t1 = 48 ∷ [];
  t2 = 57 ∷ [];
  t3 = 57 ∷ [];
  t4 = 57 ∷ [];
  one_line = omega arith;
  five = refl;
  number0 = refl;
  number1 = refl;
  number2 = refl;
  number3 = refl;
  number4 = refl;
}

line_to_client_example :
    (o' : Outbox) × (frame : List ℕ) × (answer digit keep_rest (line short_line) fresh
      ≡ ok (o', some frame))
    × (length frame ≡ 25)
    × (merge_partial plain frame shared_ctor ≡ success (message short_reading shared_ctor))
line_to_client_example =
    line_to_client short_reading plain-IsWire keep_rest-IsStore fresh (omega arith) (omega arith)
      (omega arith) (omega arith) (omega arith) (omega arith)

-- A message without zeros, and "3,x".
abbrev pub ones : Sensor
ones = record shared_ctor { arg0 = 1; arg1 = 1; arg2 = 1; arg3 = 1; arg4 = 1 }

abbrev pub bad_line : List ℕ
bad_line = 51 ∷ comma ∷ 120 ∷ []

pub ones-IsFull : IsFull ones
unfolding is_zero
ones-IsFull = record { full0 = refl; full1 = refl; full2 = refl; full3 = refl; full4 = refl }

answer_repeats_example :
    answer digit keep_rest
      (line bad_line)
      (record { sensor = ones; tcp_buffer = serialize plain ones [] ++ 0 ∷ [] })
    ≡ ok (
      record {
        sensor = record ones { arg0 = 3; cached_size = 25 };
        tcp_buffer = serialize plain ones [] ++ 0 ∷ [];
      },
      some (serialize plain ones []),
    )
unfolding split is_zero never_zero
answer_repeats_example =
    answer_repeats plain-IsWire digit keep_rest bad_line
      (record { sensor = ones; tcp_buffer = serialize plain ones [] ++ 0 ∷ [] })
      (record ones { arg0 = 3 }) ones (0 ∷ []) (omega arith) refl ones-IsFull ones-IsFull refl

abbrev pub started : Controller whole
started = record { collector = initial whole; buff = array_12; outbox = fresh }

-- A read of thirteen bytes into twelve.
abbrev long_input : Input whole
long_input = record { events = []; received = some (0 ∷ array_12) }

abbrev silent_input : Input whole
silent_input = record { events = []; received = none }

-- An outbox that has sent the ones.
abbrev pub sent_ones : Outbox
sent_ones = record { sensor = ones; tcp_buffer = serialize plain ones [] ++ 0 ∷ [] }

-- A text of two lines.
abbrev pub two_read : List ℕ
two_read = bad_line ++ newline ∷ short_line ++ newline ∷ []

abbrev pub read_input : Input whole
read_input = record { events = []; received = some (52 ∷ newline ∷ 53 ∷ newline ∷ 0 ∷ []) }

abbrev pub five_ones : Numbers
five_ones = 1 ∷ 1 ∷ 1 ∷ 1 ∷ 1 ∷ []

pub sent_ones-Holds : Holds plain five_ones sent_ones
sent_ones-Holds = record {
  full = ones-IsFull;
  last_full = ones-IsFull;
  behind = 0 ∷ [];
  held = refl;
}

fresh-Begins : Begins array_25 fresh
unfolding is_zero
fresh-Begins = record { unset = refl; no_arg4 = refl }

-- Two lines that are no readings, and two of which the second is one.
abbrev first_texts : List (List ℕ)
first_texts = (bad_line ++ newline ∷ bad_line ++ newline ∷ []) ∷ [] ∷ two_read ∷ []

answers_from_start_example :
    (o' : Outbox) × (outs : List (Option (List ℕ))) × (answers digit keep_rest first_texts fresh
      ≡ ok (o', outs))
    × Sends plain digit array_25 (all_selected first_texts) outs
answers_from_start_example =
    answers_from_start plain-IsWire digit keep_rest-IsStore array_25 (omega arith) first_texts fresh
      fresh-Begins

run_from_start_example :
    Ensures Any
      (SentFromStart whole digit keep_rest plain array_25
        (read_input ∷ silent_input ∷ read_input ∷ [])
        started)
      (run whole digit keep_rest (read_input ∷ silent_input ∷ read_input ∷ []) started)
run_from_start_example =
    run_from_start whole digit keep_rest plain-IsWire keep_rest-IsStore array_25 (omega arith)
      (read_input ∷ silent_input ∷ read_input ∷ []) started fresh-Begins
