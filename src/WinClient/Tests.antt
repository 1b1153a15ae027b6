-- ===== src/WinClient/Tests.antt =====
-- Rounds of the client (MyoWin/MyoWin/main.cpp) at concrete timers and arrays.
use myodesignproject.Base.{◌≤◌, ◌≡◌, refl, true, some, [], ◌∷◌, arith}
use myodesignproject.Base.Int.{pos}
use myodesignproject.Collector.{initial, deliver}
use myodesignproject.Collector.WinCopy.{win_on_orientation_data}
use myodesignproject.Collector.Tests.{whole}
use myodesignproject.Command.Tests.{array_12}
use myodesignproject.WinClient.{WinClient, Input, tick, tokenize, strtok_s, end_token, win_round}
use myodesignproject.WinClient.Timer.{timer_after, tick_reads}
use myodesignproject.WinClient.Bounds.{Proceeds, round-Proceeds}

-- Two lines in the array: both newlines become zero bytes.
two_tokens : tokenize (10 ∷ 55 ∷ 10 ∷ 56 ∷ 10 ∷ 57 ∷ 0 ∷ []) ≡ 10 ∷ 55 ∷ 0 ∷ 56 ∷ 0 ∷ 57 ∷ 0 ∷ []
unfolding tokenize strtok_s end_token
two_tokens = refl

tick_reads_example :
    ((tick 3 (timer_after 3 6)).0 ≡ true) × (1 ≤ timer_after 3 6) × (timer_after 3 6 ≤ 3)
tick_reads_example = tick_reads 3 1 2 (omega arith)

abbrev started : WinClient whole
started = record { collector = initial whole; buff = array_12; timer = 100 }

abbrev answered : Input whole
answered = record { events = []; received = some (55 ∷ 10 ∷ 56 ∷ 10 ∷ []) }

round-Proceeds_example :
    Proceeds whole (tick 100 100) (pos 0) started (win_round whole answered started)
unfolding initial deliver
round-Proceeds_example =
    round-Proceeds whole (win_on_orientation_data whole) 100 answered started (omega arith)
      (omega arith) (omega arith)
