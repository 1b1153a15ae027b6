-- ===== src/Line/Tests.antt =====
-- Lines at concrete texts. `digit` stands in for std::stof: it converts one decimal digit.
use myodesignproject.Base.{
  ℕ, ◌-◌, ◌≡◌, refl, true, ◌&&◌, Option, none, some, List, [], ◌∷◌, ◌++◌, leb, if◌then◌else◌, arith,
}
use myodesignproject.Sensor.{Float, shared_ctor, is_zero}
use myodesignproject.Text.{unique_newlines, unique_after, newline, comma, contains, front, back}
use myodesignproject.Line.{never_zero, read_args, select, line, set_word}
use myodesignproject.Line.Fields.{outcome, fill, setters, columns, split, read_args-fill}
use myodesignproject.Line.Select.{two_lines, select-two_lines}

-- The pattern of the float is left abstract: the digit itself stands for it.
abbrev pub digit : List ℕ → Option Float
digit [] = none
digit (c ∷ s) = if leb 48 c && leb c 57 then some (c - 48) else none

-- "7,0,9"
abbrev pub short_line : List ℕ
short_line = 55 ∷ comma ∷ 48 ∷ comma ∷ 57 ∷ []

short_line_read :
    outcome (read_args digit (record { sensor = shared_ctor; text = short_line }))
    ≡ (record shared_ctor { arg0 = 7; arg1 = 0xbf80_0000; arg2 = 9; arg3 = 9; arg4 = 9 }, true)
unfolding read_args never_zero is_zero front back
short_line_read = refl

read_args-fill_example :
    outcome (read_args digit (record { sensor = shared_ctor; text = short_line }))
    ≡ fill digit never_zero setters (columns 5 (split short_line)) shared_ctor
read_args-fill_example = read_args-fill digit shared_ctor short_line (omega arith)

-- "set", an empty line, and the short line.
abbrev set_reply : List ℕ
set_reply = set_word ++ newline ∷ newline ∷ short_line ++ newline ∷ []

select-two_lines_example :
    select set_reply
    ≡ line (if contains set_word (two_lines set_word short_line []) then short_line else set_word)
unfolding unique_newlines unique_after
select-two_lines_example =
    select-two_lines set_reply set_word short_line [] (omega arith) (omega arith) refl
