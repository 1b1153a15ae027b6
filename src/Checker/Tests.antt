-- ===== src/Checker/Tests.antt =====
-- The Android client (MyoChecker/app/src/main/java/com/myoprj/myochecker) at concrete bytes.
use myodesignproject.Base.{
  ℕ, ◌≤◌, ◌<◌, ◌≡◌, ◌≢◌, refl, Bool, true, false, Option, none, some, List, [], ◌∷◌, ◌++◌, ltb,
  ◌==◌, if◌then◌else◌, arith, length,
}
use myodesignproject.Sensor.{serialize, is_zero, total_size, size_arg}
use myodesignproject.Sensor.Tests.{plain, plain-IsWire, two_args}
use myodesignproject.Sensor.Stream.{HasFloats}
use myodesignproject.Text.{newline, find, substr, front, back}
use myodesignproject.Line.{server_select}
use myodesignproject.Line.Fields.{split}
use myodesignproject.Line.Tests.{digit, short_line}
use myodesignproject.Rounds.{ok, Outbox}
use myodesignproject.Controller.{answers}
use myodesignproject.Controller.Spec.{spec_run, all_selected}
use myodesignproject.Controller.Tests.{
  keep_rest, keep_rest-IsStore, fresh, two_read, sent_ones, five_ones, sent_ones-Holds, ones,
}
use myodesignproject.Server.{server_answers}
use myodesignproject.Checker.Sent.{messages}
use myodesignproject.Checker.Numbers.{GivesFloats}
use myodesignproject.Checker.Input.{JavaWire, IsJavaWire}
use myodesignproject.Checker.{parse_from, Read, stored, check_update, new_str, java_parse, stuck}
use myodesignproject.Checker.Parse.{shown_of, parse_from-serialize}
use myodesignproject.Checker.Blocks.{reads_of}
use myodesignproject.Checker.Shows.{exact_all, server_zero_ends_checker}
use myodesignproject.Checker.Socket.{checker_shows_sent}
use myodesignproject.Sockets.{transmit}
use myodesignproject.Sockets.Tests.{small_net, small_net-IsWinsock, start_net}
use myodesignproject.Checker.Termination.{java_parse-ne-stuck}

digit-GivesFloats : GivesFloats digit
digit-GivesFloats [] v e = cc
digit-GivesFloats (c ∷ s) v e = ground arith

ones-HasFloats : HasFloats ones
ones-HasFloats = record {
  float0 = omega arith;
  float1 = omega arith;
  float2 = omega arith;
  float3 = omega arith;
  float4 = omega arith;
}

-- A reader of one-byte tags that skips one byte for a field that it does not know.
abbrev read_small : List ℕ → Option (ℕ × List ℕ)
read_small [] = some (0, [])
read_small (t ∷ rest) = if ltb t 8 then none else if ltb t 128 then some (t, rest) else none

abbrev skip_byte : List ℕ → Option (Bool × List ℕ)
skip_byte [] = none
skip_byte (b ∷ rest) = some (true, rest)

abbrev small_java : JavaWire
small_java = record {
  read_tag = read_small;
  read_float = plain.read_float;
  skip_field = λ t input. skip_byte input;
  accepts = λ t. t == 0;
}

read_small_shrinks :
    (input : List ℕ) (t : ℕ) (rest : List ℕ)
    → read_small input ≡ some (t, rest)
    → t ≢ 0
    → length rest < length input
read_small_shrinks [] t rest e h = ground (arith, h)
read_small_shrinks (u ∷ input) t rest e h = ground arith

skip_byte_shrinks :
    (input : List ℕ) (known : Bool) (rest : List ℕ)
    → skip_byte input ≡ some (known, rest)
    → length rest ≤ length input
skip_byte_shrinks [] known rest e = cc
skip_byte_shrinks (b ∷ input) known rest e = ground arith

float_shrinks :
    (input : List ℕ) (v : ℕ) (rest : List ℕ)
    → plain.read_float input ≡ some (v, rest)
    → length rest ≤ length input
float_shrinks input v rest e = omega (arith, plain-IsWire.read_float_shrinks input v rest e)

small_java-IsJavaWire : IsJavaWire small_java
small_java-IsJavaWire = record {
  read_tag_end = refl;
  read_tag_small = λ t rest lo hi. ground arith;
  read_tag_zero = λ rest. refl;
  read_tag_shrinks = read_small_shrinks;
  read_float_lem = λ v rest h. plain-IsWire.read_float_lem v rest h;
  read_float_shrinks = float_shrinks;
  skip_field_shrinks = λ t. skip_byte_shrinks;
  accepts_end = refl;
}

two_args-HasFloats : HasFloats two_args
two_args-HasFloats = record {
  float0 = omega arith;
  float1 = omega arith;
  float2 = omega arith;
  float3 = omega arith;
  float4 = omega arith;
}

parse_from-serialize_example :
    parse_from small_java (serialize plain two_args [])
    ≡ some (shown_of plain-IsWire small_java-IsJavaWire two_args)
parse_from-serialize_example =
    parse_from-serialize plain-IsWire small_java-IsJavaWire two_args two_args-HasFloats

java_parse-ne-stuck_example : java_parse small_java (13 ∷ 1 ∷ []) ≢ stuck
java_parse-ne-stuck_example = java_parse-ne-stuck small_java-IsJavaWire (13 ∷ 1 ∷ [])

checker_shows_sent_example :
    let texts = two_read ∷ [] ∷ two_read ∷ [] in
    let ms = messages (spec_run digit (all_selected texts) five_ones).1 in
    (o' : Outbox) × (sent : List (Option (List ℕ))) × (answers digit keep_rest texts sent_ones
      ≡ ok (o', sent))
    × (check_update small_java
          (reads_of (length ms) (transmit small_net 1 sent start_net).bytes)
          new_str
        ≡ (exact_all ms, true))
unfolding small_net-IsWinsock
checker_shows_sent_example =
    checker_shows_sent plain-IsWire small_java-IsJavaWire digit keep_rest-IsStore digit-GivesFloats
      small_net-IsWinsock 1 (λ bytes v. refl) (two_read ∷ [] ∷ two_read ∷ []) sent_ones five_ones
      start_net sent_ones-Holds ones-HasFloats refl

-- "7,0,9" as the second line
abbrev zero_text : List ℕ
zero_text = 49 ∷ newline ∷ short_line ++ newline ∷ []

server_zero_ends_checker_example :
    (o' : Outbox) × (bytes : List ℕ) × (server_answers digit keep_rest
        ((none, zero_text) ∷ [])
        fresh
      ≡ ok (o', some bytes ∷ []))
    × ((rs : List Read) → check_update small_java (stored bytes ∷ rs) new_str ≡ ([], false))
unfolding find substr front back split is_zero server_select total_size size_arg
server_zero_ends_checker_example =
    server_zero_ends_checker plain-IsWire small_java-IsJavaWire digit keep_rest-IsStore
      digit-GivesFloats none zero_text fresh (7 ∷ 0 ∷ 9 ∷ 9 ∷ 9 ∷ []) (omega arith) refl
      (omega arith)
