-- ===== src/Tests/JsonRuns.antt =====
-- Runs of the JSON parser and emitter, with numbers of one digit.
use naitron_c.Prelude.{
  ℕ, ◌+◌, ◌-◌, ◌<◌, true, [], ◌∷◌, ◌++◌, none, some, ltb, if◌then◌else◌, Bytes, length, ◌≡◌, refl,
  arith, codes,
}
use naitron_c.Json.Strings.{
  json_escape, parse_string, escape_loop, puts, put, escape_char, escape_control,
}
use naitron_c.Json.StringTrip.{escape_text, parse_string-escape}
use naitron_c.Json.StringRoom.{json_escape_lem, parse_string-room}
use naitron_c.Json.Value.{Json, boolean, num, str, arr, obj, no_items, item, no_members, member}
use naitron_c.Json.Emit.{app, comma, emit_string, emit_rec, emit_items, emit_members, json_emit}
use naitron_c.Json.EmitLaws.{json_emit_lem}
use naitron_c.Json.Text.{text}
use naitron_c.Json.Parse.{json_parse, json_max_depth, is_number_char}
use naitron_c.Json.Limits.{Printable, IsSmall, AreSmall, MembersSmall}
use naitron_c.Json.Trip.{json_parse-json_emit}

abbrev read_digit : Bytes → ℕ
read_digit [] = 0
read_digit (c ∷ s) = c - b'0'

abbrev print_digit : ℕ → Bytes
print_digit n = (b'0' + n) ∷ []

abbrev sample : Json ℕ
sample = obj (
    member (codes "id") (num 7) (
      member (codes "tags") (arr (item (str (codes "a\"")) (item (boolean true) no_items)))
        no_members))

abbrev sample_text : Bytes
sample_text = codes "{\"id\":7,\"tags\":[\"a\\\"\",true]}"

sample_emitted : json_emit print_digit 64 sample ≡ some sample_text
unfolding json_emit emit_rec emit_items emit_members emit_string comma app json_escape escape_loop
    puts put escape_char escape_control
sample_emitted = refl

sample-IsSmall : IsSmall read_digit print_digit json_max_depth sample
unfolding IsSmall AreSmall MembersSmall is_number_char
sample-IsSmall =
    let seven : Printable read_digit print_digit 7 = record {
      chars = (refl, tt);
      starts = refl;
      short = omega arith;
      reads = refl;
    } in
    let tags : AreSmall read_digit print_digit 30 0
        (item (str (codes "a\"")) (item (boolean true) no_items)) =
      (omega arith, tt, (omega arith, tt, tt)) in
    (omega arith, seven, (omega arith, tags, tt))

json_parse-json_emit_example : json_parse read_digit sample_text ≡ some sample
json_parse-json_emit_example =
    json_parse-json_emit read_digit print_digit 64 sample sample_text sample-IsSmall sample_emitted

json_emit_lem_example :
    json_emit print_digit 64 sample
    ≡ (if ltb (length (text print_digit sample)) 64 then some (text print_digit sample) else none)
json_emit_lem_example = json_emit_lem print_digit 64 sample

json_escape_lem_example : json_escape 4 (codes "a\"") ≡ (
    if ltb (length (escape_text (codes "a\""))) 4 then some (escape_text (codes "a\"")) else none)
json_escape_lem_example = json_escape_lem 4 (codes "a\"")

parse_string-escape_example :
    parse_string (escape_text (codes "a\"") ++ (b'"' ∷ codes ", 1"))
    ≡ some (codes "a\"", codes ", 1")
parse_string-escape_example = parse_string-escape (codes "a\"") (codes ", 1")

parse_string-room_example :
    length (codes "a\"") + length (codes ", 1")
    < length (escape_text (codes "a\"") ++ (b'"' ∷ codes ", 1"))
parse_string-room_example =
    parse_string-room (escape_text (codes "a\"") ++ (b'"' ∷ codes ", 1")) (codes "a\"")
      (codes ", 1") parse_string-escape_example
