-- ===== src/Json/Tests.antt =====
-- Runs of the parser and the printer of src/json.hpp, with doubles kept as their text.
use bitcoin_tui.Base.{
  true, false, some, none, ◌++◌, arith, Ensures, [], ◌∷◌, Bytes, codes, ℤ, pos, negsuc, Outcome, ok,
  throw, invalid_argument, inr, to_string, to_decimal, stoll, span_digits, compare_bytes, ◌≡◌, refl,
}
use bitcoin_tui.Json.Value.{
  Floats, Json, null, bool, int, float, string, array, object, no_items, item, no_fields, field,
  push_back, insert,
}
use bitcoin_tui.Json.Numbers.{ReadsBack}
use bitcoin_tui.Json.Literals.{Literal, minus, IsLiteral, literal_text}
use bitcoin_tui.Json.Valid.{IsValid}
use bitcoin_tui.Json.Unicode.{decode_utf8, parse_string_val-print_u}
use bitcoin_tui.Json.RoundTrip.{parse-dump}
use bitcoin_tui.Json.Sound.{IsStored, parse-Ensures}
use bitcoin_tui.Json.Access.{assign}
use bitcoin_tui.Json.Scan.{
  utf8, peek, consume, expect, escape, string_loop, parse_string_val, skip_ws,
}
use bitcoin_tui.Json.Parser.{
  scan_number, keyword, parse_number, parse_scalar, parse_value, finish, parse,
}
use bitcoin_tui.Json.Dump.{
  hex_digit, print_u, quote_byte, quote_bytes, quote, new_line, space_if_pretty, dump_impl, dump,
}

abbrev pub text_floats : Floats
text_floats = record {
  Double = Bytes;
  stod = λ s. inr s;
  print = λ s. s;
  is_finite = λ s. true;
  of_int = λ i. to_string i;
  to_int = λ s. pos 0;
}

abbrev pub sample : Json Bytes
sample = object (
    field (codes "a") (string (codes "x\ny")) (
      field (codes "b")
        (array (item (int (pos 1)) (item (int (negsuc 1)) (item (bool true) (item null no_items)))))
        (field (codes "c") (float (codes "1.5e-8")) no_fields)))

run_parse : Bytes → Outcome (Json Bytes)
unfolding parse parse_value peek consume expect parse_string_val string_loop escape parse_scalar
    parse_number scan_number keyword insert push_back finish skip_ws stoll span_digits compare_bytes
run_parse = parse text_floats

run_dump : ℤ → Json Bytes → Bytes
unfolding dump dump_impl quote quote_bytes quote_byte print_u hex_digit new_line space_if_pretty
    to_string to_decimal
run_dump = dump text_floats

parse_sample :
    run_parse (codes "{\"b\" : [1, -2,true , null],\"c\":1.5e-8, \"a\":\"x\\u000Ay\"} ") ≡ ok sample
unfolding run_parse
parse_sample = refl

dump_sample :
    run_dump (negsuc 0) sample ≡ codes "{\"a\":\"x\\ny\",\"b\":[1,-2,true,null],\"c\":1.5e-8}"
unfolding run_dump
dump_sample = refl

parse_dump_sample : run_parse (run_dump (pos 2) sample) ≡ ok sample
unfolding run_parse run_dump
parse_dump_sample = refl

parse_minus : run_parse (codes "-") ≡ throw invalid_argument
unfolding run_parse
parse_minus = refl

abbrev small_float : Literal
small_float = record {
  negative = false;
  whole = codes "1";
  fraction = some (codes "5");
  exponent = some (minus, codes "8");
}

small_float-IsLiteral : IsLiteral small_float
small_float-IsLiteral = record {
  whole_digits = ((omega arith, omega arith), tt);
  whole_ne_nil = cc;
  fraction_digits = ((omega arith, omega arith), tt);
  exponent_digits = (((omega arith, omega arith), tt), cc);
}

float-ReadsBack : ReadsBack text_floats (codes "1.5e-8")
unfolding literal_text
float-ReadsBack = record {
  finite = refl;
  literal = small_float;
  literal_valid = small_float-IsLiteral;
  is_float = refl;
  printed = refl;
  read = refl;
}

pub sample-IsValid : IsValid (ReadsBack text_floats) sample
unfolding IsValid compare_bytes
sample-IsValid = (
  ((refl, (refl, tt)), ((refl, tt), (tt, tt))),
  (tt, ((omega arith, (omega arith, (tt, (tt, tt)))), (float-ReadsBack, tt))),
)

parse-dump_example : parse text_floats (dump text_floats (pos 2) sample) ≡ ok sample
parse-dump_example = parse-dump text_floats (pos 2) sample sample-IsValid

parse-Ensures_example : Ensures (IsStored text_floats) (parse text_floats (codes "{\"a\":[1,-"))
parse-Ensures_example = parse-Ensures text_floats (codes "{\"a\":[1,-")

-- The first half of a pair that stands for a code point beyond 2^16.
parse_string_val-print_u_example :
    (parse_string_val (b'"' ∷ (print_u 0xd83d ++ b'"' ∷ [])) ≡ ok (utf8 0xd83d, []))
    × (decode_utf8 (utf8 0xd83d) ≡ none)
parse_string_val-print_u_example = parse_string_val-print_u 0xd83d [] (omega arith)

abbrev empty_object : Json Bytes
empty_object = object no_fields

assigned :
    assign (codes "k") (int (pos 7)) empty_object
    ≡ ok (object (field (codes "k") (int (pos 7)) no_fields))
unfolding assign insert
assigned = refl

abbrev one_member : Json Bytes
one_member = object (field (codes "k") (int (pos 7)) no_fields)
