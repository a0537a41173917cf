-- ===== src/Examples/Json5.antt =====
-- zenoh/json5.go: runs, and each theorem at an input.
use zenoh_go_client.Prelude.{
  ℕ, ◌≡◌, ◌≢◌, refl, true, ◌&&◌, [], ◌∷◌, Option, none, leb, bytes_eq, arith,
}
use zenoh_go_client.Codec.Types.{Bytes}
use zenoh_go_client.Zenoh.Json5.{
  pos, negsuc, Json, bool, int, string, array, object, no_items, item, no_fields, field, parsed,
  spent, skip, skip_in,
}
use zenoh_go_client.Zenoh.Json5.Lexical.{
  hex_value, encode_rune, u_escape, simple_escape, escape, string_loop, parse_string, span,
  decimal_value, to_int64, decimal_number, parse_number, Unicode,
}
use zenoh_go_client.Zenoh.Json5.Parser.{parse_value, parse_json5}
use zenoh_go_client.Zenoh.Json5.Fuel.{parse_json5-ends}
use zenoh_go_client.Zenoh.Json5.Printer.{
  print_value, IsPrintable, is_bool, is_int, is_string, is_array, is_object, items_end, items_more,
  fields_end, fields_more,
}
use zenoh_go_client.Zenoh.Json5.RoundTrip.{parse_json5-print_value}

-- A text of single bytes, whose letters are the small ones.
abbrev pub ascii : Unicode
ascii = record {
  decode_rune = one;
  is_letter = λ c. leb b'a' c && leb c b'z';
  is_digit_rune = λ c. leb b'0' c && leb c b'9';
}
  where
    one : Bytes → ℕ × ℕ
    one [] = (0xfffd, 0)
    one (c ∷ r) = (c, 1)

-- No text is a float.
abbrev pub no_float : Bytes → Option ℕ
no_float s = none

-- {"a":[1,-2,true],"b":"\n"}
abbrev value : Json ℕ
value = object (
    field (b'a' ∷ [])
      (array (item (int (pos 1)) (item (int (negsuc 1)) (item (bool true) no_items))))
      (field (b'b' ∷ []) (string (10 ∷ [])) no_fields))

value-IsPrintable : IsPrintable value
unfolding bytes_eq
value-IsPrintable =
    is_object _ ((refl, tt), (tt, tt))
      (fields_more _ _ _
        (is_array _ (
          items_more _ _ (is_int (pos 1) (omega arith)) (
            items_more _ _ (is_int (negsuc 1) (omega arith))
              (items_more _ _ (is_bool true) items_end))))
        (fields_more _ _ _ (is_string _) fields_end))

parse_json5-print_value_example :
    parse_json5 no_float ascii (print_value value []) ≡ parsed value []
parse_json5-print_value_example = parse_json5-print_value no_float ascii value value-IsPrintable

-- An array that does not end.
parse_json5-ends_example : parse_json5 no_float ascii (b'[' ∷ b'1' ∷ b',' ∷ []) ≢ spent
parse_json5-ends_example = parse_json5-ends no_float ascii (b'[' ∷ b'1' ∷ b',' ∷ [])

-- `/* 5`
abbrev open_comment : Bytes
open_comment = b'/' ∷ b'*' ∷ b' ' ∷ b'5' ∷ []

-- `1 /*`
abbrev open_comment_behind : Bytes
open_comment_behind = b'1' ∷ b' ' ∷ b'/' ∷ b'*' ∷ []

-- `"\uD83D\uDE00"`
abbrev surrogates : Bytes
surrogates =
    34 ∷ 92 ∷ b'u' ∷ b'D' ∷ b'8' ∷ b'3' ∷ b'D' ∷ 92 ∷ b'u' ∷ b'D' ∷ b'E' ∷ b'0' ∷ b'0' ∷ 34 ∷ []

-- A comment that does not end is a space, in front of a value and behind it.
open_comment-value :
    (parse_json5 no_float ascii open_comment ≡ parsed (int (pos 5)) [])
    × (parse_json5 no_float ascii open_comment_behind ≡ parsed (int (pos 1)) [])
unfolding parse_json5 skip skip_in parse_value parse_number decimal_number span decimal_value
    to_int64
open_comment-value = (refl, refl)

-- Each half of a surrogate pair is written as U+FFFD.
surrogates-value :
    parse_json5 no_float ascii surrogates
    ≡ parsed (string (0xef ∷ 0xbf ∷ 0xbd ∷ 0xef ∷ 0xbf ∷ 0xbd ∷ [])) []
unfolding parse_json5 skip skip_in parse_value parse_string string_loop escape u_escape hex_value
    encode_rune simple_escape
surrogates-value = refl
