-- ===== src/Examples/Locator.antt =====
-- internal/locator/locator.go: runs, and each theorem at an input.
use zenoh_go_client.Prelude.{◌≡◌, refl, [], ◌∷◌, Option, none, some, bytes_eq}
use zenoh_go_client.Prelude.Dict.{store}
use zenoh_go_client.Codec.Types.{Bytes}
use zenoh_go_client.Zenoh.Json5.Lexical.{decimal_value}
use zenoh_go_client.Locator.{
  cut_at, split_at, put_pairs, located, Locator, is_network, known_schemes, parse_port, parse_kv,
  locator_text, validate_host_port, check_locator, parse_locator,
}
use zenoh_go_client.Locator.Printed.{parse_locator-locator_text}

-- The text in front of the first colon and the text behind it.
abbrev at_colon : Bytes → Option (Bytes × Bytes)
at_colon s = cut_at b':' s

-- `tcp/h:80?a=b`
abbrev text : Bytes
text = b't' ∷ b'c' ∷ b'p' ∷ b'/' ∷ b'h' ∷ b':' ∷ b'8' ∷ b'0' ∷ b'?' ∷ b'a' ∷ b'=' ∷ b'b' ∷ []

abbrev locator : Locator
locator = record {
  scheme = b't' ∷ b'c' ∷ b'p' ∷ [];
  address = b'h' ∷ b':' ∷ b'8' ∷ b'0' ∷ [];
  metadata = some ((b'a' ∷ [], b'b' ∷ []) ∷ []);
}

text-parses : parse_locator at_colon text ≡ located locator
unfolding parse_locator check_locator validate_host_port cut_at split_at put_pairs parse_kv
    parse_port is_network known_schemes decimal_value store bytes_eq
text-parses = refl

parse_locator-locator_text_example :
    parse_locator at_colon (locator_text locator) ≡ located (record locator { metadata = none })
parse_locator-locator_text_example = parse_locator-locator_text at_colon text locator text-parses
