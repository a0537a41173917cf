-- ===== src/Codec/Primitives.antt =====
-- internal/codec/primitives.go: byte arrays and strings behind a length.
pub mod Laws
use zenoh_go_client.Prelude.{
  ℕ, zero, suc, ◌+◌, ◌-◌, ◌≤◌, Bool, true, false, ◌&&◌, ◌||◌, List, [], ◌∷◌, length, ltb, leb, ◌==◌,
  if◌then◌else◌,
}
use zenoh_go_client.Codec.Types.{
  Bytes, too_long, invalid_utf8, Parser, ◌>>=◌, Encoder, ◌>>◌, refuse,
}
use zenoh_go_client.Codec.Buffer.{read_n, append_bytes}
use zenoh_go_client.Codec.Vle.{encode_z8, encode_z16, encode_z32, decode_z8, decode_z16, decode_z32}

-- A length that the prefix can hold, then the bytes.
unfoldable pub encode_bytes : ℕ → (ℕ → Encoder) → Bytes → Encoder
encode_bytes limit encode_length b =
    if ltb limit (length b) then refuse too_long else (encode_length (length b) >> append_bytes b)

unfoldable pub encode_bytes_z8 : Bytes → Encoder
unfolding encode_bytes
encode_bytes_z8 = encode_bytes 0xFF encode_z8

unfoldable pub encode_bytes_z16 : Bytes → Encoder
unfolding encode_bytes
encode_bytes_z16 = encode_bytes 0xFFFF encode_z16

unfoldable pub encode_bytes_z32 : Bytes → Encoder
unfolding encode_bytes
encode_bytes_z32 = encode_bytes 0xFFFFFFFF encode_z32

-- `utf8.ValidString`, byte by byte: how many continuation bytes are due, and the range of the next.
pub record Due : Type 0 where
  pub count : ℕ
  pub low : ℕ
  pub high : ℕ

abbrev between : ℕ → ℕ → ℕ → Bool
between low high b = leb low b && leb b high

-- What a first byte asks for; a byte that starts no character asks for one that cannot come.
due_after_first : ℕ → Due
due_after_first b =
    if ltb b 0x80
    then record { count = 0; low = 0x80; high = 0xBF }
    else if between 0xC2 0xDF b
    then record { count = 1; low = 0x80; high = 0xBF }
    else if b == 0xE0
    then record { count = 2; low = 0xA0; high = 0xBF }
    else if b == 0xED
    then record { count = 2; low = 0x80; high = 0x9F }
    else if between 0xE1 0xEF b
    then record { count = 2; low = 0x80; high = 0xBF }
    else if b == 0xF0
    then record { count = 3; low = 0x90; high = 0xBF }
    else if b == 0xF4
    then record { count = 3; low = 0x80; high = 0x8F }
    else if between 0xF1 0xF3 b
    then record { count = 3; low = 0x80; high = 0xBF }
    else record { count = 1; low = 1; high = 0 }

utf8_from : Due → Bytes → Bool
unfolding due_after_first
utf8_from due [] = due.count == 0
utf8_from due (b ∷ bs) =
    let next : Due =
      if due.count == 0
      then due_after_first b
      else record { count = due.count - 1; low = 0x80; high = 0xBF } in
    (due.count == 0 || between due.low due.high b) && utf8_from next bs

unfoldable pub valid_utf8 : Bytes → Bool
unfolding utf8_from
valid_utf8 = utf8_from (record { count = 0; low = 0x80; high = 0xBF })

unfoldable pub encode_string_z8 : Bytes → Encoder
encode_string_z8 s = if valid_utf8 s then encode_bytes_z8 s else refuse invalid_utf8

unfoldable pub encode_string_z16 : Bytes → Encoder
encode_string_z16 s = if valid_utf8 s then encode_bytes_z16 s else refuse invalid_utf8

unfoldable pub decode_bytes_z8 : Parser Bytes
decode_bytes_z8 = decode_z8 >>= read_n

unfoldable pub decode_bytes_z16 : Parser Bytes
decode_bytes_z16 = decode_z16 >>= read_n

unfoldable pub decode_bytes_z32 : Parser Bytes
decode_bytes_z32 = decode_z32 >>= read_n

-- No check of the text on the way in.
unfoldable pub decode_string_z8 : Parser Bytes
decode_string_z8 = decode_bytes_z8

unfoldable pub decode_string_z16 : Parser Bytes
decode_string_z16 = decode_bytes_z16
