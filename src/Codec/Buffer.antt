-- ===== src/Codec/Buffer.antt =====
-- internal/codec/buffer.go: the append-only writer and the read cursor.
pub mod Cursor
use zenoh_go_client.Prelude.{
  ℕ, ◌+◌, ◌-◌, ◌*◌, ◌/◌, ◌%◌, ◌^◌, ◌<◌, List, [], ◌∷◌, ◌++◌, Option, none, some, bit_or, length,
  take, drop, get_elem?, leb, ltb, if◌then◌else◌,
}
use zenoh_go_client.Codec.Types.{
  Bytes, Error, unexpected_eof, negative_length, Result, ok, err, Parser, ◌>>=◌, pure, and_then,
  Written, written, Encoder,
}

-- The reader operations on the unread bytes, which the decoders are written over.
unfoldable pub read_byte : Parser ℕ
read_byte [] = err unexpected_eof
read_byte (b ∷ rest) = ok (b, rest)

unfoldable pub peek_byte : Bytes → Result ℕ
peek_byte [] = err unexpected_eof
peek_byte (b ∷ rest) = ok b

unfoldable pub read_n : ℕ → Parser Bytes
read_n n r = if ltb (length r) n then err unexpected_eof else ok (take n r, drop n r)

-- `r.Bytes()` followed by `r.Skip(r.Len())`.
unfoldable pub read_rest : Parser Bytes
read_rest r = ok (r, [])

unfoldable pub append_byte : ℕ → Encoder
append_byte b w = written (w ++ (b ∷ []))

unfoldable pub append_bytes : Bytes → Encoder
append_bytes p w = written (w ++ p)

-- `byte(v)`, `byte(v >> 8)`.
unfoldable pub append_u16_le : ℕ → Encoder
append_u16_le v w = written (w ++ ((v % 256) ∷ (v / 256 % 256) ∷ []))

unfoldable pub u16_of : Bytes → ℕ
u16_of (lo ∷ hi ∷ rest) = bit_or lo (hi * 2 ^ 8 % 2 ^ 16)
u16_of _ = 0

unfoldable pub read_u16_le : Parser ℕ
read_u16_le = read_n 2 >>= λ b. pure (u16_of b)
