-- ===== src/Codec/Vle.antt =====
-- internal/codec/vle.go: base-128 integers, lowest group first, in at most nine bytes; the ninth
-- carries eight raw bits.
pub mod RoundTrip
pub mod Size
pub mod Bounds
use zenoh_go_client.Prelude.{
  ℕ, zero, suc, ◌+◌, ◌-◌, ◌*◌, ◌/◌, ◌%◌, ◌^◌, ◌<◌, List, [], ◌∷◌, ◌++◌, bit_and, bit_or, ltb, ◌==◌,
  not, ◌&&◌, if◌then◌else◌,
}
use zenoh_go_client.Codec.Types.{
  Bytes, overflow, Parser, ◌>>=◌, pure, fail, and_then, Written, written, Encoder,
}
use zenoh_go_client.Codec.Buffer.{read_byte}

abbrev pub max_z8_bytes : ℕ
max_z8_bytes = 2

abbrev pub max_z16_bytes : ℕ
max_z16_bytes = 3

abbrev pub max_z32_bytes : ℕ
max_z32_bytes = 5

abbrev pub max_z64_bytes : ℕ
max_z64_bytes = 9

-- The loop of `EncodeZ64` with the rounds that are left; `v >>= 7` is `v / 128`.
unfoldable pub encode_loop : ℕ → ℕ → Bytes → Bytes
encode_loop zero v buf = buf ++ ((v % 256) ∷ [])
encode_loop (suc rounds) v buf =
    let rest = encode_loop rounds (v / 128) (buf ++ (bit_or (v % 256) 0x80 ∷ [])) in
    if ltb v 0x80 then buf ++ ((v % 256) ∷ []) else rest

unfoldable pub encode_z64 : ℕ → Encoder
encode_z64 v w = written (encode_loop (max_z64_bytes - 1) v w)

-- The narrower widths widen to uint64.
unfoldable pub encode_z32 : ℕ → Encoder
encode_z32 v = encode_z64 v

unfoldable pub encode_z16 : ℕ → Encoder
encode_z16 v = encode_z64 v

unfoldable pub encode_z8 : ℕ → Encoder
encode_z8 v = encode_z64 v

-- `uint64(b) << shift`
abbrev pub shift_left : ℕ → ℕ → ℕ
shift_left b shift = b * 2 ^ shift % 2 ^ 64

-- The loop of `decodeVLE`: the rounds that are left, then `i`, `maxBytes`, `value` and `shift`.
unfoldable pub decode_loop : ℕ → ℕ → ℕ → ℕ → ℕ → Parser ℕ
decode_loop zero i max_bytes value shift = fail overflow
decode_loop (suc rounds) i max_bytes value shift = do
  b ← read_byte
  let value' = bit_or value (shift_left (bit_and b 0x7f) shift)
  let more = decode_loop rounds (i + 1) max_bytes value' (shift + 7)
  if i == max_z64_bytes - 1
      then pure (bit_or value (shift_left b shift))
      else if i == max_bytes - 1 && not (bit_and b 0x80 == 0)
      then fail overflow
      else if bit_and b 0x80 == 0
      then pure value'
      else more

unfoldable pub decode_vle : ℕ → Parser ℕ
decode_vle max_bytes = decode_loop max_bytes 0 max_bytes 0 0

unfoldable pub decode_z64 : Parser ℕ
decode_z64 = decode_vle max_z64_bytes

-- The value of `decodeVLE`, refused above the width's largest number.
unfoldable pub decode_narrow : ℕ → ℕ → Parser ℕ
decode_narrow max_bytes limit = do
  v ← decode_vle max_bytes
  if ltb limit v then fail overflow else pure v

unfoldable pub decode_z32 : Parser ℕ
decode_z32 = decode_narrow max_z32_bytes 0xFFFFFFFF

unfoldable pub decode_z16 : Parser ℕ
decode_z16 = decode_narrow max_z16_bytes 0xFFFF

unfoldable pub decode_z8 : Parser ℕ
decode_z8 = decode_narrow max_z8_bytes 0xFF

-- `bits.Len64`: the number of binary digits, at most the fuel.
unfoldable pub len_bits : ℕ → ℕ → ℕ
len_bits zero v = 0
len_bits (suc fuel) v = let more = len_bits fuel (v / 2) in if v == 0 then 0 else 1 + more

unfoldable pub size_z64 : ℕ → ℕ
size_z64 v =
    let b = len_bits 64 v in
    let n = (b + 6) / 7 in if b == 0 then 1 else if ltb max_z64_bytes n then max_z64_bytes else n
