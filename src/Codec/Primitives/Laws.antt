-- ===== src/Codec/Primitives/Laws.antt =====
-- primitives.go and the fixed-width fields of buffer.go: what is written is read back.
use zenoh_go_client.Prelude.{
  ℕ, ◌*◌, ◌/◌, ◌%◌, ◌^◌, ◌≤◌, ◌<◌, ◌≡◌, refl, ap, ◌∙◌, true, [], ◌∷◌, ◌++◌, length, arith, ltb,
  length-append, take-append, drop-append, inl, inr, Bool-cases, bit_or,
}
use zenoh_go_client.Prelude.Bits.{or_disjoint}
use zenoh_go_client.Codec.Types.{Bytes, ok, Parser, ◌>>=◌, pure, Encoder}
use zenoh_go_client.Codec.Carries.{Carries, Carries->>}
use zenoh_go_client.Codec.Buffer.{
  read_byte, read_n, read_rest, append_byte, append_bytes, append_u16_le, read_u16_le, u16_of,
}
use zenoh_go_client.Codec.Vle.{encode_z8, encode_z16, encode_z32}
use zenoh_go_client.Codec.Vle.RoundTrip.{encode_z8-Carries, encode_z16-Carries, encode_z32-Carries}
use zenoh_go_client.Codec.Primitives.{
  encode_bytes, encode_bytes_z8, encode_bytes_z16, encode_bytes_z32, valid_utf8, encode_string_z8,
  encode_string_z16, decode_bytes_z8, decode_bytes_z16, decode_bytes_z32, decode_string_z8,
  decode_string_z16,
}

pub append_byte-Carries : (b : ℕ) → Carries (append_byte b) read_byte b
unfolding append_byte read_byte
append_byte-Carries b = record { bytes = b ∷ []; writes = λ w. refl; reads = λ rest. refl }

read_n-append : (b rest : Bytes) → read_n (length b) (b ++ rest) ≡ ok (b, rest)
unfolding read_n
read_n-append b rest = ground (arith, length-append b rest, take-append b rest, drop-append b rest)

pub append_bytes-Carries : (b : Bytes) → Carries (append_bytes b) (read_n (length b)) b
unfolding append_bytes
append_bytes-Carries b = record {
  bytes = b;
  writes = λ w. refl;
  reads = λ rest. read_n-append b rest;
}

pub u16-bytes : (v : ℕ) → v < 2 ^ 16 → bit_or (v % 256) (v / 256 % 256 * 2 ^ 8 % 2 ^ 16) ≡ v
u16-bytes v h =
    ap (λ (t : ℕ). bit_or (v % 256) t) (omega arith)
    ∙ or_disjoint 8 (v % 256) (v / 256) (omega arith)
    ∙ omega arith

pub append_u16_le-Carries : (v : ℕ) → v < 2 ^ 16 → Carries (append_u16_le v) read_u16_le v
unfolding append_u16_le read_u16_le ◌>>=◌ pure read_n u16_of
append_u16_le-Carries v h = record {
  bytes = (v % 256) ∷ (v / 256 % 256) ∷ [];
  writes = λ w. refl;
  reads = λ rest. ground (arith, u16-bytes v h);
}

encode_bytes-Carries :
    (limit : ℕ) (enc : ℕ → Encoder) (dec : Parser ℕ) (b : Bytes)
    → length b ≤ limit
    → Carries (enc (length b)) dec (length b)
    → Carries (encode_bytes limit enc b) (dec >>= read_n) b
unfolding encode_bytes
encode_bytes-Carries limit enc dec b h c = elim (Bool-cases (ltb limit (length b))) [
  | inl e ↦ absurd (ground arith)
  | inr e ↦ rw e (Carries->> read_n c (append_bytes-Carries b))
]

-- A byte string that fits its prefix is carried, at each width.
pub encode_bytes_z8-Carries :
    (b : Bytes) → length b < 2 ^ 8 → Carries (encode_bytes_z8 b) decode_bytes_z8 b
unfolding encode_bytes_z8 decode_bytes_z8
encode_bytes_z8-Carries b h =
    encode_bytes-Carries 0xFF encode_z8 _ b (omega arith) (encode_z8-Carries (length b) h)

pub encode_bytes_z16-Carries :
    (b : Bytes) → length b < 2 ^ 16 → Carries (encode_bytes_z16 b) decode_bytes_z16 b
unfolding encode_bytes_z16 decode_bytes_z16
encode_bytes_z16-Carries b h =
    encode_bytes-Carries 0xFFFF encode_z16 _ b (omega arith) (encode_z16-Carries (length b) h)

pub encode_bytes_z32-Carries :
    (b : Bytes) → length b < 2 ^ 32 → Carries (encode_bytes_z32 b) decode_bytes_z32 b
unfolding encode_bytes_z32 decode_bytes_z32
encode_bytes_z32-Carries b h =
    encode_bytes-Carries 0xFFFFFFFF encode_z32 _ b (omega arith) (encode_z32-Carries (length b) h)

pub encode_string_z8-Carries :
    (s : Bytes)
    → valid_utf8 s ≡ true
    → length s < 2 ^ 8
    → Carries (encode_string_z8 s) decode_string_z8 s
unfolding encode_string_z8 decode_string_z8
encode_string_z8-Carries s valid h = rw valid (encode_bytes_z8-Carries s h)

-- A valid UTF-8 string of less than 2 ^ 16 bytes is read back from its length-prefixed encoding.
pub encode_string_z16-Carries :
    (s : Bytes)
    → valid_utf8 s ≡ true
    → length s < 2 ^ 16
    → Carries (encode_string_z16 s) decode_string_z16 s
unfolding encode_string_z16 decode_string_z16
encode_string_z16-Carries s valid h = rw valid (encode_bytes_z16-Carries s h)

-- The last field of a message that has no length: all that is left.
pub read_rest-append : (b : Bytes) → read_rest b ≡ ok (b, [])
unfolding read_rest
read_rest-append b = refl
