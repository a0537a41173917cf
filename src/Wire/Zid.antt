-- ===== src/Wire/Zid.antt =====
-- internal/wire/zid.go: the node identifier and the packed byte that announces it.
use zenoh_go_client.Prelude.{
  ℕ, ◌+◌, ◌-◌, ◌*◌, ◌/◌, ◌%◌, ◌^◌, ◌≤◌, ◌<◌, ◌≡◌, sym, subst, Bool, ◌&&◌, ◌||◌, not, length,
  bit_and, bit_or, ltb, leb, ◌==◌, if◌then◌else◌, arith, ap, ◌∙◌, inl, inr, Bool-cases,
}
use zenoh_go_client.Prelude.Bits.{and_mask, or_high_low}
use zenoh_go_client.Codec.Types.{
  Bytes, zid_len_out_of_range, what_am_i_out_of_range, zid_length_mismatch, Parser, ◌>>=◌, pure,
  Encoder, refuse,
}
use zenoh_go_client.Codec.Carries.{Carries, Carries-last}
use zenoh_go_client.Codec.Buffer.{read_byte, read_n, append_byte, append_bytes}
use zenoh_go_client.Codec.Primitives.Laws.{append_byte-Carries, append_bytes-Carries}

pub record ZenohId : Type 0 where
  pub bytes : Bytes

unfoldable pub is_valid : ZenohId → Bool
is_valid z = leb 1 (length z.bytes) && leb (length z.bytes) 16

abbrev pub what_am_i_reserved : ℕ
what_am_i_reserved = 3

-- `byte(zidLen-1)<<4 | byte(wai&0b11)`
unfoldable pub packed_zid_byte : ℕ → ℕ → ℕ
packed_zid_byte zid_len wai = bit_or ((zid_len - 1) * 2 ^ 4 % 256) (bit_and wai 3)

unfoldable pub encode_packed_zid_byte : ℕ → ℕ → Encoder
encode_packed_zid_byte zid_len wai =
    if ltb zid_len 1 || ltb 16 zid_len
    then refuse zid_len_out_of_range
    else if ltb what_am_i_reserved wai
    then refuse what_am_i_out_of_range
    else append_byte (packed_zid_byte zid_len wai)

unfoldable pub unpack_zid_byte : ℕ → ℕ × ℕ
unpack_zid_byte b = (bit_and (b / 2 ^ 4) 0x0F + 1, bit_and b 3)

unfoldable pub decode_packed_zid_byte : Parser (ℕ × ℕ)
decode_packed_zid_byte = read_byte >>= λ b. pure (unpack_zid_byte b)

unfoldable pub encode_zid_bytes : ZenohId → ℕ → Encoder
encode_zid_bytes zid zid_len =
    if not (length zid.bytes == zid_len) then refuse zid_length_mismatch else append_bytes zid.bytes

unfoldable pub decode_zid_bytes : ℕ → Parser ZenohId
decode_zid_bytes zid_len = read_n zid_len >>= λ b. pure (record { bytes = b })

packed-sum :
    (n wai : ℕ) → n < 16 → wai < 4 → bit_or (n * 2 ^ 4 % 256) (bit_and wai 3) ≡ n * 16 + wai
packed-sum n wai hn hw =
    ap (λ (t : ℕ). bit_or t (bit_and wai 3)) (omega arith)
    ∙ ap (λ (t : ℕ). bit_or (n * 2 ^ 4) t) (and_mask 2 wai)
    ∙ or_high_low 4 n (wai % 4) (omega arith)
    ∙ omega arith

-- A length from 1 to 16 and a role survive the packed byte.
pub unpack_zid_byte-packed_zid_byte :
    (zid_len wai : ℕ)
    → 1 ≤ zid_len
    → zid_len ≤ 16
    → wai < 4
    → unpack_zid_byte (packed_zid_byte zid_len wai) ≡ (zid_len, wai)
unfolding unpack_zid_byte packed_zid_byte
unpack_zid_byte-packed_zid_byte zid_len wai lo hi hw =
    let sum = packed-sum (zid_len - 1) wai (omega arith) hw in
    let byte = (zid_len - 1) * 16 + wai in
    rw sum (ground (arith, and_mask 4 (byte / 16), and_mask 2 byte))

pub encode_packed_zid_byte-Carries :
    (zid_len wai : ℕ)
    → 1 ≤ zid_len
    → zid_len ≤ 16
    → wai < 4
    → Carries (encode_packed_zid_byte zid_len wai) decode_packed_zid_byte (zid_len, wai)
unfolding encode_packed_zid_byte decode_packed_zid_byte
encode_packed_zid_byte-Carries zid_len wai lo hi hw =
    let byte = packed_zid_byte zid_len wai in
    let c : Carries (append_byte byte) (read_byte >>= λ b. pure (unpack_zid_byte b))
        (zid_len, wai) =
      subst (Carries (append_byte byte) (read_byte >>= λ b. pure (unpack_zid_byte b)))
        (unpack_zid_byte-packed_zid_byte zid_len wai lo hi hw)
        (Carries-last unpack_zid_byte (append_byte-Carries byte)) in
    subst (λ e. Carries e (read_byte >>= λ b. pure (unpack_zid_byte b)) (zid_len, wai))
      (sym (ground arith)) c

pub encode_zid_bytes-Carries :
    (zid : ZenohId)
    → Carries (encode_zid_bytes zid (length zid.bytes)) (decode_zid_bytes (length zid.bytes)) zid
unfolding encode_zid_bytes decode_zid_bytes
encode_zid_bytes-Carries zid = elim (Bool-cases (not (length zid.bytes == length zid.bytes))) [
  | inl e ↦ absurd (ground arith)
  | inr e ↦ rw e (Carries-last _ (append_bytes-Carries zid.bytes))
]
