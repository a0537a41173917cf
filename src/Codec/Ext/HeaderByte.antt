-- ===== src/Codec/Ext/HeaderByte.antt =====
-- ext.go: the extension header byte, and one extension, are read back as they were written.
use zenoh_go_client.Prelude.{
  ℕ, ◌+◌, ◌*◌, ◌/◌, ◌%◌, ◌^◌, ◌<◌, ◌≡◌, ◌≢◌, refl, subst, [], length, arith, bit_and, ◌⊎◌, inl, inr,
}
use zenoh_go_client.Prelude.Bits.{all_below, table, and_mask, and_0x80, or_disjoint}
use zenoh_go_client.Codec.Types.{Bytes}
use zenoh_go_client.Codec.Carries.{Carries, Carries-skip, Carries->>, Carries-last}
use zenoh_go_client.Codec.Vle.RoundTrip.{encode_z64-Carries}
use zenoh_go_client.Codec.Primitives.Laws.{append_byte-Carries, encode_bytes_z32-Carries}
use zenoh_go_client.Codec.Header.Laws.{digit}
use zenoh_go_client.Codec.Ext.{
  ExtHeader, Extension, pack_ext_header, unpack_ext_header, encode_ext_body, decode_ext_body,
  encode_extension, decode_extension,
}

and_0x10 : (b : ℕ) → b < 256 → bit_and b 0x10 ≡ b / 16 % 2 * 16
unfolding all_below
and_0x10 = table 256 _ _ refl

and_0x60 : (b : ℕ) → b < 256 → bit_and b 0x60 ≡ b / 32 % 4 * 32
unfolding all_below
and_0x60 = table 256 _ _ refl

-- The header byte as a number: the ID, one digit, the two bits of the encoding, one digit.
pack_ext_header-sum :
    (h : ExtHeader)
    → h.id < 16
    → h.encoding < 4
    → pack_ext_header h ≡ h.id + digit h.mandatory * 16 + h.encoding * 32 + digit h.more * 128
unfolding pack_ext_header digit
pack_ext_header-sum h lt enc = ground (
  arith,
  and_mask 4 h.id,
  and_mask 2 h.encoding,
  or_disjoint 4 h.id 1,
  or_disjoint 5 h.id h.encoding,
  or_disjoint 5 (h.id + 16) h.encoding,
  or_disjoint 7 (h.id + h.encoding * 32) 1,
  or_disjoint 7 (h.id + 16 + h.encoding * 32) 1,
)

-- An extension header with a four-bit ID and a two-bit encoding survives the byte.
pub unpack_ext_header-pack_ext_header :
    (h : ExtHeader) → h.id < 16 → h.encoding < 4 → unpack_ext_header (pack_ext_header h) ≡ h
unfolding unpack_ext_header digit
unpack_ext_header-pack_ext_header h lt enc =
    rw (pack_ext_header-sum h lt enc)
      (ground (arith, and_mask 4 sum, and_0x10 sum, and_0x60 sum, and_0x80 sum))
  where
    sum : ℕ
    sum = h.id + digit h.mandatory * 16 + h.encoding * 32 + digit h.more * 128

-- An extension that the wire can hold: a body only where the encoding has one, and in its range.
pub record IsExt (e : Extension) : Type 0 where
  pub id_fits : e.header.id < 16
  pub encoding_known : e.header.encoding < 3
  pub z64_fits : e.z64 < 2 ^ 64
  pub z64_only : e.header.encoding ≢ 1 → e.z64 ≡ 0
  pub zbuf_fits : length e.zbuf < 2 ^ 32
  pub zbuf_only : e.header.encoding ≢ 2 → e.zbuf ≡ []

three_cases : (n : ℕ) → n < 3 → (n ≡ 0) ⊎ ((n ≡ 1) ⊎ (n ≡ 2))
three_cases n h = ground arith

-- An extension with the header of `e` but the given encoding and body.
abbrev with_body : Extension → ℕ → ℕ → Bytes → Extension
with_body e encoding z64 zbuf = record {
  header = record (e.header) { encoding = encoding };
  z64 = z64;
  zbuf = zbuf;
}

BodyCarries : Extension → Type 0
BodyCarries e = Carries (encode_ext_body e) (decode_ext_body e.header) e

unit-Carries : (e : Extension) → BodyCarries (with_body e 0 0 [])
unfolding BodyCarries encode_ext_body decode_ext_body
unit-Carries e = Carries-skip _

z64-Carries : (e : Extension) → e.z64 < 2 ^ 64 → BodyCarries (with_body e 1 e.z64 [])
unfolding BodyCarries encode_ext_body decode_ext_body
z64-Carries e h = Carries-last _ (encode_z64-Carries e.z64 h)

zbuf-Carries : (e : Extension) → length e.zbuf < 2 ^ 32 → BodyCarries (with_body e 2 0 e.zbuf)
unfolding BodyCarries encode_ext_body decode_ext_body
zbuf-Carries e h = Carries-last _ (encode_bytes_z32-Carries e.zbuf h)

body-Carries : (e : Extension) → IsExt e → BodyCarries e
body-Carries e v = elim (three_cases e.header.encoding v.encoding_known) [
  | inl unit ↦
      let same : with_body e 0 0 [] ≡ e =
        ground (arith, v.z64_only (omega arith), v.zbuf_only (omega arith)) in
      subst BodyCarries same (unit-Carries e)
  | inr (inl z64) ↦
      let same : with_body e 1 e.z64 [] ≡ e = ground (arith, v.zbuf_only (omega arith)) in
      subst BodyCarries same (z64-Carries e v.z64_fits)
  | inr (inr zbuf) ↦
      let same : with_body e 2 0 e.zbuf ≡ e = ground (arith, v.z64_only (omega arith)) in
      subst BodyCarries same (zbuf-Carries e v.zbuf_fits)
]

-- Every extension that the wire can hold is carried, header and body.
pub encode_extension-Carries :
    (e : Extension) → IsExt e → Carries (encode_extension e) decode_extension e
unfolding encode_extension decode_extension BodyCarries
encode_extension-Carries e v =
    let same =
      unpack_ext_header-pack_ext_header e.header v.id_fits
        (let known = v.encoding_known in omega arith) in
    Carries->> _ (append_byte-Carries (pack_ext_header e.header)) (rw same (body-Carries e v))
