-- ===== src/Codec/Header/Laws.antt =====
-- header.go: packing and unpacking are inverse, both ways.
use zenoh_go_client.Prelude.{
  ℕ, ◌+◌, ◌*◌, ◌/◌, ◌%◌, ◌<◌, ◌≡◌, refl, subst, Bool, true, false, arith, bit_and,
}
use zenoh_go_client.Prelude.Bits.{all_below, table, and_mask, and_0x80, or_disjoint}
use zenoh_go_client.Codec.Types.{◌>>=◌, pure}
use zenoh_go_client.Codec.Buffer.{read_byte, append_byte}
use zenoh_go_client.Codec.Carries.{Carries, Carries-last}
use zenoh_go_client.Codec.Primitives.Laws.{append_byte-Carries}
use zenoh_go_client.Codec.Header.{Header, pack_header, unpack_header, encode_header, decode_header}

pub and_0x20 : (b : ℕ) → b < 256 → bit_and b 0x20 ≡ b / 32 % 2 * 32
unfolding all_below
and_0x20 = table 256 _ _ refl

pub and_0x40 : (b : ℕ) → b < 256 → bit_and b 0x40 ≡ b / 64 % 2 * 64
unfolding all_below
and_0x40 = table 256 _ _ refl

unfoldable pub digit : Bool → ℕ
digit true = 1
digit false = 0

-- The header byte as a number: the ID and three binary digits.
pub pack_header-sum :
    (h : Header)
    → h.id < 32
    → pack_header h ≡ h.id + digit h.f1 * 32 + digit h.f2 * 64 + digit h.z * 128
unfolding pack_header digit
pack_header-sum h lt = ground (
  arith,
  and_mask 5 h.id,
  or_disjoint 5 h.id 1,
  or_disjoint 6 h.id 1,
  or_disjoint 6 (h.id + 32) 1,
  or_disjoint 7 h.id 1,
  or_disjoint 7 (h.id + 32) 1,
  or_disjoint 7 (h.id + 64) 1,
  or_disjoint 7 (h.id + 96) 1,
)

-- A header with a five-bit ID survives the byte, and every byte is the header that it unpacks to.
pub unpack_header-pack_header : (h : Header) → h.id < 32 → unpack_header (pack_header h) ≡ h
unfolding unpack_header digit
unpack_header-pack_header h lt =
    rw (pack_header-sum h lt)
      (ground (arith, and_mask 5 sum, and_0x20 sum, and_0x40 sum, and_0x80 sum))
  where
    sum : ℕ
    sum = h.id + digit h.f1 * 32 + digit h.f2 * 64 + digit h.z * 128

pub pack_header-unpack_header : (b : ℕ) → b < 256 → pack_header (unpack_header b) ≡ b
unfolding all_below pack_header unpack_header
pack_header-unpack_header = table 256 _ _ refl

pub pack_header-IsByte : (h : Header) → h.id < 32 → pack_header h < 256
unfolding digit
pack_header-IsByte h lt = ground (arith, pack_header-sum h lt)

-- Every message header with a five-bit ID is carried.
pub encode_header-Carries : (h : Header) → h.id < 32 → Carries (encode_header h) decode_header h
unfolding encode_header decode_header
encode_header-Carries h lt =
    subst (Carries (append_byte (pack_header h)) (read_byte >>= λ b. pure (unpack_header b)))
      (unpack_header-pack_header h lt)
      (Carries-last unpack_header (append_byte-Carries (pack_header h)))
