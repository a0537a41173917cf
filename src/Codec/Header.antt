-- ===== src/Codec/Header.antt =====
-- internal/codec/header.go: the message header byte.
pub mod Laws
use zenoh_go_client.Prelude.{ℕ, ◌<◌, Bool, true, false, not, bit_and, bit_or, ◌==◌, if◌then◌else◌}
use zenoh_go_client.Codec.Types.{Parser, ◌>>=◌, pure, Encoder}
use zenoh_go_client.Codec.Buffer.{read_byte, append_byte}

abbrev pub hdr_flag_f1 : ℕ
hdr_flag_f1 = 0x20

abbrev pub hdr_flag_f2 : ℕ
hdr_flag_f2 = 0x40

abbrev pub hdr_flag_z : ℕ
hdr_flag_z = 0x80

abbrev pub hdr_id_mask : ℕ
hdr_id_mask = 0x1F

pub record Header : Type 0 where
  pub id : ℕ
  pub f1 : Bool
  pub f2 : Bool
  pub z : Bool

-- `if flag { b |= bit }`
abbrev pub or_if : Bool → ℕ → ℕ → ℕ
or_if flag bit b = if flag then bit_or b bit else b

-- `b & bit != 0`
abbrev pub has_bit : ℕ → ℕ → Bool
has_bit b bit = not (bit_and b bit == 0)

unfoldable pub pack_header : Header → ℕ
pack_header h =
    or_if h.z hdr_flag_z
      (or_if h.f2 hdr_flag_f2 (or_if h.f1 hdr_flag_f1 (bit_and h.id hdr_id_mask)))

unfoldable pub unpack_header : ℕ → Header
unpack_header b = record {
  id = bit_and b hdr_id_mask;
  f1 = has_bit b hdr_flag_f1;
  f2 = has_bit b hdr_flag_f2;
  z = has_bit b hdr_flag_z;
}

unfoldable pub encode_header : Header → Encoder
encode_header h = append_byte (pack_header h)

unfoldable pub decode_header : Parser Header
decode_header = read_byte >>= λ b. pure (unpack_header b)
