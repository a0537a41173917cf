-- ===== src/Codec/Ext.antt =====
-- internal/codec/ext.go: extension headers, bodies and chains.
pub mod HeaderByte
pub mod Chain
use zenoh_go_client.Prelude.{
  ℕ, zero, suc, ◌+◌, ◌*◌, ◌/◌, ◌%◌, ◌^◌, ◌<◌, Bool, true, false, not, List, [], ◌∷◌, ◌++◌, Option,
  none, some, length, bit_and, bit_or, ltb, ◌==◌, if◌then◌else◌,
}
use zenoh_go_client.Codec.Types.{
  Bytes, reserved_encoding, unexpected_eof, Parser, ◌>>=◌, pure, fail, Encoder, ◌>>◌, skip, refuse,
}
use zenoh_go_client.Codec.Buffer.{read_byte, append_byte}
use zenoh_go_client.Codec.Vle.{encode_z64, decode_z64}
use zenoh_go_client.Codec.Primitives.{encode_bytes_z32, decode_bytes_z32}
use zenoh_go_client.Codec.Header.{or_if, has_bit}

-- The values of `ExtEncoding`.
abbrev pub ext_enc_unit : ℕ
ext_enc_unit = 0

abbrev pub ext_enc_z64 : ℕ
ext_enc_z64 = 1

abbrev pub ext_enc_zbuf : ℕ
ext_enc_zbuf = 2

abbrev pub ext_enc_reserved : ℕ
ext_enc_reserved = 3

pub record ExtHeader : Type 0 where
  pub id : ℕ
  pub mandatory : Bool
  pub encoding : ℕ
  pub more : Bool

-- `byte(h.Encoding&0b11) << extEncShift` in a byte.
unfoldable pub pack_ext_header : ExtHeader → ℕ
pack_ext_header h =
    or_if h.more 0x80
      (bit_or (or_if h.mandatory 0x10 (bit_and h.id 0x0F)) (bit_and h.encoding 3 * 2 ^ 5 % 256))

unfoldable pub unpack_ext_header : ℕ → ExtHeader
unpack_ext_header b = record {
  id = bit_and b 0x0F;
  mandatory = has_bit b 0x10;
  encoding = bit_and b 0x60 / 2 ^ 5;
  more = has_bit b 0x80;
}

pub record Extension : Type 0 where
  pub header : ExtHeader
  pub z64 : ℕ
  pub zbuf : Bytes

unfoldable pub new_z64_ext : ℕ → Bool → ℕ → Extension
new_z64_ext id mandatory v = record {
  header = record { id = id; mandatory = mandatory; encoding = ext_enc_z64; more = false };
  z64 = v;
  zbuf = [];
}

unfoldable pub find_ext : List Extension → ℕ → Option Extension
find_ext [] id = none
find_ext (e ∷ exts) id = if e.header.id == id then some e else find_ext exts id

-- The switch has no default: an encoding above three writes a header and no body.
unfoldable pub encode_ext_body : Extension → Encoder
encode_ext_body e =
    if e.header.encoding == ext_enc_unit
    then skip
    else if e.header.encoding == ext_enc_z64
    then encode_z64 e.z64
    else if e.header.encoding == ext_enc_zbuf
    then encode_bytes_z32 e.zbuf
    else if e.header.encoding == ext_enc_reserved
    then refuse reserved_encoding
    else skip

unfoldable pub encode_extension : Extension → Encoder
encode_extension e = append_byte (pack_ext_header e.header) >> encode_ext_body e

unfoldable pub decode_ext_body : ExtHeader → Parser Extension
decode_ext_body h =
    if h.encoding == ext_enc_unit
    then pure (record { header = h; z64 = 0; zbuf = [] })
    else if h.encoding == ext_enc_z64
    then decode_z64 >>= (λ v. pure (record { header = h; z64 = v; zbuf = [] }))
    else if h.encoding == ext_enc_zbuf
    then decode_bytes_z32 >>= (λ b. pure (record { header = h; z64 = 0; zbuf = b }))
    else fail reserved_encoding

unfoldable pub decode_extension : Parser Extension
decode_extension = read_byte >>= λ b. decode_ext_body (unpack_ext_header b)

-- The loop of `DecodeExtensions` on fuel. An extension takes a byte at least (`Chain`), so with as
-- much fuel as there are bytes the last round starts with none left.
unfoldable pub decode_exts_loop : ℕ → List Extension → Parser (List Extension)
decode_exts_loop zero exts = fail unexpected_eof
decode_exts_loop (suc fuel) exts = do
  e ← decode_extension
  let exts' = exts ++ (e ∷ [])
  let rest = decode_exts_loop fuel exts'
  if e.header.more then rest else pure exts'

unfoldable pub decode_extensions : Parser (List Extension)
decode_extensions r = decode_exts_loop (length r) [] r

abbrev pub non_empty : List Extension → Bool
non_empty [] = false
non_empty (e ∷ exts) = true

abbrev pub with_more : Bool → Extension → Extension
with_more more e = record e { header = record (e.header) { more = more } }

-- What `EncodeExtensions` leaves in the slice that it is given: `More` on every element but the last.
unfoldable pub set_more : List Extension → List Extension
set_more [] = []
set_more (e ∷ exts) = with_more (non_empty exts) e ∷ set_more exts

unfoldable pub encode_extensions : List Extension → Encoder
encode_extensions [] = skip
encode_extensions (e ∷ exts) =
    encode_extension (with_more (non_empty exts) e) >> encode_extensions exts
