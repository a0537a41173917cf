-- ===== src/Wire/Session.antt =====
-- internal/wire/init.go, open.go and join.go: the messages that open a transport. A decoder is given
-- the header that its caller has read.
pub mod RoundTrip
pub mod LaneSns
use zenoh_go_client.Prelude.{
  ℕ, ◌^◌, ◌≤◌, ◌<◌, ◌≡◌, sym, Bool, false, not, List, [], length, All, arith,
}
use zenoh_go_client.Codec.Types.{Bytes, Parser, ◌>>=◌, pure, Encoder, ◌>>◌, when, optional}
use zenoh_go_client.Codec.Carries.{Carries, Carries->>, Carries-last, Carries-optional}
use zenoh_go_client.Codec.Buffer.{read_byte, append_byte, append_u16_le, read_u16_le}
use zenoh_go_client.Codec.Vle.{encode_z64, decode_z64}
use zenoh_go_client.Codec.Vle.RoundTrip.{encode_z64-Carries}
use zenoh_go_client.Codec.Primitives.{encode_bytes_z16, decode_bytes_z16}
use zenoh_go_client.Codec.Primitives.Laws.{
  append_byte-Carries, append_u16_le-Carries, encode_bytes_z16-Carries,
}
use zenoh_go_client.Codec.Header.{Header, encode_header}
use zenoh_go_client.Codec.Header.Laws.{encode_header-Carries}
use zenoh_go_client.Codec.Ext.{Extension, encode_extensions, decode_extensions, set_more, non_empty}
use zenoh_go_client.Codec.Ext.HeaderByte.{IsExt}
use zenoh_go_client.Codec.Ext.Chain.{extensions-Carries}
use zenoh_go_client.Wire.Ids.{id_transport_init, id_transport_open, id_transport_join}
use zenoh_go_client.Wire.Frame.{expect_id, after_header}
use zenoh_go_client.Wire.Zid.{
  ZenohId, encode_packed_zid_byte, decode_packed_zid_byte, encode_zid_bytes, decode_zid_bytes,
  encode_packed_zid_byte-Carries, encode_zid_bytes-Carries,
}

-- The resolution byte and the batch size, which the `S` flag announces.
abbrev encode_size_info : ℕ → ℕ → Encoder
encode_size_info resolution batch_size = append_byte resolution >> append_u16_le batch_size

abbrev decode_size_info : Parser (ℕ × ℕ)
decode_size_info = do
  resolution ← read_byte
  batch_size ← read_u16_le
  pure (resolution, batch_size)

pub record Init : Type 0 where
  pub ack : Bool
  pub version : ℕ
  pub zid : ZenohId
  pub what_am_i : ℕ
  pub has_size_info : Bool
  pub resolution : ℕ
  pub batch_size : ℕ
  pub cookie : Bytes
  pub extensions : List Extension

unfoldable pub encode_init : Init → Encoder
encode_init m =
    let z = non_empty m.extensions in
    let zid_len = length m.zid.bytes in
    encode_header (record { id = id_transport_init; f1 = m.ack; f2 = m.has_size_info; z = z })
    >> (append_byte m.version
        >> (encode_packed_zid_byte zid_len m.what_am_i
            >> (encode_zid_bytes m.zid zid_len
                >> (when m.has_size_info (encode_size_info m.resolution m.batch_size)
                    >> (when m.ack (encode_bytes_z16 m.cookie)
                        >> when z (encode_extensions m.extensions))))))

unfoldable pub decode_init : Header → Parser Init
decode_init h = expect_id id_transport_init h do
  version ← read_byte
  packed ← decode_packed_zid_byte
  zid ← decode_zid_bytes packed.0
  size ← optional h.f2 (0, 0) decode_size_info
  cookie ← optional h.f1 [] decode_bytes_z16
  exts ← optional h.z [] decode_extensions
  pure (record {
    ack = h.f1;
    version = version;
    zid = zid;
    what_am_i = packed.1;
    has_size_info = h.f2;
    resolution = size.0;
    batch_size = size.1;
    cookie = cookie;
    extensions = exts;
  })

pub record Open : Type 0 where
  pub ack : Bool
  pub lease_seconds : Bool
  pub lease : ℕ
  pub initial_sn : ℕ
  pub cookie : Bytes
  pub extensions : List Extension

unfoldable pub encode_open : Open → Encoder
encode_open m =
    let z = non_empty m.extensions in
    encode_header (record { id = id_transport_open; f1 = m.ack; f2 = m.lease_seconds; z = z })
    >> (encode_z64 m.lease
        >> (encode_z64 m.initial_sn
            >> (when (not m.ack) (encode_bytes_z16 m.cookie)
                >> when z (encode_extensions m.extensions))))

unfoldable pub decode_open : Header → Parser Open
decode_open h = expect_id id_transport_open h do
  lease ← decode_z64
  initial_sn ← decode_z64
  cookie ← optional (not h.f1) [] decode_bytes_z16
  exts ← optional h.z [] decode_extensions
  pure (record {
    ack = h.f1;
    lease_seconds = h.f2;
    lease = lease;
    initial_sn = initial_sn;
    cookie = cookie;
    extensions = exts;
  })

pub record Join : Type 0 where
  pub lease_seconds : Bool
  pub has_size_info : Bool
  pub version : ℕ
  pub zid : ZenohId
  pub what_am_i : ℕ
  pub resolution : ℕ
  pub batch_size : ℕ
  pub lease : ℕ
  pub next_sn_rel : ℕ
  pub next_sn_be : ℕ
  pub extensions : List Extension

unfoldable pub encode_join : Join → Encoder
encode_join m =
    let z = non_empty m.extensions in
    let zid_len = length m.zid.bytes in
    encode_header
      (record { id = id_transport_join; f1 = m.lease_seconds; f2 = m.has_size_info; z = z })
    >> (append_byte m.version
        >> (encode_packed_zid_byte zid_len m.what_am_i
            >> (encode_zid_bytes m.zid zid_len
                >> (when m.has_size_info (encode_size_info m.resolution m.batch_size)
                    >> (encode_z64 m.lease
                        >> (encode_z64 m.next_sn_rel
                            >> (encode_z64 m.next_sn_be
                                >> when z (encode_extensions m.extensions))))))))

unfoldable pub decode_join : Header → Parser Join
decode_join h = expect_id id_transport_join h do
  version ← read_byte
  packed ← decode_packed_zid_byte
  zid ← decode_zid_bytes packed.0
  size ← optional h.f2 (0, 0) decode_size_info
  lease ← decode_z64
  next_sn_rel ← decode_z64
  next_sn_be ← decode_z64
  exts ← optional h.z [] decode_extensions
  pure (record {
    lease_seconds = h.f1;
    has_size_info = h.f2;
    version = version;
    zid = zid;
    what_am_i = packed.1;
    resolution = size.0;
    batch_size = size.1;
    lease = lease;
    next_sn_rel = next_sn_rel;
    next_sn_be = next_sn_be;
    extensions = exts;
  })
