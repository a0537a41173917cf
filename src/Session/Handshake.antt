-- ===== src/Session/Handshake.antt =====
-- internal/session/handshake.go, handshake_responder.go and initial_sn.go: the four messages that
-- open a transport. A side is the tree of what it sends and receives. The SHAKE128 digest and the
-- random cookie are parameters. A link that fails ends the side with its error; the tree has no
-- branch for that.
pub mod Sides
pub mod Messages
pub mod Agreement
use zenoh_go_client.Prelude.{
  ℕ, ◌-◌, ◌*◌, ◌%◌, ◌^◌, Bool, true, false, not, ◌&&◌, ◌||◌, List, [], ◌∷◌, ◌++◌, Option, none,
  some, ◌==◌, ltb, leb, bit_and, bytes_eq, if◌then◌else◌,
}
use zenoh_go_client.Codec.Types.{
  Bytes, Error, Result, ok, err, Parser, Written, written, failed, Encoder,
}
use zenoh_go_client.Codec.Header.{Header, decode_header}
use zenoh_go_client.Codec.Ext.{Extension, ext_enc_unit}
use zenoh_go_client.Wire.Ids.{id_transport_init, id_transport_open, id_transport_close}
use zenoh_go_client.Wire.Qos.{ext_id_qos}
use zenoh_go_client.Wire.Resolution.{frame_sn, request_id, code, bits, min_resolution}
use zenoh_go_client.Wire.Zid.{ZenohId, is_valid}
use zenoh_go_client.Wire.Session.{Init, encode_init, decode_init, Open, encode_open, decode_open}
use zenoh_go_client.Wire.Frame.{Close, encode_close, decode_close}

abbrev pub proto_version : ℕ
proto_version = 0x09

abbrev pub close_reason_invalid : ℕ
close_reason_invalid = 0x02

abbrev pub close_reason_connection_to_self : ℕ
close_reason_connection_to_self = 0x07

-- One constructor for each error that the source returns; `closed` is `CloseReasonErr`.
pub data HandshakeError : Type 0 where
  invalid_zid zero_batch_size zero_lease : HandshakeError
  codec_failed : Error → HandshakeError
  unexpected_message : ℕ → HandshakeError
  unexpected_direction : HandshakeError
  version_mismatch : ℕ → HandshakeError
  raised_resolution : HandshakeError
  cookie_mismatch : HandshakeError
  random_failed : HandshakeError
  closed : ℕ → HandshakeError

pub data Side (A : Type 0) : Type 0 where
  send : Bytes → Side A → Side A
  recv : (Bytes → Side A) → Side A
  done : A → Side A
  fail : HandshakeError → Side A

-- The initiator's and the responder's configuration.
pub record HandshakeConfig : Type 0 where
  pub zid : ZenohId
  pub what_am_i : ℕ
  pub batch_size : ℕ
  pub lease_millis : ℕ
  pub resolution : ℕ
  pub enable_qos : Bool

pub record AcceptConfig : Type 0 where
  pub zid : ZenohId
  pub what_am_i : ℕ
  pub batch_size : ℕ
  pub lease_millis : ℕ
  pub resolution : ℕ
  pub enable_qos : Bool

pub record HandshakeResult : Type 0 where
  pub peer_zid : ZenohId
  pub peer_what_am_i : ℕ
  pub negotiated_batch_size : ℕ
  pub negotiated_resolution : ℕ
  pub my_lease_millis : ℕ
  pub peer_lease_millis : ℕ
  pub my_initial_sn : ℕ
  pub peer_initial_sn : ℕ
  pub qos_enabled : Bool

-- The first eight bytes of the digest as a number, masked to the width.
unfoldable pub compute_initial_sn : (Bytes → ℕ) → Bytes → Bytes → ℕ → ℕ
compute_initial_sn shake my_zid peer_zid fsn_bits =
    let sn = shake (my_zid ++ peer_zid) in
    if leb 64 fsn_bits then sn else bit_and sn (2 ^ fsn_bits - 1)

abbrev is_qos_unit : Extension → Bool
is_qos_unit e = e.header.id == ext_id_qos && e.header.encoding == ext_enc_unit

unfoldable pub has_qos_ext : List Extension → Bool
has_qos_ext [] = false
has_qos_ext (e ∷ exts) = is_qos_unit e || has_qos_ext exts

abbrev pub qos_unit : Extension
qos_unit = record {
  header = record { id = ext_id_qos; mandatory = false; encoding = ext_enc_unit; more = false };
  z64 = 0;
  zbuf = [];
}

abbrev pub qos_exts : Bool → List Extension
qos_exts true = qos_unit ∷ []
qos_exts false = []

module _ {A : Type 0} where
  abbrev pub write_out : Written → Side A → Side A
  write_out (written b) k = send b k
  write_out (failed e b) k = fail (codec_failed e)

  -- `writeTransport`
  unfoldable pub write_transport : Encoder → Side A → Side A
  write_transport e k = write_out (e []) k

  -- `_ = sendClose(...)`: an error is dropped.
  abbrev close_out : Written → Side A → Side A
  close_out (written b) k = send b k
  close_out (failed e b) k = k

  unfoldable pub send_close : ℕ → Side A → Side A
  send_close reason k =
      close_out (encode_close (record { session = true; reason = reason; extensions = [] }) []) k

-- A message of the handshake, or the error that the batch is.
pub data Received (A : Type 0) : Type 0 where
  message : A → Received A
  refused : HandshakeError → Received A

abbrev close_error : {A : Type 0} → Result (Close × Bytes) → Received A
close_error (ok (m, rest)) = refused (closed m.reason)
close_error (err e) = refused (codec_failed e)

abbrev body_of : {A : Type 0} → Result (A × Bytes) → Received A
body_of (ok (m, rest)) = message m
body_of (err e) = refused (codec_failed e)

abbrev pub read_body : {A : Type 0} → ℕ → (Header → Parser A) → Result (Header × Bytes) → Received A
read_body want decode (err e) = refused (codec_failed e)
read_body want decode (ok (h, r)) =
    if h.id == id_transport_close
    then close_error (decode_close h r)
    else if not (h.id == want)
    then refused (unexpected_message h.id)
    else body_of (decode h r)

-- `readHandshakeAck` behind `ReadBatch`.
unfoldable pub read_handshake_ack : {A : Type 0} → ℕ → (Header → Parser A) → Bytes → Received A
read_handshake_ack want decode batch = read_body want decode (decode_header batch)

abbrev read_direction : {A : Type 0} → (A → Bool) → Received A → Received A
read_direction right (message m) = if right m then message m else refused unexpected_direction
read_direction right (refused e) = refused e

unfoldable pub read_init : Bool → Bytes → Received Init
read_init ack batch =
    read_direction (λ m. if ack then m.ack else not m.ack)
      (read_handshake_ack id_transport_init decode_init batch)

unfoldable pub read_open : Bool → Bytes → Received Open
read_open ack batch =
    read_direction (λ m. if ack then m.ack else not m.ack)
      (read_handshake_ack id_transport_open decode_open batch)

abbrev pub with_message : {A B : Type 0} → Received A → (A → Side B) → Side B
with_message (message m) k = k m
with_message (refused e) k = fail e

-- The lease of the peer in milliseconds, in a uint64.
abbrev pub lease_of : Open → ℕ
lease_of m = if m.lease_seconds then m.lease * 1000 % 2 ^ 64 else m.lease

-- `negBatch`: the lower of the two, where the peer names one.
unfoldable pub negotiated_batch : ℕ → Init → ℕ
negotiated_batch own m = if m.has_size_info && ltb m.batch_size own then m.batch_size else own

abbrev pub guarded : {A : Type 0} → ZenohId → ℕ → ℕ → Side A → Side A
guarded zid batch_size lease k =
    if not (is_valid zid)
    then fail invalid_zid
    else if batch_size == 0
    then fail zero_batch_size
    else if lease == 0
    then fail zero_lease
    else k
