-- ===== src/Session/Handshake/Sides.antt =====
-- handshake.go and handshake_responder.go: the two sides.
use zenoh_go_client.Prelude.{
  ℕ, zero, suc, Bool, true, false, not, ◌&&◌, ◌||◌, List, [], ◌∷◌, Option, none, some, ◌==◌, ltb,
  bytes_eq, if◌then◌else◌,
}
use zenoh_go_client.Codec.Types.{Bytes}
use zenoh_go_client.Wire.Resolution.{frame_sn, request_id, code, bits, min_resolution}
use zenoh_go_client.Wire.Session.{Init, encode_init, Open, encode_open}
use zenoh_go_client.Session.Handshake.{
  proto_version, close_reason_invalid, close_reason_connection_to_self, version_mismatch,
  raised_resolution, cookie_mismatch, random_failed, closed, Side, send, recv, done, fail,
  HandshakeConfig, AcceptConfig, HandshakeResult, compute_initial_sn, has_qos_ext, qos_exts,
  write_transport, send_close, read_init, read_open, with_message, lease_of, negotiated_batch,
  guarded,
}

unfoldable pub init_syn : HandshakeConfig → Init
init_syn cfg = record {
  ack = false;
  version = proto_version;
  zid = cfg.zid;
  what_am_i = cfg.what_am_i;
  has_size_info = true;
  resolution = cfg.resolution;
  batch_size = cfg.batch_size;
  cookie = [];
  extensions = qos_exts cfg.enable_qos;
}

-- The responder raised a field of the resolution.
unfoldable pub raises : ℕ → ℕ → Bool
raises own theirs =
    ltb (code own frame_sn) (code theirs frame_sn)
    || ltb (code own request_id) (code theirs request_id)

-- `InitialSN` is computed by the caller.
unfoldable pub open_syn : HandshakeConfig → Init → ℕ → Open
open_syn cfg ack sn = record {
  ack = false;
  lease_seconds = false;
  lease = cfg.lease_millis;
  initial_sn = sn;
  cookie = ack.cookie;
  extensions = qos_exts (cfg.enable_qos && has_qos_ext ack.extensions);
}

unfoldable pub initiator_result : HandshakeConfig → Init → Open → ℕ → ℕ → HandshakeResult
initiator_result cfg ack opened resolution sn = record {
  peer_zid = ack.zid;
  peer_what_am_i = ack.what_am_i;
  negotiated_batch_size = negotiated_batch cfg.batch_size ack;
  negotiated_resolution = resolution;
  my_lease_millis = cfg.lease_millis;
  peer_lease_millis = lease_of opened;
  my_initial_sn = sn;
  peer_initial_sn = opened.initial_sn;
  qos_enabled = cfg.enable_qos && has_qos_ext ack.extensions;
}

-- The responder's messages and its result, by what it negotiated.
unfoldable pub init_ack : AcceptConfig → Init → ℕ → Bytes → Init
init_ack cfg syn resolution cookie = record {
  ack = true;
  version = proto_version;
  zid = cfg.zid;
  what_am_i = cfg.what_am_i;
  has_size_info = true;
  resolution = resolution;
  batch_size = negotiated_batch cfg.batch_size syn;
  cookie = cookie;
  extensions = qos_exts (cfg.enable_qos && has_qos_ext syn.extensions);
}

unfoldable pub open_ack : AcceptConfig → Init → ℕ → Open
open_ack cfg syn sn = record {
  ack = true;
  lease_seconds = false;
  lease = cfg.lease_millis;
  initial_sn = sn;
  cookie = [];
  extensions = qos_exts (cfg.enable_qos && has_qos_ext syn.extensions);
}

unfoldable pub responder_result : AcceptConfig → Init → Open → ℕ → ℕ → HandshakeResult
responder_result cfg syn opened resolution sn = record {
  peer_zid = syn.zid;
  peer_what_am_i = syn.what_am_i;
  negotiated_batch_size = negotiated_batch cfg.batch_size syn;
  negotiated_resolution = resolution;
  my_lease_millis = cfg.lease_millis;
  peer_lease_millis = lease_of opened;
  my_initial_sn = sn;
  peer_initial_sn = opened.initial_sn;
  qos_enabled = cfg.enable_qos && has_qos_ext syn.extensions;
}

module _ (shake : Bytes → ℕ) where
  -- From the INIT ACK on.
  unfoldable pub on_init_ack : HandshakeConfig → Init → Side HandshakeResult
  on_init_ack cfg ack =
      let resolution = if ack.has_size_info then ack.resolution else cfg.resolution in
      let sn = compute_initial_sn shake cfg.zid.bytes ack.zid.bytes (bits resolution frame_sn) in
      if not (ack.version == proto_version)
      then fail (version_mismatch ack.version)
      else if bytes_eq ack.zid.bytes cfg.zid.bytes
      then send_close close_reason_connection_to_self
          (fail (closed close_reason_connection_to_self))
      else if ack.has_size_info && raises cfg.resolution ack.resolution
      then send_close close_reason_invalid (fail raised_resolution)
      else write_transport (encode_open (open_syn cfg ack sn)) (
          recv λ batch.
            with_message (read_open true batch)
              λ opened. done (initiator_result cfg ack opened resolution sn))

  unfoldable pub do_handshake : HandshakeConfig → Side HandshakeResult
  do_handshake cfg = guarded cfg.zid cfg.batch_size cfg.lease_millis (
      write_transport (encode_init (init_syn cfg))
        (recv λ batch. with_message (read_init true batch) λ ack. on_init_ack cfg ack))

  -- From the OPEN SYN on.
  unfoldable pub on_open_syn : AcceptConfig → Init → Bytes → ℕ → Open → Side HandshakeResult
  on_open_syn cfg syn cookie resolution opened =
      let sn = compute_initial_sn shake cfg.zid.bytes syn.zid.bytes (bits resolution frame_sn) in
      if not (bytes_eq opened.cookie cookie)
      then send_close close_reason_invalid (fail cookie_mismatch)
      else write_transport (encode_open (open_ack cfg syn sn))
          (done (responder_result cfg syn opened resolution sn))

  -- From the cookie on; the random source may fail.
  unfoldable pub issue_cookie : AcceptConfig → Init → Option Bytes → Side HandshakeResult
  issue_cookie cfg syn none = fail random_failed
  issue_cookie cfg syn (some cookie) =
      let resolution =
        if syn.has_size_info
        then min_resolution cfg.resolution syn.resolution
        else cfg.resolution in
      write_transport (encode_init (init_ack cfg syn resolution cookie)) (
        recv λ batch.
          with_message (read_open false batch)
            λ opened. on_open_syn cfg syn cookie resolution opened)

  unfoldable pub on_init_syn : AcceptConfig → Option Bytes → Init → Side HandshakeResult
  on_init_syn cfg random syn =
      if not (syn.version == proto_version)
      then send_close close_reason_invalid (fail (version_mismatch syn.version))
      else if bytes_eq syn.zid.bytes cfg.zid.bytes
      then send_close close_reason_connection_to_self
          (fail (closed close_reason_connection_to_self))
      else issue_cookie cfg syn random

  unfoldable pub do_handshake_responder : AcceptConfig → Option Bytes → Side HandshakeResult
  do_handshake_responder cfg random =
      guarded cfg.zid cfg.batch_size cfg.lease_millis
        (recv λ batch. with_message (read_init false batch) λ syn. on_init_syn cfg random syn)

-- A side that is given batches: what it sends, and what is left of it.
unfoldable pub feed : {A : Type 0} → Side A → List Bytes → List Bytes × Side A
feed (send b k) inbox = let (out, k') = feed k inbox in (b ∷ out, k')
feed (recv f) [] = ([], recv f)
feed (recv f) (b ∷ inbox) = feed (f b) inbox
feed (done a) inbox = ([], done a)
feed (fail e) inbox = ([], fail e)

-- Two sides over a link that loses nothing, in rounds: the first side runs as far as it can, then the
-- second.
unfoldable pub converse : {A B : Type 0} → ℕ → Side A → Side B → List Bytes → Side A × Side B
converse zero p q inbox = (p, q)
converse (suc n) p q inbox =
    let (out, p') = feed p inbox in let (back, q') = feed q out in converse n p' q' back
