-- ===== src/Session/Reader.antt =====
-- internal/session/reader.go: a batch taken apart into transport messages, and the body of a FRAME into
-- network messages. The dispatcher is a parameter: it is given the header and the unread bytes, and
-- leaves its own state and the bytes that it has not read, or refuses. The lane's reassembly error is
-- logged and ends the batch. The link, the clock and the goroutine around `processBatch` are left out.
pub mod Frames
use zenoh_go_client.Prelude.{
  ℕ, zero, suc, Bool, true, false, not, ◌&&◌, List, [], ◌∷◌, ◌++◌, length, Option, none, some, ◌==◌,
  ltb, bit_and, if◌then◌else◌,
}
use zenoh_go_client.Codec.Types.{Bytes, Error, Result, ok, err, Parser}
use zenoh_go_client.Codec.Header.{Header, hdr_id_mask, decode_header, unpack_header}
use zenoh_go_client.Wire.Ids.{
  id_transport_keep_alive, id_transport_close, id_transport_frame, id_transport_fragment,
  id_transport_oam, is_network_message_id,
}
use zenoh_go_client.Wire.Frame.{
  KeepAlive, decode_keep_alive, Close, decode_close, Frame, decode_frame, Fragment, decode_fragment,
}
use zenoh_go_client.Transport.Reassembler.{
  LaneKey, Reassembler, Pushed, complete, pending, sn_gap, too_large, lane_priority_from_exts, push,
}

pub data ReadError : Type 0 where
  malformed : Error → ReadError
  dispatch_failed : Error → ReadError
  not_consumed : ℕ → ReadError
  oam_unsupported : ℕ → ReadError
  unexpected_transport : ℕ → ReadError

-- The state and the unread bytes, or the state and the error.
pub data Outcome (S : Type 0) : Type 0 where
  going : S → Bytes → Outcome S
  stopped : S → ReadError → Outcome S

abbrev pub InboundDispatch : Type 0 → Type 0
InboundDispatch S = Header → Bytes → S → Outcome S

-- The dispatcher's state, the lanes, and the reasons given to `OnClose`, which is taken to be set.
pub record Reading (S : Type 0) : Type 0 where
  pub session : S
  pub reassembler : Reassembler
  pub closed : List ℕ

module _ {S : Type 0} where
  abbrev pub continue : Outcome S → (S → Bytes → Outcome S) → Outcome S
  continue (going s r) k = k s r
  continue (stopped s e) k = stopped s e

  -- An error leaves the state as it is.
  abbrev pub with_decoded :
      {A : Type 0} → Result (A × Bytes) → S → (A → Bytes → Outcome S) → Outcome S
  with_decoded (ok (a, r)) s k = k a r
  with_decoded (err e) s k = stopped s (malformed e)

  -- The session's part of the reader's state.
  abbrev pub within : Reading S → Outcome S → Outcome (Reading S)
  within st (going s r) = going (record st { session = s }) r
  within st (stopped s e) = stopped (record st { session = s }) e

module _ {S : Type 0} (dispatch : InboundDispatch S) where
  -- `cfg.Dispatch(h, r)` and the check that it consumed something.
  unfoldable pub dispatch_one : Header → Bytes → S → Outcome S
  dispatch_one h r s = continue (dispatch h r s) λ s' rest.
      if ltb 0 (length rest) && length rest == length r
      then stopped s' (not_consumed h.id)
      else going s' rest

  -- The two loops on fuel: a message takes a byte at least, its header.
  unfoldable pub dispatch_frame_messages : ℕ → Bytes → S → Outcome S
  dispatch_frame_messages zero r s = going s r
  dispatch_frame_messages (suc fuel) [] s = going s []
  dispatch_frame_messages (suc fuel) (b ∷ r) s =
      let rest =
        continue (dispatch_one (unpack_header b) r s) λ s' r'. dispatch_frame_messages fuel r' s' in
      if not (is_network_message_id (bit_and b hdr_id_mask)) then going s (b ∷ r) else rest

  unfoldable pub dispatch_frame_body : ℕ → Bytes → S → Outcome S
  dispatch_frame_body zero r s = going s r
  dispatch_frame_body (suc fuel) [] s = going s []
  dispatch_frame_body (suc fuel) (b ∷ r) s =
      continue (dispatch_one (unpack_header b) r s) λ s' r'. dispatch_frame_body fuel r' s'

  -- What follows a FRAGMENT: the body of a complete message, nothing, or the end of the batch.
  abbrev pub after_push : Reading S → Bytes → Pushed → Outcome (Reading S)
  after_push st r (complete body) =
      continue (within st (dispatch_frame_body (length body) body st.session))
        λ st' rest. going st' r
  after_push st r pending = going st r
  after_push st r sn_gap = going st []
  after_push st r too_large = going st []

  unfoldable pub on_fragment : Fragment → Bytes → Reading S → Outcome (Reading S)
  on_fragment frag r st =
      let lane : LaneKey = record {
        priority = lane_priority_from_exts frag.extensions;
        reliable = frag.reliable;
      } in
      let (lanes, pushed) = push st.reassembler lane frag.seq_num frag.more frag.body in
      after_push (record st { reassembler = lanes }) r pushed

  -- One round of `processBatch` behind the header; a CLOSE ends the batch.
  unfoldable pub on_transport : Header → Bytes → Reading S → Outcome (Reading S)
  on_transport h r st =
      if h.id == id_transport_keep_alive
      then with_decoded (decode_keep_alive h r) st (λ m rest. going st rest)
      else if h.id == id_transport_close
      then with_decoded (decode_close h r) st
          (λ m rest. going (record st { closed = st.closed ++ (m.reason ∷ []) }) [])
      else if h.id == id_transport_frame
      then with_decoded (decode_frame h r) st
          (λ m rest. within st (dispatch_frame_messages (length rest) rest st.session))
      else if h.id == id_transport_fragment
      then with_decoded (decode_fragment h r) st (λ m rest. on_fragment m rest st)
      else if h.id == id_transport_oam
      then stopped st (oam_unsupported h.id)
      else stopped st (unexpected_transport h.id)

  unfoldable pub process_loop : ℕ → Bytes → Reading S → Outcome (Reading S)
  process_loop zero r st = going st r
  process_loop (suc fuel) [] st = going st []
  process_loop (suc fuel) (b ∷ r) st =
      continue (on_transport (unpack_header b) r st) λ st' r'. process_loop fuel r' st'

  unfoldable pub process_batch : Bytes → Reading S → Outcome (Reading S)
  process_batch batch st = process_loop (length batch) batch st
