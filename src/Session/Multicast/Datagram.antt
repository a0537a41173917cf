-- ===== src/Session/Multicast/Datagram.antt =====
-- multicast_peer.go: a datagram taken apart into transport messages. The dispatcher is a parameter, `none`
-- where the configuration has none; `OnPeerJoin` is taken to be set, and the calls of it are kept in order.
use zenoh_go_client.Prelude.{
  ℕ, zero, suc, not, ◌&&◌, List, [], ◌∷◌, ◌++◌, length, Option, none, some, ◌==◌, ltb, bytes_eq,
  bit_and, if◌then◌else◌,
}
use zenoh_go_client.Prelude.Dict.{find}
use zenoh_go_client.Prelude.Maps.{lookup}
use zenoh_go_client.Codec.Types.{Bytes, Result, ok, err}
use zenoh_go_client.Codec.Header.{Header, hdr_id_mask, unpack_header}
use zenoh_go_client.Wire.Ids.{
  id_transport_join, id_transport_keep_alive, id_transport_frame, id_transport_fragment,
  is_network_message_id,
}
use zenoh_go_client.Wire.Zid.{ZenohId}
use zenoh_go_client.Wire.Resolution.{frame_sn, mask}
use zenoh_go_client.Wire.Session.{Join, decode_join}
use zenoh_go_client.Wire.Session.LaneSns.{LaneSns}
use zenoh_go_client.Wire.Frame.{decode_keep_alive, decode_frame, Fragment, decode_fragment}
use zenoh_go_client.Transport.Reassembler.{
  LaneKey, Reassembler, Pushed, complete, pending, sn_gap, too_large, lane_priority_from_exts, push,
  new_reassembler,
}
use zenoh_go_client.Session.Reader.{Outcome, going, stopped, InboundDispatch}
use zenoh_go_client.Session.Multicast.{
  MulticastPeerEntry, MulticastPeerTable, with_reasm, update, insert,
}

abbrev pub MulticastInboundDispatch : Type 0 → Type 0
MulticastInboundDispatch S = ZenohId → InboundDispatch S

-- The dispatcher's state, the table, and the peers that `OnPeerJoin` was called for.
pub record MulticastState (S : Type 0) : Type 0 where
  pub session : S
  pub table : MulticastPeerTable
  pub announced : List ℕ

pub record MulticastConfig : Type 0 where
  pub zid : ZenohId
  pub what_am_i : ℕ
  pub lease_millis : ℕ
  pub keep_alive_divisor : ℕ
  pub resolution : ℕ
  pub batch_size : ℕ
  pub initial_sns : LaneSns
  pub max_msg_sz : ℕ
  pub out_q_size : ℕ

-- The state after a message, and what is unread; none ends the datagram.
abbrev pub Left : Type 0 → Type 0
Left S = MulticastState S × Option Bytes

module _ {S : Type 0} where
  -- The loops return what is unread, or none where the rest of the datagram is dropped.
  abbrev after_dispatch : Bytes → Outcome S → (S → Bytes → S × Option Bytes) → S × Option Bytes
  after_dispatch r (stopped s e) k = (s, none)
  after_dispatch r (going s rest) k =
      if ltb 0 (length rest) && length rest == length r then (s, none) else k s rest

  unfoldable pub frame_messages_loop :
      MulticastInboundDispatch S → ZenohId → ℕ → Bytes → S → S × Option Bytes
  frame_messages_loop d zid zero r s = (s, some r)
  frame_messages_loop d zid (suc fuel) [] s = (s, some [])
  frame_messages_loop d zid (suc fuel) (b ∷ r) s =
      let rest =
        after_dispatch r (d zid (unpack_header b) r s)
          λ s' r'. frame_messages_loop d zid fuel r' s' in
      if not (is_network_message_id (bit_and b hdr_id_mask)) then (s, some (b ∷ r)) else rest

  abbrev in_body : Bytes → Outcome S → (S → Bytes → S) → S
  in_body r (stopped s e) k = s
  in_body r (going s rest) k =
      if ltb 0 (length rest) && length rest == length r then s else k s rest

  unfoldable pub frame_body_loop : MulticastInboundDispatch S → ZenohId → ℕ → Bytes → S → S
  frame_body_loop d zid zero r s = s
  frame_body_loop d zid (suc fuel) [] s = s
  frame_body_loop d zid (suc fuel) (b ∷ r) s =
      in_body r (d zid (unpack_header b) r s) λ s' r'. frame_body_loop d zid fuel r' s'

  unfoldable pub on_join : MulticastConfig → ℕ → Bytes → Join → Bytes → MulticastState S → Left S
  on_join cfg now src j r st =
      let (t, p, is_new) = insert st.table now j src in
      let added = record st {
        table = t;
        announced = if is_new then st.announced ++ (p ∷ []) else st.announced;
      } in
      if bytes_eq j.zid.bytes cfg.zid.bytes then (st, some r) else (added, some r)

  abbrev if_decoded :
      {A : Type 0} → Result (A × Bytes) → MulticastState S → (A → Bytes → Left S) → Left S
  if_decoded (ok (a, r)) st k = k a r
  if_decoded (err e) st k = (st, none)

  abbrev if_known :
      Option (ℕ × MulticastPeerEntry)
      → MulticastState S
      → (ℕ → MulticastPeerEntry → Left S)
      → Left S
  if_known none st k = (st, none)
  if_known (some (p, e)) st k = k p e

  abbrev pub in_session : MulticastState S → S × Option Bytes → Left S
  in_session st (s, left) = (record st { session = s }, left)

  abbrev proceed : Left S → (MulticastState S → Bytes → MulticastState S) → MulticastState S
  proceed (st, none) k = st
  proceed (st, some r) k = k st r

abbrev pub reassembler_of : MulticastConfig → MulticastPeerEntry → Reassembler
reassembler_of cfg e = or_new e.reasm
  where
    or_new : Option Reassembler → Reassembler
    or_new none = new_reassembler cfg.max_msg_sz (mask cfg.resolution frame_sn)
    or_new (some r) = r

abbrev pub message_of : Pushed → Option Bytes
message_of (complete body) = some body
message_of pending = none
message_of sn_gap = none
message_of too_large = none

-- The table with the peer's lanes after the fragment, and the message if it is complete.
unfoldable pub push_fragment :
    MulticastConfig
    → MulticastPeerTable
    → ℕ
    → MulticastPeerEntry
    → Fragment
    → MulticastPeerTable × Option Bytes
push_fragment cfg t p e frag =
    let lane : LaneKey = record {
      priority = lane_priority_from_exts frag.extensions;
      reliable = frag.reliable;
    } in
    let (lanes, pushed) = push (reassembler_of cfg e) lane frag.seq_num frag.more frag.body in
    (update t p (with_reasm lanes), message_of pushed)

-- The entry behind the datagram's source address.
unfoldable pub peer_for_datagram : MulticastPeerTable → Bytes → Option (ℕ × MulticastPeerEntry)
peer_for_datagram t src = at (find src t.by_src_addr)
  where
    entry_at : ℕ → Option MulticastPeerEntry → Option (ℕ × MulticastPeerEntry)
    entry_at p none = none
    entry_at p (some e) = some (p, e)

    at : Option ℕ → Option (ℕ × MulticastPeerEntry)
    at none = none
    at (some p) = entry_at p (lookup p t.entries)

module _ {S : Type 0} (dispatch : Option (MulticastInboundDispatch S)) where
  unfoldable pub dispatch_multicast_frame_messages : ZenohId → Bytes → S → S × Option Bytes
  dispatch_multicast_frame_messages zid r s = with_dispatch dispatch
    where
      with_dispatch : Option (MulticastInboundDispatch S) → S × Option Bytes
      with_dispatch none = (s, none)
      with_dispatch (some d) = frame_messages_loop d zid (length r) r s

  unfoldable pub dispatch_multicast_frame_body : ZenohId → Bytes → S → S
  dispatch_multicast_frame_body zid body s = with_dispatch dispatch
    where
      with_dispatch : Option (MulticastInboundDispatch S) → S
      with_dispatch none = s
      with_dispatch (some d) = frame_body_loop d zid (length body) body s

  -- The complete message, if there is one, is dispatched; a fragment takes the rest of the datagram.
  abbrev pub deliver : ZenohId → MulticastState S → Option Bytes → Bytes → Left S
  deliver zid st none r = (st, some r)
  deliver zid st (some body) r =
      (record st { session = dispatch_multicast_frame_body zid body st.session }, some r)

  unfoldable pub on_peer_frame : Bytes → Header → Bytes → MulticastState S → Left S
  on_peer_frame src h r st = if_known (peer_for_datagram st.table src) st λ p e.
      if_decoded (decode_frame h r) st
        λ m rest. in_session st (dispatch_multicast_frame_messages e.zid rest st.session)

  unfoldable pub on_peer_fragment :
      MulticastConfig → Bytes → Header → Bytes → MulticastState S → Left S
  on_peer_fragment cfg src h r st = if_known (peer_for_datagram st.table src) st λ p e.
      if_decoded (decode_fragment h r) st λ m rest.
        let (t, msg) = push_fragment cfg st.table p e m in
        deliver e.zid (record st { table = t }) msg rest

  -- One round of `handleDatagram` behind the header.
  unfoldable pub on_datagram_message :
      MulticastConfig → ℕ → Bytes → Header → Bytes → MulticastState S → Left S
  on_datagram_message cfg now src h r st =
      if h.id == id_transport_join
      then if_decoded (decode_join h r) st (λ j rest. on_join cfg now src j rest st)
      else if h.id == id_transport_keep_alive
      then if_decoded (decode_keep_alive h r) st (λ m rest. (st, some rest))
      else if h.id == id_transport_frame
      then on_peer_frame src h r st
      else if h.id == id_transport_fragment
      then on_peer_fragment cfg src h r st
      else (st, none)

  -- A message takes a byte at least, its header; the clock stands still during a datagram.
  unfoldable pub datagram_loop :
      MulticastConfig → ℕ → Bytes → ℕ → Bytes → MulticastState S → MulticastState S
  datagram_loop cfg now src zero r st = st
  datagram_loop cfg now src (suc fuel) [] st = st
  datagram_loop cfg now src (suc fuel) (b ∷ r) st =
      proceed (on_datagram_message cfg now src (unpack_header b) r st)
        λ st' r'. datagram_loop cfg now src fuel r' st'

  unfoldable pub handle_datagram :
      MulticastConfig → ℕ → Bytes → Bytes → MulticastState S → MulticastState S
  handle_datagram cfg now src body st = datagram_loop cfg now src (length body) body st
