-- ===== src/Session/Multicast/Parity.antt =====
-- multicast_peer.go beside reader.go: the multicast loops are kept as a parallel implementation of the
-- unicast ones.
use zenoh_go_client.Prelude.{
  ℕ, zero, suc, ◌≡◌, refl, sym, ap, ◌∙◌, Bool, true, not, ◌&&◌, [], ◌∷◌, length, Option, none, some,
  ltb, ◌==◌, bit_and, arith, ◌||◌, Bool-cases, ◌⊎◌, inl, inr,
}
use zenoh_go_client.Codec.Types.{Bytes, ok}
use zenoh_go_client.Codec.Header.{Header, hdr_id_mask, unpack_header}
use zenoh_go_client.Wire.Ids.{
  id_transport_frame, id_transport_fragment, id_transport_keep_alive, is_network_message_id,
}
use zenoh_go_client.Wire.Frame.{decode_frame, Fragment, decode_fragment, decode_keep_alive}
use zenoh_go_client.Codec.Shrinks.{Result-cases}
use zenoh_go_client.Wire.Zid.{ZenohId}
use zenoh_go_client.Session.Reader.{
  ReadError, Outcome, going, stopped, dispatch_one, dispatch_frame_messages, dispatch_frame_body,
  Reading, within, on_transport, on_fragment, after_push,
}
use zenoh_go_client.Transport.Reassembler.{
  Reassembler, Pushed, complete, pending, sn_gap, too_large,
}
use zenoh_go_client.Session.Multicast.Datagram.{
  MulticastInboundDispatch, frame_messages_loop, dispatch_multicast_frame_messages, frame_body_loop,
  dispatch_multicast_frame_body, MulticastConfig, MulticastState, Left, deliver, message_of,
  in_session, reassembler_of, peer_for_datagram, push_fragment, on_peer_frame, on_peer_fragment,
  on_datagram_message,
}
use zenoh_go_client.Session.Multicast.{MulticastPeerEntry, update, with_reasm}

module _ {S : Type 0} where
  -- What the multicast side keeps of an outcome: the state, and the unread bytes where there is no error.
  abbrev pub without_error : Outcome S → S × Option Bytes
  without_error (going s r) = (s, some r)
  without_error (stopped s e) = (s, none)

  abbrev pub state_after : Outcome S → S
  state_after (going s r) = s
  state_after (stopped s e) = s

  abbrev Ran : Outcome S → Type 0
  Ran o =
      ((s : S) × (r : Bytes) × (o ≡ going s r)) ⊎ ((s : S) × (e : ReadError) × (o ≡ stopped s e))

  Outcome-cases : (o : Outcome S) → Ran o
  Outcome-cases (going s r) = inl (s, r, refl)
  Outcome-cases (stopped s e) = inr (s, e, refl)

  frame_messages_loop-without_error :
      (d : MulticastInboundDispatch S) (zid : ZenohId) (fuel : ℕ) (r : Bytes) (s : S)
      → frame_messages_loop d zid fuel r s
        ≡ without_error (dispatch_frame_messages (d zid) fuel r s)
  unfolding frame_messages_loop dispatch_frame_messages dispatch_one
  frame_messages_loop-without_error d zid zero r s = refl
  frame_messages_loop-without_error d zid (suc fuel) [] s = refl
  frame_messages_loop-without_error d zid (suc fuel) (b ∷ r) s =
      elim (Bool-cases (not (is_network_message_id (bit_and b hdr_id_mask)))) [
        | inl e ↦ rw (e) refl
        | inr e ↦ elim (Outcome-cases (d zid (unpack_header b) r s)) [
          | inl (s', r', o) ↦
              let later = frame_messages_loop-without_error d zid fuel r' s' in
              elim (Bool-cases (ltb 0 (length r') && length r' == length r)) [
                | inl stuck ↦ rw (e, o, stuck) refl
                | inr moved ↦ rw (e, o, moved) later
              ]
          | inr (s', x, o) ↦ rw (e, o) refl
        ]
      ]

  frame_body_loop-state_after :
      (d : MulticastInboundDispatch S) (zid : ZenohId) (fuel : ℕ) (r : Bytes) (s : S)
      → frame_body_loop d zid fuel r s ≡ state_after (dispatch_frame_body (d zid) fuel r s)
  unfolding frame_body_loop dispatch_frame_body dispatch_one
  frame_body_loop-state_after d zid zero r s = refl
  frame_body_loop-state_after d zid (suc fuel) [] s = refl
  frame_body_loop-state_after d zid (suc fuel) (b ∷ r) s =
      elim (Outcome-cases (d zid (unpack_header b) r s)) [
        | inl (s', r', o) ↦
            let later = frame_body_loop-state_after d zid fuel r' s' in
            elim (Bool-cases (ltb 0 (length r') && length r' == length r)) [
              | inl stuck ↦ rw (o, stuck) refl
              | inr moved ↦ rw (o, moved) later
            ]
        | inr (s', x, o) ↦ rw (o) refl
      ]

  -- The multicast side after what the unicast reader did.
  abbrev pub lifted : MulticastState S → Outcome (Reading S) → MulticastState S × Option Bytes
  lifted st (going u r) = (record st { session = u.session }, some r)
  lifted st (stopped u e) = (record st { session = u.session }, none)

  lifted-within :
      (st : MulticastState S) (u : Reading S) (o : Outcome S)
      → lifted st (within u o) ≡ in_session st (without_error o)
  lifted-within st u (going s r) = refl
  lifted-within st u (stopped s e) = refl

  abbrev pub reading_after : Outcome (Reading S) → Reading S
  reading_after (going u r) = u
  reading_after (stopped u e) = u

  -- The multicast state that holds the session and the lanes of a unicast one.
  abbrev pub holding : MulticastState S → ℕ → Reading S → MulticastState S
  holding st p u = record st {
    session = u.session;
    table = update st.table p (with_reasm u.reassembler);
  }

  held : MulticastState S → ℕ → Reassembler → S → Left S
  held st p lanes s =
      (record st { session = s; table = update st.table p (with_reasm lanes) }, some [])

abbrev pub is_plain : Header → Bool
is_plain h = h.id == id_transport_frame || h.id == id_transport_keep_alive

plain_cases :
    (h : Header)
    → is_plain h ≡ true
    → ((h.id == id_transport_frame) ≡ true) ⊎ ((h.id == id_transport_keep_alive) ≡ true)
plain_cases h p = elim (Bool-cases (h.id == id_transport_frame)) [
  | inl e ↦ inl e
  | inr e ↦ inr (ground arith)
]

module _ {S : Type 0} (d : MulticastInboundDispatch S) (cfg : MulticastConfig) (now : ℕ)
    (src : Bytes) where
  -- The two sides before a message: the same session, and the lanes of the peer.
  pub record Alike (st : MulticastState S) (u : Reading S) : Type 0 where
    pub pointer : ℕ
    pub peer : MulticastPeerEntry
    pub known : peer_for_datagram st.table src ≡ some (pointer, peer)
    pub sessions : u.session ≡ st.session
    pub lanes : u.reassembler ≡ reassembler_of cfg peer

  at_session :
      {st : MulticastState S} {u : Reading S} (a : Alike st u) (rest : Bytes)
      → without_error (dispatch_frame_messages (d a.peer.zid) (length rest) rest st.session)
        ≡ without_error (dispatch_frame_messages (d a.peer.zid) (length rest) rest u.session)
  at_session a rest =
      ap (λ s. without_error (dispatch_frame_messages (d a.peer.zid) (length rest) rest s))
        (sym a.sessions)

  on_peer_frame-on_transport :
      (h : Header) (r : Bytes) (st : MulticastState S) (u : Reading S) (a : Alike st u)
      → (h.id == id_transport_frame) ≡ true
      → on_datagram_message (some d) cfg now src h r st
        ≡ lifted st (on_transport (d a.peer.zid) h r u)
  unfolding on_datagram_message on_transport on_peer_frame dispatch_multicast_frame_messages
  on_peer_frame-on_transport h r st u a is_frame =
      let id : h.id ≡ id_transport_frame = ground arith in
      elim (Result-cases (decode_frame h r)) [
        | inl (m, rest, e) ↦
            let loop =
              frame_messages_loop-without_error d a.peer.zid (length rest) rest st.session in
            rw (a.known, e, id)
              (ap (in_session st) (loop ∙ at_session a rest) ∙ sym (lifted-within st u _))
        | inr (x, e) ↦
            rw (a.known, e, id) (ap (λ s. (record st { session = s }, none)) (sym a.sessions))
      ]

  on_keep_alive-on_transport :
      (h : Header) (r : Bytes) (st : MulticastState S) (u : Reading S) (a : Alike st u)
      → (h.id == id_transport_keep_alive) ≡ true
      → on_datagram_message (some d) cfg now src h r st
        ≡ lifted st (on_transport (d a.peer.zid) h r u)
  unfolding on_datagram_message on_transport
  on_keep_alive-on_transport h r st u a is_keep =
      let id : h.id ≡ id_transport_keep_alive = ground arith in
      elim (Result-cases (decode_keep_alive h r)) [
        | inl (m, rest, e) ↦
            rw (e, id) (ap (λ s. (record st { session = s }, some rest)) (sym a.sessions))
        | inr (x, e) ↦ rw (e, id) (ap (λ s. (record st { session = s }, none)) (sym a.sessions))
      ]

  -- Where the multicast side and the unicast reader, with one dispatcher for the peer behind the
  -- source address, have the same session and the same lanes for that peer, a FRAME or a KEEP_ALIVE
  -- from it leaves both with the same session, and with the same bytes unread where the reader has
  -- no error; where it has one, the datagram is dropped.
  pub on_datagram_message-on_transport :
      (h : Header) (r : Bytes) (st : MulticastState S) (u : Reading S) (a : Alike st u)
      → is_plain h ≡ true
      → on_datagram_message (some d) cfg now src h r st
        ≡ lifted st (on_transport (d a.peer.zid) h r u)
  on_datagram_message-on_transport h r st u a plain = elim (plain_cases h plain) [
    | inl e ↦ on_peer_frame-on_transport h r st u a e
    | inr e ↦ on_keep_alive-on_transport h r st u a e
  ]

  deliver-after_push :
      (st : MulticastState S) (u : Reading S) (p : ℕ) (zid : ZenohId) (lanes : Reassembler)
      (pushed : Pushed)
      → u.session ≡ st.session
      → deliver
          (some d)
          zid
          (record st { table = update st.table p (with_reasm lanes) })
          (message_of pushed)
          []
        ≡ (
          holding st p
              (reading_after (after_push (d zid) (record u { reassembler = lanes }) [] pushed)),
          some [],
        )
  unfolding held dispatch_multicast_frame_body
  deliver-after_push st u p zid lanes (complete body) same =
      ap (held st p lanes) (
        frame_body_loop-state_after d zid (length body) body st.session
        ∙ ap (λ s. state_after (dispatch_frame_body (d zid) (length body) body s)) (sym same))
      ∙ elim (Outcome-cases (dispatch_frame_body (d zid) (length body) body u.session)) [
        | inl (s, r, o) ↦ rw (o) refl
        | inr (s, e, o) ↦ rw (o) refl
      ]
  deliver-after_push st u p zid lanes pending same = ap (held st p lanes) (sym same)
  deliver-after_push st u p zid lanes sn_gap same = ap (held st p lanes) (sym same)
  deliver-after_push st u p zid lanes too_large same = ap (held st p lanes) (sym same)

  -- Where the multicast side and the unicast reader, with one dispatcher for the peer behind the
  -- source address, have the same session and the same lanes for that peer, a FRAGMENT that decodes
  -- up to the end of the datagram leaves both with the same session and the same lanes.
  pub on_peer_fragment-on_transport :
      (h : Header) (r : Bytes) (m : Fragment) (st : MulticastState S) (u : Reading S)
      (a : Alike st u)
      → (h.id == id_transport_fragment) ≡ true
      → decode_fragment h r ≡ ok (m, [])
      → on_datagram_message (some d) cfg now src h r st
        ≡ (holding st a.pointer (reading_after (on_transport (d a.peer.zid) h r u)), some [])
  unfolding on_datagram_message on_transport on_peer_fragment on_fragment push_fragment
      dispatch_multicast_frame_body
  on_peer_fragment-on_transport h r m st u a is_frag decoded =
      let id : h.id ≡ id_transport_fragment = ground arith in
      rw (a.known, decoded, id, a.lanes)
        (deliver-after_push st u a.pointer a.peer.zid _ _ a.sessions)
