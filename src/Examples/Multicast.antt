-- ===== src/Examples/Multicast.antt =====
-- internal/session/multicast_peer.go: runs, and each theorem at an input.
use zenoh_go_client.Prelude.{ℕ, ◌+◌, ◌≡◌, refl, true, false, [], ◌∷◌, some, bytes_eq, arith}
use zenoh_go_client.Prelude.Dict.{find, store, erase}
use zenoh_go_client.Prelude.Maps.{lookup, put}
use zenoh_go_client.Codec.Types.{Bytes, written, ok, ◌>>=◌, pure, optional}
use zenoh_go_client.Codec.Buffer.{read_byte, read_rest}
use zenoh_go_client.Codec.Vle.{decode_z64, decode_vle, decode_loop}
use zenoh_go_client.Codec.Header.{Header}
use zenoh_go_client.Wire.Ids.{id_transport_frame, id_transport_fragment}
use zenoh_go_client.Wire.Zid.{ZenohId}
use zenoh_go_client.Wire.Session.{Join}
use zenoh_go_client.Wire.Frame.{Fragment, decode_fragment}
use zenoh_go_client.Session.Reader.{going, Reading, on_transport}
use zenoh_go_client.Session.Multicast.{
  MulticastPeerEntry, MulticastPeerTable, new_multicast_peer_table, lookup_by_zid,
  lookup_by_src_addr, new_peer_entry, lease_ms_of, update, insert, int64_lt, expired, evict_one,
  evict_loop, evict_expired,
}
use zenoh_go_client.Session.Multicast.Datagram.{
  MulticastInboundDispatch, MulticastState, MulticastConfig, on_datagram_message, handle_datagram,
  peer_for_datagram, reassembler_of,
}
use zenoh_go_client.Session.Multicast.Joining.{encode_join_of}
use zenoh_go_client.Session.Multicast.Lookups.{IsTable}
use zenoh_go_client.Session.Multicast.Answers.{IsJoined, is_none, insert-IsJoined}
use zenoh_go_client.Session.Multicast.Evictions.{
  unless_over, evict_expired-lookup_by_zid, Reached, empty, joined, evicted, Reached-IsTable,
}
use zenoh_go_client.Session.Multicast.Announce.{IsAnnounced, IsHeld, handle_datagram-IsHeld}
use zenoh_go_client.Session.Multicast.Parity.{
  Alike, lifted, holding, reading_after, on_datagram_message-on_transport,
  on_peer_fragment-on_transport,
}
use zenoh_go_client.Examples.Network.{lanes, lanes-IsLaneSns}

abbrev zid : ZenohId
zid = record { bytes = 1 ∷ 2 ∷ 3 ∷ [] }

abbrev own_zid : ZenohId
own_zid = record { bytes = 9 ∷ [] }

abbrev config : ZenohId → MulticastConfig
config z = record {
  zid = z;
  what_am_i = 1;
  lease_millis = 10000;
  keep_alive_divisor = 4;
  resolution = 0x0a;
  batch_size = 8192;
  initial_sns = lanes;
  max_msg_sz = 1000;
  out_q_size = 8;
}

config-IsAnnounced : IsAnnounced (config zid)
config-IsAnnounced = record {
  who = record { zid_some = omega arith; zid_fits = omega arith; role_known = omega arith };
  size = record { batch_size_fits = omega arith; absent = λ h. cc };
  lease_fits = omega arith;
  lanes = lanes-IsLaneSns;
}

-- A dispatcher that adds up one byte of each message.
abbrev adding : MulticastInboundDispatch ℕ
adding z h [] s = going s []
adding z h (b ∷ r) s = going (s + b) r

abbrev nobody : MulticastState ℕ
nobody = record { session = 0; table = new_multicast_peer_table; announced = [] }

handle_datagram-IsHeld_example :
    (body : Bytes) × (encode_join_of (config zid) ≡ written body)
    × IsHeld
        (handle_datagram (some adding) (config own_zid) 50 (b'A' ∷ []) body nobody).table
        50
        (config zid)
        (b'A' ∷ [])
    × ((handle_datagram (some adding) (config own_zid) 50 (b'A' ∷ []) body nobody).session ≡ 0)
handle_datagram-IsHeld_example =
    handle_datagram-IsHeld (some adding) (config own_zid) (config zid) 50 (b'A' ∷ []) nobody
      config-IsAnnounced (Reached-IsTable new_multicast_peer_table empty) (unfold bytes_eq in refl)
      (unfold lookup_by_zid new_multicast_peer_table find in refl)

abbrev join : Join
join = record {
  lease_seconds = true;
  has_size_info = false;
  version = 9;
  zid = zid;
  what_am_i = 1;
  resolution = 0;
  batch_size = 0;
  lease = 10;
  next_sn_rel = 300;
  next_sn_be = 4;
  extensions = [];
}

abbrev one_peer : MulticastPeerTable
one_peer = (insert new_multicast_peer_table 50 join (b'A' ∷ [])).0

one_peer-Reached : Reached one_peer
one_peer-Reached = joined 50 join (b'A' ∷ []) empty

Reached-IsTable_example : IsTable (evict_expired one_peer 20000).0
Reached-IsTable_example =
    Reached-IsTable (evict_expired one_peer 20000).0 (evicted 20000 one_peer-Reached)

insert-IsJoined_example :
    IsJoined (insert one_peer 60 join (b'B' ∷ [])).0 60 join (b'B' ∷ [])
    × (lookup_by_zid (insert one_peer 60 join (b'B' ∷ [])).0 own_zid
        ≡ lookup_by_zid one_peer own_zid)
    × ((insert one_peer 60 join (b'B' ∷ [])).2 ≡ is_none (lookup_by_zid one_peer zid))
insert-IsJoined_example =
    insert-IsJoined one_peer 60 join (b'B' ∷ []) own_zid (Reached-IsTable one_peer one_peer-Reached)
      (unfold bytes_eq in refl)

evict_expired-lookup_by_zid_example :
    lookup_by_zid (evict_expired one_peer 20000).0 zid
    ≡ unless_over 20000 (lookup_by_zid one_peer zid)
evict_expired-lookup_by_zid_example =
    evict_expired-lookup_by_zid one_peer 20000 zid (Reached-IsTable one_peer one_peer-Reached)

-- A JOIN from another address leaves the old one in the table, and an eviction of the peer too.
moved_away :
    let t = (evict_expired (insert one_peer 60 join (b'B' ∷ [])).0 20000).0 in
    (is_none (lookup_by_zid t zid) ≡ true)
    × (is_none (lookup_by_src_addr t (b'B' ∷ [])) ≡ true)
    × (is_none (lookup_by_src_addr t (b'A' ∷ [])) ≡ false)
unfolding insert new_multicast_peer_table evict_expired evict_loop evict_one expired int64_lt update
    new_peer_entry lease_ms_of lookup_by_zid lookup_by_src_addr find store erase lookup put bytes_eq
moved_away = (refl, refl, refl)

abbrev someone : MulticastState ℕ
someone = record { session = 3; table = one_peer; announced = [] }

abbrev peer : MulticastPeerEntry
peer = new_peer_entry 50 join (b'A' ∷ [])

abbrev reading : Reading ℕ
reading = record { session = 3; reassembler = reassembler_of (config own_zid) peer; closed = [] }

abbrev alike : Alike adding (config own_zid) 70 (b'A' ∷ []) someone reading
alike = record {
  pointer = 0;
  peer = peer;
  known =
      unfold insert new_multicast_peer_table peer_for_datagram find store lookup put bytes_eq in
      refl;
  sessions = refl;
  lanes = refl;
}

abbrev header_of : ℕ → Header
header_of id = record { id = id; f1 = true; f2 = false; z = false }

-- A FRAME with the number 7 and two messages.
abbrev frame_bytes : Bytes
frame_bytes = 7 ∷ 0x1d ∷ 1 ∷ 0x1d ∷ 2 ∷ []

on_datagram_message-on_transport_example :
    on_datagram_message
      (some adding)
      (config own_zid)
      70
      (b'A' ∷ [])
      (header_of id_transport_frame)
      frame_bytes
      someone
    ≡ lifted someone (on_transport (adding zid) (header_of id_transport_frame) frame_bytes reading)
on_datagram_message-on_transport_example =
    on_datagram_message-on_transport adding (config own_zid) 70 (b'A' ∷ [])
      (header_of id_transport_frame) frame_bytes someone reading alike refl

-- A message in one FRAGMENT, with the number 7.
abbrev fragment_bytes : Bytes
fragment_bytes = 7 ∷ 0x1d ∷ 1 ∷ []

abbrev fragment : Fragment
fragment = record {
  reliable = true;
  more = false;
  seq_num = 7;
  extensions = [];
  body = 0x1d ∷ 1 ∷ [];
}

fragment-decodes :
    decode_fragment (header_of id_transport_fragment) fragment_bytes ≡ ok (fragment, [])
unfolding decode_fragment decode_z64 decode_vle decode_loop ◌>>=◌ read_byte pure optional read_rest
fragment-decodes = refl

on_peer_fragment-on_transport_example :
    on_datagram_message
      (some adding)
      (config own_zid)
      70
      (b'A' ∷ [])
      (header_of id_transport_fragment)
      fragment_bytes
      someone
    ≡ (
      holding someone 0 (
          reading_after
            (on_transport (adding zid) (header_of id_transport_fragment) fragment_bytes reading)),
      some [],
    )
on_peer_fragment-on_transport_example =
    on_peer_fragment-on_transport adding (config own_zid) 70 (b'A' ∷ [])
      (header_of id_transport_fragment) fragment_bytes fragment someone reading alike refl
      fragment-decodes
