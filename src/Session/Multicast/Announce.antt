-- ===== src/Session/Multicast/Announce.antt =====
-- multicast_peer.go: the JOIN of one peer, as a datagram, in the table of another.
use zenoh_go_client.Prelude.{
  ℕ, zero, suc, ◌+◌, ◌*◌, ◌^◌, ◌≤◌, ◌<◌, ◌≡◌, refl, sym, ap, subst, ◌∙◌, true, false, List, [], ◌∷◌,
  append-nil, length, All, Option, none, some, bytes_eq, arith,
}
use zenoh_go_client.Codec.Types.{Bytes, written, ok, unexpected_id, fail, skip, ◌>>◌, and_write}
use zenoh_go_client.Codec.Carries.{Carries}
use zenoh_go_client.Codec.Header.{unpack_header}
use zenoh_go_client.Codec.Vle.{size_z64}
use zenoh_go_client.Codec.Vle.Size.{size_z64-encode_z64}
use zenoh_go_client.Codec.Ext.{set_more}
use zenoh_go_client.Codec.Ext.HeaderByte.{IsExt}
use zenoh_go_client.Wire.Ids.{id_transport_join}
use zenoh_go_client.Wire.Fields.{bytes_of}
use zenoh_go_client.Wire.Frame.{after_header}
use zenoh_go_client.Wire.Starts.{starts, Checks}
use zenoh_go_client.Wire.Session.{Join, encode_join, decode_join}
use zenoh_go_client.Wire.Session.RoundTrip.{IsIdentity, IsSizeInfo, encode_join-Carries}
use zenoh_go_client.Wire.Session.LaneSns.{
  LaneSns, encode_lanes, attach_lane_sns, IsLaneSns, decode_lane_sns-attach_lane_sns,
}
use zenoh_go_client.Session.Multicast.{
  MulticastPeerEntry, MulticastPeerTable, lookup_by_zid, lookup_by_src_addr, new_peer_entry, insert,
  lease_ms_of, lanes_if_ok,
}
use zenoh_go_client.Session.Multicast.Lookups.{IsTable}
use zenoh_go_client.Session.Multicast.Answers.{insert-new}
use zenoh_go_client.Session.Multicast.Datagram.{
  MulticastInboundDispatch, MulticastState, MulticastConfig, on_join, on_datagram_message,
  datagram_loop, handle_datagram,
}
use zenoh_go_client.Session.Multicast.Joining.{join_of, encode_join_of, at}

-- What the wire can hold of a configuration.
pub record IsAnnounced (cfg : MulticastConfig) : Type 0 where
  pub who : IsIdentity cfg.zid cfg.what_am_i
  pub size : IsSizeInfo true cfg.resolution cfg.batch_size
  pub lease_fits : cfg.lease_millis < 2 ^ 64
  pub lanes : IsLaneSns cfg.initial_sns

size_z64-le : (v : ℕ) → size_z64 v ≤ 9
unfolding size_z64
size_z64-le v = ground arith

length-encode_lanes :
    (rels bes : List ℕ) (w : Bytes)
    → All (λ v. v < 2 ^ 64) rels
    → All (λ v. v < 2 ^ 64) bes
    → length (bytes_of (encode_lanes rels bes w)) ≤ length w + 18 * length rels
unfolding encode_lanes skip ◌>>◌ and_write
length-encode_lanes [] bes w vr vb = omega arith
length-encode_lanes (r ∷ rels) [] w vr vb = omega arith
length-encode_lanes (r ∷ rels) (b ∷ bes) w (fr, vr) (fb, vb) =
    let (w1, e1, l1) = size_z64-encode_z64 r w fr in
    let (w2, e2, l2) = size_z64-encode_z64 b w1 fb in
    let rest = length-encode_lanes rels bes w2 vr vb in
    rw (e1, e2) (omega (arith, rest, size_z64-le r, size_z64-le b))

decode_join-Checks : Checks id_transport_join decode_join
unfolding decode_join fail
decode_join-Checks h r differ = (unexpected_id h.id, rw (differ) refl)

-- The JOIN as it arrives.
abbrev pub arrived_join : MulticastConfig → Join
arrived_join cfg = attach_lane_sns (join_of cfg) cfg.initial_sns

attach_lane_sns-IsExt :
    (j : Join) (sns : LaneSns)
    → j.extensions ≡ []
    → IsLaneSns sns
    → All IsExt (attach_lane_sns j sns).extensions
unfolding attach_lane_sns
attach_lane_sns-IsExt j sns none_there v = rw (none_there) (
  record {
    id_fits = omega arith;
    encoding_known = omega arith;
    z64_fits = omega arith;
    z64_only = λ h. refl;
    zbuf_fits = omega (
      arith,
      length-encode_lanes sns.reliable sns.best_effort [] v.reliable_fit v.best_effort_fit,
      v.reliable_len,
    );
    zbuf_only = λ h. absurd (h refl);
  },
  tt,
)

All-at : (ns : List ℕ) (i : ℕ) → All (λ v. v < 2 ^ 64) ns → at ns i < 2 ^ 64
All-at [] i vs = omega arith
All-at (n ∷ ns) zero (v, vs) = v
All-at (n ∷ ns) (suc i) (v, vs) = All-at ns i vs

join-Carries :
    (cfg : MulticastConfig)
    → IsAnnounced cfg
    → Carries (encode_join (arrived_join cfg)) (after_header decode_join) (arrived_join cfg)
unfolding attach_lane_sns set_more join_of
join-Carries cfg v =
    encode_join-Carries (arrived_join cfg) v.who v.size v.lease_fits
      (All-at cfg.initial_sns.reliable 5 v.lanes.reliable_fit)
      (All-at cfg.initial_sns.best_effort 5 v.lanes.best_effort_fit)
      (attach_lane_sns-IsExt (join_of cfg) cfg.initial_sns refl v.lanes)

-- What another peer's table holds of an announced one.
pub record IsHeld (t : MulticastPeerTable) (now : ℕ) (cfg : MulticastConfig) (src : Bytes)
    : Type 0 where
  pub entry : MulticastPeerEntry
  pub by_zid : lookup_by_zid t cfg.zid ≡ some entry
  pub by_src : lookup_by_src_addr t src ≡ some entry
  pub lease : entry.lease_ms ≡ cfg.lease_millis
  pub lanes : entry.lane_sns ≡ some cfg.initial_sns
  pub own_resolution : entry.resolution ≡ cfg.resolution
  pub own_batch_size : entry.batch_size ≡ cfg.batch_size
  pub own_src : entry.src_addr ≡ src
  pub own_time : entry.last_seen ≡ now

insert-IsHeld :
    (t : MulticastPeerTable) (now : ℕ) (cfg : MulticastConfig) (src : Bytes)
    → IsLaneSns cfg.initial_sns
    → lookup_by_zid t cfg.zid ≡ none
    → IsTable t
    → IsHeld (insert t now (arrived_join cfg) src).0 now cfg src
unfolding new_peer_entry join_of lease_ms_of attach_lane_sns
insert-IsHeld t now cfg src v unknown ok_table =
    let (z, s) = insert-new t now (arrived_join cfg) src ok_table unknown in
    record {
      entry = new_peer_entry now (arrived_join cfg) src;
      by_zid = z;
      by_src = s;
      lease = refl;
      lanes = ap lanes_if_ok (decode_lane_sns-attach_lane_sns (join_of cfg) cfg.initial_sns tt v);
      own_resolution = refl;
      own_batch_size = refl;
      own_src = refl;
      own_time = refl;
    }

-- A datagram with a JOIN of another peer.
joined_datagram :
    {S : Type 0} (dispatch : Option (MulticastInboundDispatch S)) (own : MulticastConfig) (now : ℕ)
    (src : Bytes) (b : ℕ) (r : Bytes) (j : Join) (st : MulticastState S)
    → (unpack_header b).id ≡ id_transport_join
    → decode_join (unpack_header b) r ≡ ok (j, [])
    → bytes_eq j.zid.bytes own.zid.bytes ≡ false
    → ((handle_datagram dispatch own now src (b ∷ r) st).table ≡ (insert st.table now j src).0)
      × ((handle_datagram dispatch own now src (b ∷ r) st).session ≡ st.session)
unfolding handle_datagram datagram_loop on_datagram_message on_join
joined_datagram {S = S} dispatch own now src b r j st id decoded differ = (
  rw (decoded, id, differ) (nothing_left (length r) _).0,
  rw (decoded, id, differ) (nothing_left (length r) _).1,
)
  where
    nothing_left :
        (fuel : ℕ) (u : MulticastState S)
        → ((datagram_loop dispatch own now src fuel [] u).table ≡ u.table)
          × ((datagram_loop dispatch own now src fuel [] u).session ≡ u.session)
    nothing_left zero u = (refl, refl)
    nothing_left (suc fuel) u = (refl, refl)

-- `encodeJoin` of a configuration that the wire can hold gives a datagram; another peer that does
-- not know the sender and whose table is well-formed holds, after that datagram, an entry for it
-- under its identifier and under the source address, with the lease, the resolution, the batch size
-- and the initial sequence number of every lane that the sender has, and the session is as it was.
pub handle_datagram-IsHeld :
    {S : Type 0} (dispatch : Option (MulticastInboundDispatch S)) (own cfg : MulticastConfig)
    (now : ℕ) (src : Bytes) (st : MulticastState S)
    → IsAnnounced cfg
    → IsTable st.table
    → bytes_eq cfg.zid.bytes own.zid.bytes ≡ false
    → lookup_by_zid st.table cfg.zid ≡ none
    → (body : Bytes) × (encode_join_of cfg ≡ written body)
      × IsHeld (handle_datagram dispatch own now src body st).table now cfg src
      × ((handle_datagram dispatch own now src body st).session ≡ st.session)
unfolding encode_join_of handle_datagram
handle_datagram-IsHeld dispatch own cfg now src st v ok_table differ unknown =
    let c = join-Carries cfg v in
    let start = starts id_transport_join decode_join (arrived_join cfg) c decode_join-Checks in
    let at_head = ap (λ (x : Bytes). handle_datagram dispatch own now src x st) start.split in
    let id : (unpack_header start.head).id ≡ id_transport_join =
      unfold unpack_header in start.head_id in
    let (table, session) =
      joined_datagram dispatch own now src start.head start.tail (arrived_join cfg) st id
        (ap (decode_join (unpack_header start.head)) (sym (append-nil start.tail))
          ∙ start.decodes [])
        (unfold attach_lane_sns join_of in differ) in
    (
      c.bytes,
      c.writes [],
      subst (λ t. IsHeld t now cfg src) (sym (ap (λ x. x.table) at_head ∙ table))
          (insert-IsHeld st.table now cfg src v.lanes unknown ok_table),
      ap (λ x. x.session) at_head ∙ session,
    )
