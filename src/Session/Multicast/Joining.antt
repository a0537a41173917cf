-- ===== src/Session/Multicast/Joining.antt =====
-- multicast_peer.go: the configuration, the JOIN that it is advertised by, and the outbound queue.
use zenoh_go_client.Prelude.{
  ℕ, suc, ◌^◌, Bool, true, false, not, ◌&&◌, ◌||◌, List, [], ◌∷◌, ◌++◌, length, Option, none, some,
  get_elem?, ◌==◌, ltb, if◌then◌else◌,
}
use zenoh_go_client.Codec.Types.{Written}
use zenoh_go_client.Wire.Qos.{qos_priority_data}
use zenoh_go_client.Wire.Session.{Join, encode_join}
use zenoh_go_client.Wire.Session.LaneSns.{LaneSns, attach_lane_sns}
use zenoh_go_client.Session.Handshake.{proto_version}
use zenoh_go_client.Session.Multicast.Datagram.{MulticastConfig}

abbrev pub default_resolution : ℕ
default_resolution = 0x0a

abbrev pub multicast_batch_size : ℕ
multicast_batch_size = 8192

abbrev or_default : ℕ → ℕ → ℕ
or_default n d = if n == 0 then d else n

abbrev all_zero : List ℕ → Bool
all_zero [] = true
all_zero (n ∷ ns) = if n == 0 then all_zero ns else false

-- `StartMulticastPeer` up to the defaults; the numbers that stand for none are drawn by the caller. No
-- lease is an error.
unfoldable pub with_defaults : MulticastConfig → LaneSns → Option MulticastConfig
with_defaults cfg drawn =
    if cfg.lease_millis == 0
    then none
    else some (record cfg {
      keep_alive_divisor = or_default cfg.keep_alive_divisor 4;
      batch_size = or_default cfg.batch_size multicast_batch_size;
      resolution = or_default cfg.resolution default_resolution;
      initial_sns =
          if all_zero (cfg.initial_sns.reliable ++ cfg.initial_sns.best_effort)
          then drawn
          else cfg.initial_sns;
      max_msg_sz = or_default cfg.max_msg_sz (2 ^ 30);
      out_q_size = or_default cfg.out_q_size 1024;
    })

abbrev pub at : List ℕ → ℕ → ℕ
at ns i = or_zero (get_elem? ns i)
  where
    or_zero : Option ℕ → ℕ
    or_zero none = 0
    or_zero (some n) = n

-- The seeds of the batcher by priority and reliability.
unfoldable pub lane_seeds_from_sns : LaneSns → ℕ → Bool → ℕ
lane_seeds_from_sns sns p reliable = if reliable then at sns.reliable p else at sns.best_effort p

-- The JOIN without the numbers of the lanes.
unfoldable pub join_of : MulticastConfig → Join
join_of cfg = record {
  lease_seconds = false;
  has_size_info = true;
  version = proto_version;
  zid = cfg.zid;
  what_am_i = cfg.what_am_i;
  resolution = cfg.resolution;
  batch_size = cfg.batch_size;
  lease = cfg.lease_millis;
  next_sn_rel = at cfg.initial_sns.reliable qos_priority_data;
  next_sn_be = at cfg.initial_sns.best_effort qos_priority_data;
  extensions = [];
}

-- `encodeJoin`
unfoldable pub encode_join_of : MulticastConfig → Written
encode_join_of cfg = encode_join (attach_lane_sns (join_of cfg) cfg.initial_sns) []

-- The queue, its capacity and the number of refused items; a queue that is closed takes nothing.
pub record OutQueue (A : Type 0) : Type 0 where
  pub items : List A
  pub capacity : ℕ
  pub is_closed : Bool
  pub dropped : ℕ

-- `Enqueue`: where the queue is closed and has room, both branches of the `select` are ready, and either
-- may be taken.
unfoldable pub enqueue_item : {A : Type 0} → Bool → OutQueue A → A → OutQueue A × Bool
enqueue_item takes_closed q item =
    let has_room = ltb (length q.items) q.capacity in
    if q.is_closed && (takes_closed || not has_room)
    then (q, false)
    else if has_room
    then (record q { items = q.items ++ (item ∷ []) }, true)
    else (record q { dropped = suc q.dropped }, false)
