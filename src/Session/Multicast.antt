-- ===== src/Session/Multicast.antt =====
-- internal/session/multicast_peer.go: the table of the peers on a multicast group. An entry is an object
-- that both maps point to, and it may outlive its place in either: a pointer is a number, and the objects
-- are a map by pointer. An address is the text of `src.String()`, times are milliseconds as 64-bit words.
-- The lock is the order of the calls.
pub mod Datagram
pub mod Joining
pub mod Lookups
pub mod Answers
pub mod Evictions
pub mod Announce
pub mod Parity
use zenoh_go_client.Prelude.{
  ℕ, suc, ◌+◌, ◌*◌, ◌%◌, ◌^◌, Bool, true, false, List, [], ◌∷◌, ◌++◌, Option, none, some, ltb,
  if◌then◌else◌,
}
use zenoh_go_client.Prelude.Maps.{lookup, put}
use zenoh_go_client.Prelude.Dict.{find, store, erase}
use zenoh_go_client.Codec.Types.{Bytes, Result, ok, err}
use zenoh_go_client.Wire.Zid.{ZenohId}
use zenoh_go_client.Wire.Session.{Join}
use zenoh_go_client.Wire.Session.LaneSns.{LaneSns, decode_lane_sns}
use zenoh_go_client.Transport.Reassembler.{Reassembler}

pub record MulticastPeerEntry : Type 0 where
  pub zid : ZenohId
  pub what_am_i : ℕ
  pub lease_ms : ℕ
  pub batch_size : ℕ
  pub resolution : ℕ
  pub lane_sns : Option LaneSns
  pub next_sn_rel : ℕ
  pub next_sn_be : ℕ
  pub src_addr : Bytes
  pub last_seen : ℕ
  pub reasm : Option Reassembler

-- The objects with the next free pointer, and the two maps to pointers.
pub record MulticastPeerTable : Type 0 where
  pub entries : List (ℕ × MulticastPeerEntry)
  pub next : ℕ
  pub by_zid : List (Bytes × ℕ)
  pub by_src_addr : List (Bytes × ℕ)

unfoldable pub new_multicast_peer_table : MulticastPeerTable
new_multicast_peer_table = record { entries = []; next = 0; by_zid = []; by_src_addr = [] }

abbrev pub deref : MulticastPeerTable → Option ℕ → Option MulticastPeerEntry
deref t none = none
deref t (some p) = lookup p t.entries

unfoldable pub lookup_by_zid : MulticastPeerTable → ZenohId → Option MulticastPeerEntry
lookup_by_zid t z = deref t (find z.bytes t.by_zid)

unfoldable pub lookup_by_src_addr : MulticastPeerTable → Bytes → Option MulticastPeerEntry
lookup_by_src_addr t addr = deref t (find addr t.by_src_addr)

-- `leaseMs *= 1000` on a uint64.
unfoldable pub lease_ms_of : Join → ℕ
lease_ms_of j = if j.lease_seconds then (j.lease * 1000) % 2 ^ 64 else j.lease

abbrev pub lanes_if_ok : Result (Option LaneSns) → Option LaneSns
lanes_if_ok (ok sns) = sns
lanes_if_ok (err e) = none

unfoldable pub new_peer_entry : ℕ → Join → Bytes → MulticastPeerEntry
new_peer_entry now j src = record {
  zid = record { bytes = j.zid.bytes };
  what_am_i = j.what_am_i;
  lease_ms = lease_ms_of j;
  batch_size = j.batch_size;
  resolution = j.resolution;
  lane_sns = lanes_if_ok (decode_lane_sns j.extensions);
  next_sn_rel = j.next_sn_rel;
  next_sn_be = j.next_sn_be;
  src_addr = src;
  last_seen = now;
  reasm = none;
}

abbrev pub seen : ℕ → Bytes → MulticastPeerEntry → MulticastPeerEntry
seen now src e = record e { last_seen = now; src_addr = src }

abbrev pub with_reasm : Reassembler → MulticastPeerEntry → MulticastPeerEntry
with_reasm r e = record e { reasm = some r }

-- A write through a pointer; a pointer to nothing cannot arise.
unfoldable pub update :
    MulticastPeerTable → ℕ → (MulticastPeerEntry → MulticastPeerEntry) → MulticastPeerTable
update t p f = written (lookup p t.entries)
  where
    written : Option MulticastPeerEntry → MulticastPeerTable
    written none = t
    written (some e) = record t { entries = put p (f e) t.entries }

abbrev pub add_entry : MulticastPeerTable → Bytes → Bytes → MulticastPeerEntry → MulticastPeerTable
add_entry t key src e = record {
  entries = put t.next e t.entries;
  next = suc t.next;
  by_zid = store key t.next t.by_zid;
  by_src_addr = store src t.next t.by_src_addr;
}

abbrev pub refresh : MulticastPeerTable → ℕ → Bytes → ℕ → MulticastPeerTable
refresh t now src p =
    let t' = update t p (seen now src) in record t' { by_src_addr = store src p t'.by_src_addr }

-- The table, the entry, and whether it is new.
unfoldable pub insert : MulticastPeerTable → ℕ → Join → Bytes → MulticastPeerTable × ℕ × Bool
insert t now j src = by_key (find j.zid.bytes t.by_zid)
  where
    by_key : Option ℕ → MulticastPeerTable × ℕ × Bool
    by_key none = (add_entry t j.zid.bytes src (new_peer_entry now j src), t.next, true)
    by_key (some p) = (refresh t now src p, p, false)

unfoldable pub snapshot : List (Bytes × ℕ) → List ℕ
snapshot [] = []
snapshot ((k, p) ∷ m) = p ∷ snapshot m

-- Signed comparison of 64-bit words in two's complement.
unfoldable pub int64_lt : ℕ → ℕ → Bool
int64_lt a b = ltb ((a + 2 ^ 63) % 2 ^ 64) ((b + 2 ^ 63) % 2 ^ 64)

unfoldable pub expired : ℕ → MulticastPeerEntry → Bool
expired cut e = int64_lt ((e.last_seen + e.lease_ms) % 2 ^ 64) cut

abbrev pub drop_peer : MulticastPeerTable → Bytes → Bytes → MulticastPeerTable
drop_peer t key addr = record t {
  by_zid = erase key t.by_zid;
  by_src_addr = erase addr t.by_src_addr;
}

-- One round of the loop.
unfoldable pub evict_one : ℕ → Bytes → ℕ → MulticastPeerTable → MulticastPeerTable × List ℕ
evict_one cut k p t = visited (lookup p t.entries)
  where
    visited : Option MulticastPeerEntry → MulticastPeerTable × List ℕ
    visited none = (t, [])
    visited (some e) = if expired cut e then (drop_peer t k e.src_addr, p ∷ []) else (t, [])

-- The loop over the elements of the map, each of which it visits once.
unfoldable pub evict_loop : ℕ → List (Bytes × ℕ) → MulticastPeerTable → MulticastPeerTable × List ℕ
evict_loop cut [] t = (t, [])
evict_loop cut ((k, p) ∷ m) t =
    let (t', gone) = evict_one cut k p t in
    let (t'', more) = evict_loop cut m t' in (t'', gone ++ more)

unfoldable pub evict_expired : MulticastPeerTable → ℕ → MulticastPeerTable × List ℕ
evict_expired t now = evict_loop now t.by_zid t
