-- ===== src/Session/Multicast/Answers.antt =====
-- multicast_peer.go: whom a lookup finds after a JOIN.
use zenoh_go_client.Prelude.{
  ℕ, ◌≡◌, refl, sym, ap, ◌∙◌, Bool, true, false, List, Option, none, some, ◌==◌, bytes_eq,
  Bool-cases, Option-cases, inl, inr, bytes_eq_refl, arith,
}
use zenoh_go_client.Prelude.Maps.{lookup, put, lookup-put}
use zenoh_go_client.Prelude.Dict.{find, store, find-store}
use zenoh_go_client.Codec.Types.{Bytes}
use zenoh_go_client.Wire.Zid.{ZenohId}
use zenoh_go_client.Wire.Session.{Join}
use zenoh_go_client.Session.Multicast.{
  MulticastPeerEntry, MulticastPeerTable, deref, lookup_by_zid, lookup_by_src_addr, new_peer_entry,
  seen, update, add_entry, refresh, insert,
}
use zenoh_go_client.Session.Multicast.Lookups.{IsTable, add_entry-old, same_entry}

-- What the table answers on a peer that has joined.
pub record IsJoined (t : MulticastPeerTable) (now : ℕ) (j : Join) (src : Bytes) : Type 0 where
  pub entry : MulticastPeerEntry
  pub by_zid : lookup_by_zid t j.zid ≡ some entry
  pub by_src : lookup_by_src_addr t src ≡ some entry
  pub own_zid : entry.zid.bytes ≡ j.zid.bytes
  pub own_src : entry.src_addr ≡ src
  pub own_time : entry.last_seen ≡ now

abbrev pub is_none : {A : Type 0} → Option A → Bool
is_none none = true
is_none (some a) = false

stored_find : (k : Bytes) (p : ℕ) (m : List (Bytes × ℕ)) → find k (store k p m) ≡ some p
stored_find k p m = find-store k k p m ∙ rw (bytes_eq_refl k) refl

add_entry-found :
    (t : MulticastPeerTable) (now : ℕ) (j : Join) (src : Bytes)
    → let t' = add_entry t j.zid.bytes src (new_peer_entry now j src) in
      (lookup_by_zid t' j.zid ≡ some (new_peer_entry now j src))
      × (lookup_by_src_addr t' src ≡ some (new_peer_entry now j src))
unfolding lookup_by_zid lookup_by_src_addr
add_entry-found t now j src = (
  rw (stored_find j.zid.bytes t.next t.by_zid) at_next,
  rw (stored_find src t.next t.by_src_addr) at_next,
)
  where
    at_next :
        lookup t.next (put t.next (new_peer_entry now j src) t.entries)
        ≡ some (new_peer_entry now j src)
    at_next =
        let same : (t.next == t.next) ≡ true = ground arith in
        lookup-put t.next t.next (new_peer_entry now j src) t.entries ∙ rw (same) refl

add_entry-IsJoined :
    (t : MulticastPeerTable) (now : ℕ) (j : Join) (src : Bytes)
    → IsJoined (add_entry t j.zid.bytes src (new_peer_entry now j src)) now j src
unfolding new_peer_entry
add_entry-IsJoined t now j src = record {
  entry = new_peer_entry now j src;
  by_zid = (add_entry-found t now j src).0;
  by_src = (add_entry-found t now j src).1;
  own_zid = refl;
  own_src = refl;
  own_time = refl;
}

refresh-IsJoined :
    (t : MulticastPeerTable) (now : ℕ) (j : Join) (src : Bytes) (p : ℕ)
    → IsTable t
    → find j.zid.bytes t.by_zid ≡ some p
    → IsJoined (refresh t now src p) now j src
unfolding lookup_by_zid lookup_by_src_addr update
refresh-IsJoined t now j src p v there =
    let (e, found, mine) = v.zid_found j.zid.bytes p there in
    let same : (p == p) ≡ true = ground arith in
    let here : lookup p (put p (seen now src e) t.entries) ≡ some (seen now src e) =
      lookup-put p p (seen now src e) t.entries ∙ rw (same) refl in
    record {
      entry = seen now src e;
      by_zid = rw (found, there) here;
      by_src = rw (found, stored_find src p t.by_src_addr) here;
      own_zid = mine;
      own_src = refl;
      own_time = refl;
    }

add_entry-other :
    (t : MulticastPeerTable) (key src : Bytes) (new : MulticastPeerEntry) (other : ZenohId)
    → IsTable t
    → bytes_eq other.bytes key ≡ false
    → lookup_by_zid (add_entry t key src new) other ≡ lookup_by_zid t other
unfolding lookup_by_zid
add_entry-other t key src new other v differ =
    ap (deref (add_entry t key src new)) stays ∙ elim (Option-cases (find other.bytes t.by_zid)) [
      | inl e ↦ rw (e) refl
      | inr (q, e) ↦
          let (x, found, mine) = v.zid_found other.bytes q e in
          rw (e) (add_entry-old t v key src new q x found ∙ sym found)
    ]
  where
    stays : find other.bytes (store key t.next t.by_zid) ≡ find other.bytes t.by_zid
    stays = find-store other.bytes key t.next t.by_zid ∙ rw (differ) refl

refresh-other :
    (t : MulticastPeerTable) (now : ℕ) (src key : Bytes) (p : ℕ) (other : ZenohId)
    → IsTable t
    → find key t.by_zid ≡ some p
    → bytes_eq other.bytes key ≡ false
    → lookup_by_zid (refresh t now src p) other ≡ lookup_by_zid t other
unfolding lookup_by_zid update
refresh-other t now src key p other v there differ =
    let (e, found, mine) = v.zid_found key p there in
    rw (found) (elim (Option-cases (find other.bytes t.by_zid)) [
      | inl none_there ↦ rw (none_there) refl
      | inr (q, e') ↦
          let (x, found', mine') = v.zid_found other.bytes q e' in
          elim (Bool-cases (q == p)) [
            | inl s ↦
                let same : q ≡ p = ground arith in
                let one : some x ≡ some e =
                  sym found' ∙ ap (λ (i : ℕ). lookup i t.entries) same ∙ found in
                let keys : other.bytes ≡ key =
                  sym mine'
                  ∙ ap (λ (y : MulticastPeerEntry). y.zid.bytes) (same_entry one)
                  ∙ mine in
                absurd (
                  true≢false
                    (sym (bytes_eq_refl key) ∙ ap (λ k. bytes_eq k key) (sym keys) ∙ differ))
            | inr s ↦ rw (e') (lookup-put q p (seen now src e) t.entries ∙ rw (s) refl)
          ]
    ])
  where
    true≢false : true ≡ false → ⊥
    true≢false h = cc

-- On a well-formed table, after a JOIN both lookups give one entry of its identifier, with its
-- source address and the time; the answer for every other identifier stays, and the JOIN counts as
-- new exactly when the identifier was not there.
pub insert-IsJoined :
    (t : MulticastPeerTable) (now : ℕ) (j : Join) (src : Bytes) (other : ZenohId)
    → IsTable t
    → bytes_eq other.bytes j.zid.bytes ≡ false
    → IsJoined (insert t now j src).0 now j src
      × (lookup_by_zid (insert t now j src).0 other ≡ lookup_by_zid t other)
      × ((insert t now j src).2 ≡ is_none (lookup_by_zid t j.zid))
unfolding insert lookup_by_zid
insert-IsJoined t now j src other v differ = elim (Option-cases (find j.zid.bytes t.by_zid)) [
  | inl e ↦ rw (e) (
    add_entry-IsJoined t now j src,
    add_entry-other t j.zid.bytes src (new_peer_entry now j src) other v differ,
    refl,
  )
  | inr (p, e) ↦ rw (e) (
    refresh-IsJoined t now j src p v e,
    refresh-other t now src j.zid.bytes p other v e differ,
    let (x, found, mine) = v.zid_found j.zid.bytes p e in rw (found) refl,
  )
]

-- A peer that is not known is entered with what its JOIN says.
pub insert-new :
    (t : MulticastPeerTable) (now : ℕ) (j : Join) (src : Bytes)
    → IsTable t
    → lookup_by_zid t j.zid ≡ none
    → (lookup_by_zid (insert t now j src).0 j.zid ≡ some (new_peer_entry now j src))
      × (lookup_by_src_addr (insert t now j src).0 src ≡ some (new_peer_entry now j src))
unfolding insert lookup_by_zid
insert-new t now j src v unknown = elim (Option-cases (find j.zid.bytes t.by_zid)) [
  | inl e ↦ rw (e) (add_entry-found t now j src)
  | inr (p, e) ↦
      let (x, found, mine) = v.zid_found j.zid.bytes p e in
      absurd (some≢none (sym found ∙ ap (deref t) (sym e) ∙ unknown))
]
  where
    some≢none : {x : MulticastPeerEntry} → some x ≡ none → ⊥
    some≢none h = cc
