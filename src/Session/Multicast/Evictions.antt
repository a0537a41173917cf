-- ===== src/Session/Multicast/Evictions.antt =====
-- multicast_peer.go: whom a lookup finds after an eviction, and the tables that the calls lead to.
use zenoh_go_client.Prelude.{
  ℕ, ◌≡◌, refl, ap, ◌∙◌, List, [], ◌∷◌, Option, none, some, bytes_eq, if◌then◌else◌, Bool-cases,
  Option-cases, inl, inr, bytes_eq→eq, arith,
}
use zenoh_go_client.Prelude.Maps.{lookup}
use zenoh_go_client.Prelude.Dict.{find, find-erase, IsDict}
use zenoh_go_client.Codec.Types.{Bytes}
use zenoh_go_client.Wire.Zid.{ZenohId}
use zenoh_go_client.Wire.Session.{Join}
use zenoh_go_client.Session.Multicast.{
  MulticastPeerEntry, MulticastPeerTable, lookup_by_zid, update, insert, expired, evict_one,
  evict_loop, evict_expired, new_multicast_peer_table, with_reasm,
}
use zenoh_go_client.Transport.Reassembler.{Reassembler}
use zenoh_go_client.Session.Multicast.Lookups.{
  IsTable, insert-IsTable, evict_expired-IsTable, update-IsTable,
}

evict_one-entries :
    (cut : ℕ) (k : Bytes) (p : ℕ) (t : MulticastPeerTable)
    → (evict_one cut k p t).0.entries ≡ t.entries
unfolding evict_one
evict_one-entries cut k p t = elim (Option-cases (lookup p t.entries)) [
  | inl e ↦ rw (e) refl
  | inr (x, e) ↦ elim (Bool-cases (expired cut x)) [
    | inl old ↦ rw (e, old) refl
    | inr young ↦ rw (e, young) refl
  ]
]

evict_loop-entries :
    (cut : ℕ) (m : List (Bytes × ℕ)) (t : MulticastPeerTable)
    → (evict_loop cut m t).0.entries ≡ t.entries
unfolding evict_loop
evict_loop-entries cut [] t = refl
evict_loop-entries cut ((k, p) ∷ m) t =
    evict_loop-entries cut m (evict_one cut k p t).0 ∙ evict_one-entries cut k p t

-- What is left of an answer when the peers that a lease has run out for are gone.
abbrev unless_expired : ℕ → Option MulticastPeerEntry → Option ℕ → Option ℕ
unless_expired cut none x = x
unless_expired cut (some e) x = if expired cut e then none else x

abbrev at_pointer : List (ℕ × MulticastPeerEntry) → Option ℕ → Option MulticastPeerEntry
at_pointer entries none = none
at_pointer entries (some p) = lookup p entries

evict_one-find :
    (cut : ℕ) (k : Bytes) (p : ℕ) (t : MulticastPeerTable) (z : Bytes)
    → find z (evict_one cut k p t).0.by_zid ≡ (
        if bytes_eq z k
        then unless_expired cut (lookup p t.entries) (find z t.by_zid)
        else find z t.by_zid)
unfolding evict_one
evict_one-find cut k p t z = elim (Option-cases (lookup p t.entries)) [
  | inl e ↦ rw (e) (ground arith)
  | inr (x, e) ↦ elim (Bool-cases (expired cut x)) [
    | inl old ↦ rw (e, old) (find-erase z k t.by_zid)
    | inr young ↦ rw (e, young) (ground arith)
  ]
]

evict_loop-find :
    (cut : ℕ) (m : List (Bytes × ℕ)) (t : MulticastPeerTable) (z : Bytes)
    → IsDict m
    → find z (evict_loop cut m t).0.by_zid
      ≡ unless_expired cut (at_pointer t.entries (find z m)) (find z t.by_zid)
unfolding evict_loop find
evict_loop-find cut [] t z v = refl
evict_loop-find cut ((k, p) ∷ m) t z (new, v) =
    let t' = (evict_one cut k p t).0 in
    let later = evict_loop-find cut m t' z v in
    let same_entries = evict_one-entries cut k p t in
    let one = evict_one-find cut k p t z in
    elim (Bool-cases (bytes_eq z k)) [
      | inl e ↦
          let gone : find z m ≡ none = ap (λ i. find i m) (bytes_eq→eq z k e) ∙ new in
          rw (later, gone, one, e) refl
      | inr e ↦ rw (later, one, same_entries, e) refl
    ]

abbrev pub unless_over : ℕ → Option MulticastPeerEntry → Option MulticastPeerEntry
unless_over now none = none
unless_over now (some e) = if expired now e then none else some e

-- On a well-formed table, after an eviction a lookup of an identifier gives the entry that it gave
-- before, unless the lease of that entry has run out; then it gives none.
pub evict_expired-lookup_by_zid :
    (t : MulticastPeerTable) (now : ℕ) (z : ZenohId)
    → IsTable t
    → lookup_by_zid (evict_expired t now).0 z ≡ unless_over now (lookup_by_zid t z)
unfolding lookup_by_zid evict_expired
evict_expired-lookup_by_zid t now z v =
    let t' = (evict_loop now t.by_zid t).0 in
    let left = evict_loop-find now t.by_zid t z.bytes v.zids in
    let objects = evict_loop-entries now t.by_zid t in
    elim (Option-cases (find z.bytes t.by_zid)) [
      | inl e ↦ rw (left, e) refl
      | inr (p, e) ↦
          let (x, found, mine) = v.zid_found z.bytes p e in
          elim (Bool-cases (expired now x)) [
            | inl old ↦ rw (left, e, found, old) refl
            | inr young ↦ rw (left, e, found, young) (rw (objects) found)
          ]
    ]

-- A table and what may happen to it: a JOIN, an eviction, and the state of a peer's fragments.
pub data Reached : MulticastPeerTable → Type 0 where
  empty : Reached new_multicast_peer_table
  joined :
      {t : MulticastPeerTable} (now : ℕ) (j : Join) (src : Bytes)
      → Reached t
      → Reached (insert t now j src).0
  evicted : {t : MulticastPeerTable} (now : ℕ) → Reached t → Reached (evict_expired t now).0
  pushed :
      {t : MulticastPeerTable} (p : ℕ) (r : Reassembler)
      → Reached t
      → Reached (update t p (with_reasm r))

new_multicast_peer_table-IsTable : IsTable new_multicast_peer_table
unfolding new_multicast_peer_table find lookup
new_multicast_peer_table-IsTable = record {
  zids = tt;
  zid_found = λ k p h. absurd (none≢some h);
  src_found = λ a p h. absurd (none≢some h);
  unused = λ p h. refl;
}
  where
    none≢some : {A : Type 0} {a : A} → none ≡ some a → ⊥
    none≢some h = cc

-- Whatever JOINs, evictions and fragments reach an empty table of peers: each identifier stands
-- once in it and leads to an entry of that identifier, each address leads to an entry, and no
-- pointer from the next one on is in use.
pub Reached-IsTable : (t : MulticastPeerTable) → Reached t → IsTable t
Reached-IsTable _ empty = new_multicast_peer_table-IsTable
Reached-IsTable _ (joined {t} now j src r) = insert-IsTable t now j src (Reached-IsTable t r)
Reached-IsTable _ (evicted {t} now r) = evict_expired-IsTable t now (Reached-IsTable t r)
Reached-IsTable _ (pushed {t} p x r) =
    update-IsTable t p (with_reasm x) (λ e. refl) (Reached-IsTable t r)
