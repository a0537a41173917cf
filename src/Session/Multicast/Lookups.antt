-- ===== src/Session/Multicast/Lookups.antt =====
-- multicast_peer.go: what the table answers after JOINs and evictions.
use zenoh_go_client.Prelude.{
  ℕ, ◌≤◌, ◌<◌, ◌≡◌, refl, sym, ap, ◌∙◌, true, false, List, [], ◌∷◌, none, some, ◌==◌, ltb,
  Bool-cases, Option-cases, inl, inr, arith,
}
use zenoh_go_client.Prelude.Maps.{lookup, put, lookup-put}
use zenoh_go_client.Prelude.Dict.{
  find, store-cases, erase-found, IsDict, IsDict-store, IsDict-erase,
}
use zenoh_go_client.Codec.Types.{Bytes}
use zenoh_go_client.Wire.Session.{Join}
use zenoh_go_client.Session.Multicast.{
  MulticastPeerEntry, MulticastPeerTable, new_peer_entry, seen, update, add_entry, refresh, insert,
  expired, drop_peer, evict_one, evict_loop, evict_expired,
}

-- Every key of `by_zid` leads to the entry of that peer, every address to an entry, and the pointers
-- that are not given out lead nowhere.
pub record IsTable (t : MulticastPeerTable) : Type 0 where
  pub zids : IsDict t.by_zid
  pub zid_found :
      (k : Bytes) (p : ℕ)
      → find k t.by_zid ≡ some p
      → (e : MulticastPeerEntry) × (lookup p t.entries ≡ some e) × (e.zid.bytes ≡ k)
  pub src_found :
      (a : Bytes) (p : ℕ)
      → find a t.by_src_addr ≡ some p
      → (e : MulticastPeerEntry) × (lookup p t.entries ≡ some e)
  pub unused : (p : ℕ) → t.next ≤ p → lookup p t.entries ≡ none

some≢none : {A : Type 0} {a : A} → some a ≡ none → ⊥
some≢none h = cc

pub same_entry : {a b : MulticastPeerEntry} → some a ≡ some b → a ≡ b
same_entry h = cc

-- A pointer that leads somewhere is given out.
below :
    (t : MulticastPeerTable)
    → IsTable t
    → (p : ℕ) (e : MulticastPeerEntry) → lookup p t.entries ≡ some e
    → p < t.next
below t v p e found = elim (Bool-cases (ltb p t.next)) [
  | inl h ↦ ground arith
  | inr h ↦ absurd (some≢none (sym found ∙ v.unused p (ground arith)))
]

-- Through a pointer that was given out, an added entry changes nothing.
pub add_entry-old :
    (t : MulticastPeerTable)
    → IsTable t
    → (key src : Bytes) (new : MulticastPeerEntry) (p : ℕ) (e : MulticastPeerEntry)
    → lookup p t.entries ≡ some e
    → lookup p (add_entry t key src new).entries ≡ some e
add_entry-old t v key src new p e found =
    let differ : (p == t.next) ≡ false = ground (arith, below t v p e found) in
    lookup-put p t.next new t.entries ∙ rw (differ) found

add_entry-IsTable :
    (t : MulticastPeerTable) (key src : Bytes) (new : MulticastPeerEntry)
    → IsTable t
    → new.zid.bytes ≡ key
    → IsTable (add_entry t key src new)
add_entry-IsTable t key src new v own = record {
  zids = IsDict-store key t.next t.by_zid v.zids;
  zid_found = λ k p h. elim (store-cases k key t.next p t.by_zid h) [
    | inl (same, at) ↦ (new, at_next p at, own ∙ sym same)
    | inr old ↦
        let (e, found, mine) = v.zid_found k p old in
        (e, add_entry-old t v key src new p e found, mine)
  ];
  src_found = λ a p h. elim (store-cases a src t.next p t.by_src_addr h) [
    | inl (same, at) ↦ (new, at_next p at)
    | inr old ↦ let (e, found) = v.src_found a p old in (e, add_entry-old t v key src new p e found)
  ];
  unused = λ p h.
      let differ : (p == t.next) ≡ false = ground arith in
      lookup-put p t.next new t.entries ∙ rw (differ) (v.unused p (omega arith));
}
  where
    at_next : (p : ℕ) → t.next ≡ p → lookup p (put t.next new t.entries) ≡ some new
    at_next p at =
        let same : (p == t.next) ≡ true = ground arith in
        lookup-put p t.next new t.entries ∙ rw (same) refl

pub update-by_zid :
    (t : MulticastPeerTable) (p : ℕ) (f : MulticastPeerEntry → MulticastPeerEntry) (k : Bytes)
    → find k (update t p f).by_zid ≡ find k t.by_zid
unfolding update
update-by_zid t p f k = elim (Option-cases (lookup p t.entries)) [
  | inl e ↦ rw (e) refl
  | inr (old, e) ↦ rw (e) refl
]

-- A write that keeps the identifier keeps the table.
pub update-IsTable :
    (t : MulticastPeerTable) (p : ℕ) (f : MulticastPeerEntry → MulticastPeerEntry)
    → ((e : MulticastPeerEntry) → (f e).zid ≡ e.zid)
    → IsTable t
    → IsTable (update t p f)
unfolding update
update-IsTable t p f keeps v = elim (Option-cases (lookup p t.entries)) [
  | inl e ↦ rw (e) v
  | inr (old, e) ↦ rw (e) (record {
    zids = v.zids;
    zid_found = λ k q h.
        let (x, found, mine) = v.zid_found k q h in
        elim (Bool-cases (q == p)) [
          | inl s ↦
              let same : q ≡ p = ground arith in
              let here : some old ≡ some x =
                sym e ∙ ap (λ (i : ℕ). lookup i t.entries) (sym same) ∙ found in
              (
                f old,
                lookup-put q p (f old) t.entries ∙ rw (s) refl,
                ap (λ z. z.bytes) (keeps old)
                    ∙ ap (λ (y : MulticastPeerEntry). y.zid.bytes) (same_entry here)
                    ∙ mine,
              )
          | inr s ↦ (x, lookup-put q p (f old) t.entries ∙ rw (s) found, mine)
        ];
    src_found = λ a q h.
        let (x, found) = v.src_found a q h in
        elim (Bool-cases (q == p)) [
          | inl s ↦ (f old, lookup-put q p (f old) t.entries ∙ rw (s) refl)
          | inr s ↦ (x, lookup-put q p (f old) t.entries ∙ rw (s) found)
        ];
    unused = λ q h.
        let differ : (q == p) ≡ false = ground (arith, below t v p old e) in
        lookup-put q p (f old) t.entries ∙ rw (differ) (v.unused q h);
  })
]

refresh-IsTable :
    (t : MulticastPeerTable) (now : ℕ) (src key : Bytes) (p : ℕ)
    → IsTable t
    → find key t.by_zid ≡ some p
    → IsTable (refresh t now src p)
refresh-IsTable t now src key p v there =
    let u = update-IsTable t p (seen now src) (λ e. refl) v in
    record {
      zids = u.zids;
      zid_found = u.zid_found;
      src_found = λ a q h. elim (store-cases a src p q (update t p (seen now src)).by_src_addr h) [
        | inl (same, at) ↦
            let (e, found, mine) =
              u.zid_found key p (update-by_zid t p (seen now src) key ∙ there) in
            (e, ap (λ (i : ℕ). lookup i (update t p (seen now src)).entries) (sym at) ∙ found)
        | inr old ↦ u.src_found a q old
      ];
      unused = u.unused;
    }

pub insert-IsTable :
    (t : MulticastPeerTable) (now : ℕ) (j : Join) (src : Bytes)
    → IsTable t
    → IsTable (insert t now j src).0
unfolding insert new_peer_entry
insert-IsTable t now j src v = elim (Option-cases (find j.zid.bytes t.by_zid)) [
  | inl e ↦ rw (e) (add_entry-IsTable t j.zid.bytes src (new_peer_entry now j src) v refl)
  | inr (p, e) ↦ rw (e) (refresh-IsTable t now src j.zid.bytes p v e)
]

drop_peer-IsTable :
    (t : MulticastPeerTable) (key addr : Bytes) → IsTable t → IsTable (drop_peer t key addr)
drop_peer-IsTable t key addr v = record {
  zids = IsDict-erase key t.by_zid v.zids;
  zid_found = λ k p h. v.zid_found k p (erase-found k key p t.by_zid h);
  src_found = λ a p h. v.src_found a p (erase-found a addr p t.by_src_addr h);
  unused = v.unused;
}

evict_one-IsTable :
    (cut : ℕ) (k : Bytes) (p : ℕ) (t : MulticastPeerTable)
    → IsTable t
    → IsTable (evict_one cut k p t).0
unfolding evict_one
evict_one-IsTable cut k p t v = elim (Option-cases (lookup p t.entries)) [
  | inl e ↦ rw (e) v
  | inr (x, e) ↦ elim (Bool-cases (expired cut x)) [
    | inl old ↦ rw (e, old) (drop_peer-IsTable t k x.src_addr v)
    | inr young ↦ rw (e, young) v
  ]
]

evict_loop-IsTable :
    (cut : ℕ) (m : List (Bytes × ℕ)) (t : MulticastPeerTable)
    → IsTable t
    → IsTable (evict_loop cut m t).0
unfolding evict_loop
evict_loop-IsTable cut [] t v = v
evict_loop-IsTable cut ((k, p) ∷ m) t v =
    evict_loop-IsTable cut m (evict_one cut k p t).0 (evict_one-IsTable cut k p t v)

pub evict_expired-IsTable :
    (t : MulticastPeerTable) (now : ℕ) → IsTable t → IsTable (evict_expired t now).0
unfolding evict_expired
evict_expired-IsTable t now v = evict_loop-IsTable now t.by_zid t v
