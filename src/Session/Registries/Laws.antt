-- ===== src/Session/Registries/Laws.antt =====
-- subscriber.go, queryable.go and get_collector.go: whom a message reaches, and what a request collects.
use zenoh_go_client.Prelude.{
  ℕ, ◌≤◌, ◌≡◌, refl, sym, ap, ◌∙◌, Bool, true, false, List, [], ◌∷◌, ◌++◌, append_assoc, append-nil,
  length, length-append, take, take_all, take-append, Option, none, some, ◌==◌, ltb, Bool-cases,
  inl, inr, arith,
}
use zenoh_go_client.Prelude.Maps.{
  lookup, put, delete, member, lookup-put, lookup-delete, IsMap, IsDistinct,
}
use zenoh_go_client.Codec.Types.{Bytes}
use zenoh_go_client.KeyExpr.{intersects}
use zenoh_go_client.Session.Registries.{
  Entities, reached, Channel, Collectors, register_get, offer, deliver_reply, finalise_get,
  deliver_replies,
}

abbrev pub meets : {A : Type 0} → Option (Bytes × A) → Bytes → Bool
meets none ke = false
meets (some (own, a)) ke = intersects own ke

not_reached :
    {A : Type 0} (reg : Entities A) (ke : Bytes) (id : ℕ)
    → lookup id reg ≡ none
    → member ◌==◌ id (reached reg ke) ≡ false
unfolding reached lookup member
not_reached [] ke id h = refl
not_reached ((i, (own, a)) ∷ reg) ke id h = elim (Bool-cases (id == i)) [
  | inl e ↦ absurd (ground arith)
  | inr e ↦
      let rest : member ◌==◌ id (reached reg ke) ≡ false = not_reached reg ke id (ground arith) in
      elim (Bool-cases (intersects own ke)) [ inl m ↦ rw (m, e) rest | inr m ↦ rw (m) rest ]
]

reached-member :
    {A : Type 0} (reg : Entities A) (ke : Bytes) (id : ℕ)
    → IsMap reg
    → member ◌==◌ id (reached reg ke) ≡ meets (lookup id reg) ke
unfolding reached lookup member
reached-member [] ke id v = refl
reached-member ((i, (own, a)) ∷ reg) ke id (new, v) =
    let rest = reached-member reg ke id v in
    elim (Bool-cases (id == i)) [
      | inl e ↦
          let same : i ≡ id = ground arith in
          let gone = not_reached reg ke id (ap (λ (k : ℕ). lookup k reg) (sym same) ∙ new) in
          elim (Bool-cases (intersects own ke)) [
            | inl m ↦ rw (m, e) (sym m)
            | inr m ↦ rw (m, e) (gone ∙ sym m)
          ]
      | inr e ↦ elim (Bool-cases (intersects own ke)) [
        | inl m ↦ rw (m, e) rest
        | inr m ↦ rw (m, e) rest
      ]
    ]

reached-IsDistinct :
    {A : Type 0} (reg : Entities A) (ke : Bytes) → IsMap reg → IsDistinct ◌==◌ (reached reg ke)
unfolding reached
reached-IsDistinct [] ke v = tt
reached-IsDistinct ((i, (own, a)) ∷ reg) ke (new, v) = elim (Bool-cases (intersects own ke)) [
  | inl m ↦ rw (m) (not_reached reg ke i new, reached-IsDistinct reg ke v)
  | inr m ↦ rw (m) (reached-IsDistinct reg ke v)
]

-- In a registry without a repeated ID, a message reaches an entity exactly where one is registered
-- under that ID with a key expression that intersects the message's, and reaches none twice.
pub reached_lem :
    {A : Type 0} (reg : Entities A) (ke : Bytes) (id : ℕ)
    → IsMap reg
    → (member ◌==◌ id (reached reg ke) ≡ meets (lookup id reg) ke)
      × IsDistinct ◌==◌ (reached reg ke)
reached_lem reg ke id v = (reached-member reg ke id v, reached-IsDistinct reg ke v)

take_full : {A : Type 0} (n : ℕ) (xs ys : List A) → length xs ≡ n → take n (xs ++ ys) ≡ xs
take_full n xs ys h = ap (λ (k : ℕ). take k (xs ++ ys)) (sym h) ∙ take-append xs ys

offer-take :
    {A : Type 0} (c : Channel A) (a : A) (rest : List A)
    → length c.buffer ≤ c.capacity
    → (take c.capacity ((offer c a).buffer ++ rest) ≡ take c.capacity (c.buffer ++ (a ∷ rest)))
      × (length (offer c a).buffer ≤ c.capacity)
      × ((offer c a).capacity ≡ c.capacity)
unfolding offer
offer-take c a rest h = elim (Bool-cases (ltb (length c.buffer) c.capacity)) [
  | inl e ↦ rw (e) (
    ap (take c.capacity) (append_assoc c.buffer (a ∷ []) rest),
    ground (arith, length-append c.buffer (a ∷ [])),
    refl,
  )
  | inr e ↦
      let full : length c.buffer ≡ c.capacity = ground arith in
      rw (e) (
        take_full c.capacity c.buffer rest full
            ∙ sym (take_full c.capacity c.buffer (a ∷ rest) full),
        h,
        refl,
      )
]

deliver_reply-found :
    {A : Type 0} (reg : Collectors A) (id : ℕ) (a : A) (c : Channel A)
    → lookup id reg.open_channels ≡ some c
    → deliver_reply reg id a ≡ record reg { open_channels = put id (offer c a) reg.open_channels }
unfolding deliver_reply
deliver_reply-found reg id a c found = rw (found) refl

same_id : (id : ℕ) → (id == id) ≡ true
same_id id = ground arith

deliver_replies-lookup :
    {A : Type 0} (reg : Collectors A) (id : ℕ) (rs : List A) (c : Channel A)
    → lookup id reg.open_channels ≡ some c
    → length c.buffer ≤ c.capacity
    → (lookup id (deliver_replies reg id rs).open_channels
        ≡ some (record { capacity = c.capacity; buffer = take c.capacity (c.buffer ++ rs) }))
      × ((deliver_replies reg id rs).closed_channels ≡ reg.closed_channels)
unfolding deliver_replies
deliver_replies-lookup reg id [] c found fits = (
  found
      ∙ ap (λ b. some (record { capacity = c.capacity; buffer = b }))
          (sym (ap (take c.capacity) (append-nil c.buffer) ∙ take_all c.capacity c.buffer fits)),
  refl,
)
deliver_replies-lookup reg id (a ∷ rs) c found fits =
    let step = deliver_reply-found reg id a c found in
    let (kept, fits', cap) = offer-take c a rs fits in
    let there =
      ap (λ r. lookup id r.open_channels) step
      ∙ lookup-put id id (offer c a) reg.open_channels
      ∙ rw (same_id id) refl in
    let rest =
      deliver_replies-lookup (deliver_reply reg id a) id rs (offer c a) there (omega arith) in
    (
      rest.0 ∙ rw (cap) (ap (λ b. some (record { capacity = c.capacity; buffer = b })) kept),
      rest.1 ∙ ap (λ r. r.closed_channels) step,
    )

finalise_get-found :
    {A : Type 0} (reg : Collectors A) (id : ℕ) (c : Channel A)
    → lookup id reg.open_channels ≡ some c
    → finalise_get reg id ≡ record {
      open_channels = delete id reg.open_channels;
      closed_channels = (id, c) ∷ reg.closed_channels;
    }
unfolding finalise_get
finalise_get-found reg id c found = rw (found) refl

unknown_stays :
    {A : Type 0} (reg : Collectors A) (id : ℕ) (late : A)
    → lookup id reg.open_channels ≡ none
    → (deliver_reply reg id late ≡ reg) × (finalise_get reg id ≡ reg)
unfolding deliver_reply finalise_get
unknown_stays reg id late unknown = rw (unknown) (refl, refl)

registered :
    {A : Type 0} (reg : Collectors A) (id size : ℕ)
    → 1 ≤ size
    → (lookup id (register_get reg id size).open_channels
        ≡ some (record { capacity = size; buffer = [] }))
      × ((register_get reg id size).closed_channels ≡ reg.closed_channels)
unfolding register_get
registered reg id size some_size =
    let sized : (size == 0) ≡ false = ground arith in
    (lookup-put id id _ reg.open_channels ∙ rw (same_id id, sized) refl, refl)

-- A request that is registered with some room, is sent any replies and is finalised leaves a closed
-- channel with the first replies, in order, as many as its buffer holds; what comes for it later is
-- dropped.
pub finalise_get-deliver_replies :
    {A : Type 0} (reg : Collectors A) (id size : ℕ) (rs : List A) (late : A)
    → 1 ≤ size
    → let final = finalise_get (deliver_replies (register_get reg id size) id rs) id in
      (final.closed_channels
        ≡ (id, record { capacity = size; buffer = take size rs }) ∷ reg.closed_channels)
      × (deliver_reply final id late ≡ final)
      × (finalise_get final id ≡ final)
finalise_get-deliver_replies {A = A} reg id size rs late some_size =
    let start = registered reg id size some_size in
    let reg' = deliver_replies (register_get reg id size) id rs in
    let rest =
      deliver_replies-lookup (register_get reg id size) id rs
        (record { capacity = size; buffer = [] }) start.0 (omega arith) in
    let c : Channel A = record { capacity = size; buffer = take size rs } in
    let found = finalise_get-found reg' id c rest.0 in
    let left : Collectors A = record {
      open_channels = delete id reg'.open_channels;
      closed_channels = (id, c) ∷ reg'.closed_channels;
    } in
    let gone = lookup-delete id id reg'.open_channels ∙ rw (same_id id) refl in
    (
      ap (λ r. r.closed_channels) found ∙ ap (λ cs. (id, c) ∷ cs) (rest.1 ∙ start.1),
      ap (λ r. deliver_reply r id late) found ∙ (unknown_stays left id late gone).0 ∙ sym found,
      ap (λ r. finalise_get r id) found ∙ (unknown_stays left id late gone).1 ∙ sym found,
    )
