-- ===== src/Session/Matching/Laws.antt =====
-- matching.go: what an entry delivers, and the set of declarations that it keeps.
use zenoh_go_client.Prelude.{
  ◌≡◌, ◌⊎◌, refl, sym, ap, ◌∙◌, Bool, true, false, not, ◌&&◌, ◌||◌, List, [], ◌∷◌, length,
  bytes_eq_refl, bytes_eq→eq, if◌then◌else◌, Bool-cases, inl, inr, arith,
}
use zenoh_go_client.Prelude.Maps.{
  member, remove, IsDistinct, IsTest, member-remove, IsDistinct-remove,
}
use zenoh_go_client.Codec.Types.{Bytes}
use zenoh_go_client.KeyExpr.{intersects}
use zenoh_go_client.Session.Matching.Entry.{
  MatchingKind, same_kind, DeclKey, same_decl, MatchingEntry, Delivery, status_of, deliver_all,
  announce, with_declarations, apply_entry,
}

same_decl_IsTest : IsTest same_decl
same_decl_IsTest = record {
  same = λ a. ground (arith, bytes_eq_refl a.peer);
  sound = λ a b h. equal a b h;
}
  where
    equal : (a b : DeclKey) → same_decl a b ≡ true → a ≡ b
    equal a b h =
        let p : a.peer ≡ b.peer = bytes_eq→eq a.peer b.peer (ground arith) in
        let i : a.entity_id ≡ b.entity_id = ground arith in rw (p, i) refl

-- The count is that of the set, whose elements are distinct.
pub record IsEntry (e : MatchingEntry) : Type 0 where
  pub counted : e.match_count ≡ length e.declarations
  pub distinct : IsDistinct same_decl e.declarations

abbrev pub differ : Bool → Bool → Bool
differ true b = not b
differ false b = b

-- What has to be delivered when an entry changes.
abbrev pub due : MatchingEntry → MatchingEntry → List Delivery
due e e' =
    if e.initial_done && differ (status_of e) (status_of e')
    then deliver_all e.listeners (status_of e')
    else []

announce-due :
    (e : MatchingEntry) (ds : List DeclKey)
    → announce e.match_count (with_declarations e ds)
      ≡ (with_declarations e ds, due e (with_declarations e ds))
announce-due e ds = ground arith

due_same : (e : MatchingEntry) → due e e ≡ []
due_same e = ground arith

if_lem {ℓ κ} :
    {A : Type ℓ} (P : A → Type κ) (b : Bool) {x y : A}
    → (b ≡ true → P x)
    → (b ≡ false → P y)
    → P (if b then x else y)
if_lem P true on off = on refl
if_lem P false on off = off refl

-- What holds of an entry that stays, and of one that announces its new set, holds of the result.
module _ {κ} (P : MatchingEntry × List Delivery → Type κ) (key : DeclKey) (e : MatchingEntry) where
  apply_entry-cases :
      (kind : MatchingKind) (remote : Bytes) (declare : Bool)
      → P (e, [])
      → (member same_decl key e.declarations ≡ false
          → P (announce e.match_count (with_declarations e (key ∷ e.declarations))))
      → P (announce e.match_count (with_declarations e (remove same_decl key e.declarations)))
      → P (apply_entry kind key remote declare e)
  unfolding apply_entry
  apply_entry-cases kind remote declare stays adds removes =
      if_lem P (not (same_kind e.kind kind)) (λ h. stays)
        λ h.
          if_lem P (declare && not (intersects e.key_expr remote)) (λ h. stays)
            λ h.
              if_lem P declare
                (λ h. if_lem P (member same_decl key e.declarations) (λ h. stays) adds)
                (λ h.
                  if_lem P (not (member same_decl key e.declarations)) (λ h. stays) (λ h. removes))

-- A remote declaration or its end makes each entry deliver exactly where its initial snapshot is
-- complete and its status changes: the new status, once to each listener.
pub apply_entry-due :
    (kind : MatchingKind) (key : DeclKey) (remote : Bytes) (declare : Bool) (e : MatchingEntry)
    → (apply_entry kind key remote declare e).1 ≡ due e (apply_entry kind key remote declare e).0
apply_entry-due kind key remote declare e =
    apply_entry-cases (λ x. x.1 ≡ due e x.0) key e kind remote declare (sym (due_same e))
      (λ new. rw (announce-due e (key ∷ e.declarations)) refl)
      (rw (announce-due e (remove same_decl key e.declarations)) refl)

-- The fields that no declaration changes.
pub record Keeps (e e' : MatchingEntry) : Type 0 where
  pub key_expr_same : e'.key_expr ≡ e.key_expr
  pub kind_same : e'.kind ≡ e.kind
  pub initial_done_same : e'.initial_done ≡ e.initial_done
  pub listeners_same : e'.listeners ≡ e.listeners

Keeps-refl : (e : MatchingEntry) → Keeps e e
Keeps-refl e = record {
  key_expr_same = refl;
  kind_same = refl;
  initial_done_same = refl;
  listeners_same = refl;
}

pub apply_entry-Keeps :
    (kind : MatchingKind) (key : DeclKey) (remote : Bytes) (declare : Bool) (e : MatchingEntry)
    → Keeps e (apply_entry kind key remote declare e).0
apply_entry-Keeps kind key remote declare e =
    apply_entry-cases (λ x. Keeps e x.0) key e kind remote declare (Keeps-refl e)
      (λ new. rw (announce-due e (key ∷ e.declarations)) (record {
        key_expr_same = refl;
        kind_same = refl;
        initial_done_same = refl;
        listeners_same = refl;
      }))
      (rw (announce-due e (remove same_decl key e.declarations)) (record {
        key_expr_same = refl;
        kind_same = refl;
        initial_done_same = refl;
        listeners_same = refl;
      }))

pub apply_entry-IsEntry :
    (kind : MatchingKind) (key : DeclKey) (remote : Bytes) (declare : Bool) (e : MatchingEntry)
    → IsEntry e
    → IsEntry (apply_entry kind key remote declare e).0
apply_entry-IsEntry kind key remote declare e v =
    apply_entry-cases (λ x. IsEntry x.0) key e kind remote declare v
      (λ new.
        rw (announce-due e (key ∷ e.declarations))
          (record { counted = refl; distinct = (new, v.distinct) }))
      (rw (announce-due e (remove same_decl key e.declarations)) (record {
        counted = refl;
        distinct = IsDistinct-remove same_decl same_decl_IsTest key e.declarations v.distinct;
      }))

-- The abstract set: whether a declaration counts after the operation.
abbrev pub spec_member : MatchingKind → DeclKey → Bytes → Bool → MatchingEntry → DeclKey → Bool
spec_member kind key remote declare e k =
    let before = member same_decl k e.declarations in
    if not (same_kind e.kind kind)
    then before
    else if declare
    then (intersects e.key_expr remote && same_decl k key) || before
    else not (same_decl key k) && before

member_cons :
    (k key : DeclKey) (ds : List DeclKey)
    → member same_decl k (key ∷ ds) ≡ (same_decl k key || member same_decl k ds)
unfolding member
member_cons k key ds = refl

-- A declaration that is there already adds nothing.
known_again :
    (k key : DeclKey) (ds : List DeclKey)
    → member same_decl key ds ≡ true
    → member same_decl k ds ≡ (same_decl k key || member same_decl k ds)
known_again k key ds known = elim (Bool-cases (same_decl k key)) [
  | inl e ↦
      let there : member same_decl k ds ≡ true =
        ap (λ x. member same_decl x ds) (same_decl_IsTest.sound k key e) ∙ known in
      rw (e, there) refl
  | inr e ↦ rw (e) refl
]

never_there :
    (k key : DeclKey) (ds : List DeclKey)
    → member same_decl key ds ≡ false
    → member same_decl k ds ≡ (not (same_decl key k) && member same_decl k ds)
never_there k key ds unknown = elim (Bool-cases (same_decl key k)) [
  | inl e ↦
      let gone : member same_decl k ds ≡ false =
        ap (λ x. member same_decl x ds) (sym (same_decl_IsTest.sound key k e)) ∙ unknown in
      rw (e, gone) refl
  | inr e ↦ rw (e) refl
]

-- An entry of the kind counts a declaration after it came in with a key that intersects the
-- entry's, and no more after its end, whatever its key is then; for every other declaration nothing
-- changes.
pub member-apply_entry :
    (kind : MatchingKind) (key : DeclKey) (remote : Bytes) (declare : Bool) (e : MatchingEntry)
    (k : DeclKey)
    → member same_decl k (apply_entry kind key remote declare e).0.declarations
      ≡ spec_member kind key remote declare e k
unfolding apply_entry
member-apply_entry kind key remote declare e k = elim (Bool-cases (same_kind e.kind kind)) [
  | inr other ↦ rw (other) refl
  | inl same ↦ member_go declare same
]
  where
    member_go :
        (declare : Bool)
        → same_kind e.kind kind ≡ true
        → member same_decl k (apply_entry kind key remote declare e).0.declarations
          ≡ spec_member kind key remote declare e k
    member_go true same = elim (Bool-cases (intersects e.key_expr remote)) [
      | inr apart ↦ rw (same, apart) refl
      | inl meet ↦ elim (Bool-cases (member same_decl key e.declarations)) [
        | inl known ↦ rw (same, meet, known) (known_again k key e.declarations known)
        | inr new ↦
            rw (same, meet, new)
              (ap (λ x. member same_decl k x.0.declarations) (announce-due e (key ∷ e.declarations))
                ∙ member_cons k key e.declarations)
      ]
    ]
    member_go false same = elim (Bool-cases (member same_decl key e.declarations)) [
      | inl known ↦
          rw (same, known)
            (ap (λ x. member same_decl k x.0.declarations)
                (announce-due e (remove same_decl key e.declarations))
              ∙ member-remove same_decl same_decl_IsTest k key e.declarations)
      | inr unknown ↦ rw (same, unknown) (never_there k key e.declarations unknown)
    ]

-- Where nothing is left to do, nothing is done.
settled :
    (kind : MatchingKind) (key : DeclKey) (remote : Bytes) (declare : Bool) (e : MatchingEntry)
    → (same_kind e.kind kind ≡ false)
      ⊎ (((declare && not (intersects e.key_expr remote)) ≡ true)
          ⊎ (member same_decl key e.declarations ≡ declare))
    → apply_entry kind key remote declare e ≡ (e, [])
unfolding apply_entry
settled kind key remote declare e (inl other) = rw (other) refl
settled kind key remote declare e (inr (inl apart)) = ground arith
settled kind key remote true e (inr (inr h)) = rw (h) (ground arith)
settled kind key remote false e (inr (inr h)) = rw (h) (ground arith)

-- A declaration that is repeated, or its end, changes nothing and delivers nothing.
pub apply_entry_idem :
    (kind : MatchingKind) (key : DeclKey) (remote : Bytes) (declare : Bool) (e : MatchingEntry)
    → apply_entry kind key remote declare (apply_entry kind key remote declare e).0
      ≡ ((apply_entry kind key remote declare e).0, [])
apply_entry_idem kind key remote declare e = settled kind key remote declare once reason
  where
    once : MatchingEntry
    once = (apply_entry kind key remote declare e).0

    k : Keeps e once
    k = apply_entry-Keeps kind key remote declare e

    there : member same_decl key once.declarations ≡ spec_member kind key remote declare e key
    there = member-apply_entry kind key remote declare e key

    reason :
        (same_kind once.kind kind ≡ false)
        ⊎ (((declare && not (intersects once.key_expr remote)) ≡ true)
            ⊎ (member same_decl key once.declarations ≡ declare))
    reason = elim (Bool-cases (same_kind e.kind kind)) [
      | inr other ↦ inl (ap (λ x. same_kind x kind) k.kind_same ∙ other)
      | inl same ↦ elim (Bool-cases (declare && not (intersects e.key_expr remote))) [
        | inl apart ↦
            inr (inl (ap (λ x. declare && not (intersects x remote)) k.key_expr_same ∙ apart))
        | inr meet ↦ inr (inr (there ∙ counted_now declare same meet))
      ]
    ]
      where
        counted_now :
            (d : Bool)
            → same_kind e.kind kind ≡ true
            → (d && not (intersects e.key_expr remote)) ≡ false
            → spec_member kind key remote d e key ≡ d
        counted_now true same meet = let own = same_decl_IsTest.same key in ground arith
        counted_now false same meet = let own = same_decl_IsTest.same key in ground arith
