-- ===== src/Session/Matching.antt =====
-- internal/session/matching.go: which remote subscribers or queryables match a local key, and what the
-- listeners are told. The mutex is the order of the calls. A listener's callback may not call back, so
-- a call is an element of the list of deliveries that the operation returns.
pub mod Entry
pub mod Laws
pub mod View
use zenoh_go_client.Prelude.{
  ℕ, ◌+◌, Bool, true, false, not, ◌&&◌, ◌||◌, List, [], ◌∷◌, ◌++◌, Option, none, some, ◌==◌,
  if◌then◌else◌,
}
use zenoh_go_client.Prelude.Maps.{lookup, put, delete}
use zenoh_go_client.Codec.Types.{Bytes}
use zenoh_go_client.Wire.Zid.{ZenohId}
use zenoh_go_client.Session.Matching.Entry.{
  MatchingKind, DeclKey, MatchingEntry, Delivery, apply_entry, attach_entry, detach_entry,
  snapshot_entry, reset_entry, status_of, same_kind, new_entry, hooks_of,
}

-- `byID`: the entries by interest ID.
abbrev pub MatchingRegistry : Type 0
MatchingRegistry = List (ℕ × MatchingEntry)

abbrev pub Deliveries : Type 0
Deliveries = List (ℕ × Delivery)

unfoldable pub register_matching : MatchingRegistry → ℕ → Bytes → MatchingKind → MatchingRegistry
register_matching reg id ke kind = put id (new_entry ke kind) reg

-- With the listeners whose hook runs.
unfoldable pub unregister_matching : MatchingRegistry → ℕ → MatchingRegistry × List ℕ
unregister_matching reg id = dropped (lookup id reg)
  where
    dropped : Option MatchingEntry → MatchingRegistry × List ℕ
    dropped none = (reg, [])
    dropped (some e) = (delete id reg, hooks_of e.listeners)

abbrev labelled : ℕ → List Delivery → Deliveries
labelled id [] = []
labelled id (d ∷ ds) = (id, d) ∷ labelled id ds

-- The zero ID and no success where the interest is unknown.
unfoldable pub attach_matching_listener :
    MatchingRegistry → ℕ → Bool → MatchingRegistry × (ℕ × Bool) × Deliveries
attach_matching_listener reg interest hook = attached (lookup interest reg)
  where
    attached : Option MatchingEntry → MatchingRegistry × (ℕ × Bool) × Deliveries
    attached none = (reg, (0, false), [])
    attached (some e) =
        let (e', id, now) = attach_entry hook e in
        (put interest e' reg, (id, true), labelled interest now)

unfoldable pub detach_matching_listener : MatchingRegistry → ℕ → ℕ → MatchingRegistry
detach_matching_listener reg interest id = detached (lookup interest reg)
  where
    detached : Option MatchingEntry → MatchingRegistry
    detached none = reg
    detached (some e) = put interest (detach_entry id e) reg

unfoldable pub get_matching_status : MatchingRegistry → ℕ → Bool × Bool
get_matching_status reg interest = found (lookup interest reg)
  where
    found : Option MatchingEntry → Bool × Bool
    found none = (false, false)
    found (some e) = (status_of e, true)

-- The loop over the entries.
unfoldable pub apply_matching_delta :
    MatchingRegistry → MatchingKind → DeclKey → Bytes → Bool → MatchingRegistry × Deliveries
apply_matching_delta [] kind key remote declare = ([], [])
apply_matching_delta ((id, e) ∷ reg) kind key remote declare =
    let (e', now) = apply_entry kind key remote declare e in
    let (reg', later) = apply_matching_delta reg kind key remote declare in
    ((id, e') ∷ reg', labelled id now ++ later)

abbrev decl_key : ZenohId → ℕ → DeclKey
decl_key src entity_id = record { peer = src.bytes; entity_id = entity_id }

unfoldable pub on_matching_declare :
    MatchingRegistry → MatchingKind → ZenohId → ℕ → Bytes → MatchingRegistry × Deliveries
on_matching_declare reg kind src entity_id remote =
    apply_matching_delta reg kind (decl_key src entity_id) remote true

unfoldable pub on_matching_undeclare :
    MatchingRegistry → MatchingKind → ZenohId → ℕ → Bytes → MatchingRegistry × Deliveries
on_matching_undeclare reg kind src entity_id remote =
    apply_matching_delta reg kind (decl_key src entity_id) remote false

-- With whether the interest is a matching one.
unfoldable pub on_matching_snapshot_done :
    MatchingRegistry → ℕ → MatchingRegistry × Bool × Deliveries
on_matching_snapshot_done reg interest = done (lookup interest reg)
  where
    done : Option MatchingEntry → MatchingRegistry × Bool × Deliveries
    done none = (reg, false, [])
    done (some e) =
        let (e', now) = snapshot_entry e in (put interest e' reg, true, labelled interest now)

unfoldable pub reset_matching : MatchingRegistry → MatchingRegistry
reset_matching [] = []
reset_matching ((id, e) ∷ reg) = (id, reset_entry e) ∷ reset_matching reg
