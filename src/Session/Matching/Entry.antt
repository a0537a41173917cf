-- ===== src/Session/Matching/Entry.antt =====
-- matching.go: the state that is kept for one INTEREST, and what each operation does to it.
use zenoh_go_client.Prelude.{
  ℕ, ◌+◌, ◌%◌, ◌^◌, Bool, true, false, not, ◌&&◌, ◌||◌, List, [], ◌∷◌, length, map, ◌==◌, ltb,
  bytes_eq, if◌then◌else◌,
}
use zenoh_go_client.Prelude.Maps.{member, remove, put, delete}
use zenoh_go_client.Codec.Types.{Bytes}
use zenoh_go_client.KeyExpr.{intersects}

pub data MatchingKind : Type 0 where
  subscribers : MatchingKind
  queryables : MatchingKind

abbrev pub same_kind : MatchingKind → MatchingKind → Bool
same_kind subscribers subscribers = true
same_kind subscribers queryables = false
same_kind queryables subscribers = false
same_kind queryables queryables = true

pub record DeclKey : Type 0 where
  pub peer : Bytes
  pub entity_id : ℕ

abbrev pub same_decl : DeclKey → DeclKey → Bool
same_decl a b = bytes_eq a.peer b.peer && a.entity_id == b.entity_id

-- A listener is an ID with whether it has an `onEntryRemoved`.
pub record MatchingEntry : Type 0 where
  pub key_expr : Bytes
  pub kind : MatchingKind
  pub initial_done : Bool
  pub declarations : List DeclKey
  pub match_count : ℕ
  pub next_listener_id : ℕ
  pub listeners : List (ℕ × Bool)

-- `deliver(MatchingStatus{...})` of a listener.
pub record Delivery : Type 0 where
  pub listener : ℕ
  pub matching : Bool

unfoldable pub new_entry : Bytes → MatchingKind → MatchingEntry
new_entry ke kind = record {
  key_expr = ke;
  kind = kind;
  initial_done = false;
  declarations = [];
  match_count = 0;
  next_listener_id = 0;
  listeners = [];
}

-- `entry.matchCount > 0`
abbrev pub status_of : MatchingEntry → Bool
status_of e = ltb 0 e.match_count

-- `for _, l := range entry.listeners { l.deliver(status) }`
unfoldable pub deliver_all : List (ℕ × Bool) → Bool → List Delivery
deliver_all ls status = map (λ l. record { listener = l.0; matching = status }) ls

abbrev pub with_declarations : MatchingEntry → List DeclKey → MatchingEntry
with_declarations e ds = record e { declarations = ds; match_count = length ds }

-- What is delivered after a change of the count from `before`.
abbrev pub announce : ℕ → MatchingEntry → MatchingEntry × List Delivery
announce before e =
    let transitioned =
      (before == 0 && ltb 0 e.match_count) || (ltb 0 before && e.match_count == 0) in
    if not e.initial_done
    then (e, [])
    else if not transitioned
    then (e, [])
    else (e, deliver_all e.listeners (status_of e))

-- The body of the loop of `applyMatchingDelta`.
unfoldable pub apply_entry :
    MatchingKind → DeclKey → Bytes → Bool → MatchingEntry → MatchingEntry × List Delivery
apply_entry kind key remote declare e =
    let known = member same_decl key e.declarations in
    let before = e.match_count in
    if not (same_kind e.kind kind)
    then (e, [])
    else if declare && not (intersects e.key_expr remote)
    then (e, [])
    else if declare
    then (if known then (e, []) else announce before (with_declarations e (key ∷ e.declarations)))
    else if not known
    then (e, [])
    else announce before (with_declarations e (remove same_decl key e.declarations))

-- `AttachMatchingListener` on an entry that is there; the ID is a uint32.
unfoldable pub attach_entry : Bool → MatchingEntry → MatchingEntry × ℕ × List Delivery
attach_entry hook e =
    let id = (e.next_listener_id + 1) % 2 ^ 32 in
    let told = record { listener = id; matching = status_of e } ∷ [] in
    (
      record e { next_listener_id = id; listeners = put id hook e.listeners },
      id,
      if e.initial_done then told else [],
    )

unfoldable pub detach_entry : ℕ → MatchingEntry → MatchingEntry
detach_entry id e = record e { listeners = delete id e.listeners }

unfoldable pub snapshot_entry : MatchingEntry → MatchingEntry × List Delivery
snapshot_entry e =
    if e.initial_done
    then (e, [])
    else (record e { initial_done = true }, deliver_all e.listeners (status_of e))

unfoldable pub reset_entry : MatchingEntry → MatchingEntry
reset_entry e = record e { match_count = 0; initial_done = false; declarations = [] }

-- The listeners whose hook runs when the entry is dropped.
unfoldable pub hooks_of : List (ℕ × Bool) → List ℕ
hooks_of [] = []
hooks_of ((id, hook) ∷ ls) = if hook then id ∷ hooks_of ls else hooks_of ls
