-- ===== src/Examples/Matching.antt =====
-- internal/session/matching.go: each theorem at an input.
use zenoh_go_client.Prelude.{bytes_eq, ◌≡◌, refl, true, false, [], ◌∷◌}
use zenoh_go_client.Prelude.Maps.{member, put}
use zenoh_go_client.Codec.Types.{Bytes}
use zenoh_go_client.KeyExpr.{intersects, has_wildcard, chunk_intersect, single_chunk_intersect}
use zenoh_go_client.KeyExpr.Text.{contains_star, contains, split_chunk}
use zenoh_go_client.Session.Matching.Entry.{
  deliver_all, subscribers, DeclKey, same_decl, new_entry, apply_entry, attach_entry,
  snapshot_entry,
}
use zenoh_go_client.Session.Matching.Laws.{
  due, apply_entry-due, spec_member, member-apply_entry, apply_entry_idem,
}
use zenoh_go_client.Session.Matching.View.{
  Watched, attached, after, delta, attach, snapshot_done, here, next, IsInformed, Reach-IsInformed,
}

abbrev own_key : Bytes
own_key = b'a' ∷ b'/' ∷ b'*' ∷ []

abbrev remote_key : Bytes
remote_key = b'a' ∷ b'/' ∷ b'b' ∷ []

abbrev decl : DeclKey
decl = record { peer = 1 ∷ 2 ∷ []; entity_id = 7 }

-- An entry with a listener, after its snapshot.
abbrev watched : Watched
watched = record { entry = new_entry own_key subscribers; log = [] }

abbrev listening : Watched
listening = attached watched (attach_entry true watched.entry)

abbrev complete : Watched
complete = after listening.log (snapshot_entry listening.entry)

abbrev met : Watched
met = after complete.log (apply_entry subscribers decl remote_key true complete.entry)

Reach-IsInformed_example : IsInformed met
Reach-IsInformed_example = Reach-IsInformed own_key subscribers met (
    next (next (next here (attach watched true)) (snapshot_done listening))
      (delta complete subscribers decl remote_key true))

apply_entry-due_example :
    (apply_entry subscribers decl remote_key true complete.entry).1
    ≡ due complete.entry (apply_entry subscribers decl remote_key true complete.entry).0
apply_entry-due_example = apply_entry-due subscribers decl remote_key true complete.entry

member-apply_entry_example :
    member same_decl decl
      (apply_entry subscribers decl remote_key true complete.entry).0.declarations
    ≡ spec_member subscribers decl remote_key true complete.entry decl
member-apply_entry_example = member-apply_entry subscribers decl remote_key true complete.entry decl

apply_entry_idem_example :
    apply_entry subscribers decl remote_key true
      (apply_entry subscribers decl remote_key true complete.entry).0
    ≡ ((apply_entry subscribers decl remote_key true complete.entry).0, [])
apply_entry_idem_example = apply_entry_idem subscribers decl remote_key true complete.entry

-- The listener is told once that nothing matches, and once that something does.
told_twice :
    met.log
    ≡ record { listener = 1; matching = false } ∷ record { listener = 1; matching = true } ∷ []
unfolding new_entry attach_entry snapshot_entry apply_entry deliver_all put intersects has_wildcard
    contains_star contains chunk_intersect bytes_eq split_chunk single_chunk_intersect member
told_twice = refl
