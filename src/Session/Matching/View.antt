-- ===== src/Session/Matching/View.antt =====
-- matching.go: the life of an entry as a step relation, and what its listeners know.
use zenoh_go_client.Prelude.{
  ℕ, ◌+◌, ◌%◌, ◌^◌, ◌≡◌, refl, sym, ap, ◌∙◌, Bool, true, false, List, [], ◌∷◌, ◌++◌, append-nil,
  Option, none, some, ◌==◌, if◌then◌else◌, Bool-cases, inl, inr, arith,
}
use zenoh_go_client.Prelude.Maps.{lookup, put, delete, lookup-put, lookup-delete}
use zenoh_go_client.Codec.Types.{Bytes}
use zenoh_go_client.Session.Matching.Entry.{
  MatchingKind, DeclKey, MatchingEntry, Delivery, status_of, deliver_all, new_entry, apply_entry,
  attach_entry, detach_entry, snapshot_entry, reset_entry,
}
use zenoh_go_client.Session.Matching.Laws.{
  IsEntry, Keeps, differ, due, apply_entry-due, apply_entry-Keeps, apply_entry-IsEntry,
}

-- An entry with all that its listeners have been told, the oldest first.
pub record Watched : Type 0 where
  pub entry : MatchingEntry
  pub log : List Delivery

abbrev pub after : List Delivery → MatchingEntry × List Delivery → Watched
after log (e, ds) = record { entry = e; log = log ++ ds }

abbrev pub attached : Watched → MatchingEntry × ℕ × List Delivery → Watched
attached w (e, id, ds) = record { entry = e; log = w.log ++ ds }

-- The calls that reach an entry, in any order.
pub data Step : Watched → Watched → Type 0 where
  delta :
      (w : Watched) (kind : MatchingKind) (key : DeclKey) (remote : Bytes) (declare : Bool)
      → Step w (after w.log (apply_entry kind key remote declare w.entry))
  attach : (w : Watched) (hook : Bool) → Step w (attached w (attach_entry hook w.entry))
  detach : (w : Watched) (id : ℕ) → Step w (record w { entry = detach_entry id w.entry })
  snapshot_done : (w : Watched) → Step w (after w.log (snapshot_entry w.entry))
  reset : (w : Watched) → Step w (record w { entry = reset_entry w.entry })

pub data Reach (s : Watched) : Watched → Type 0 where
  here : Reach s s
  next : {t u : Watched} → Reach s t → Step t u → Reach s u

-- The last status that a listener was told.
unfoldable pub told : ℕ → List Delivery → Option Bool → Option Bool
told id [] seen = seen
told id (d ∷ ds) seen = told id ds (if id == d.listener then some d.matching else seen)

-- Whoever listens after the snapshot was last told the status that the entry has.
pub record IsInformed (w : Watched) : Type 0 where
  pub entry_ok : IsEntry w.entry
  pub informed :
      (id : ℕ) (hook : Bool)
      → w.entry.initial_done ≡ true
      → lookup id w.entry.listeners ≡ some hook
      → told id w.log none ≡ some (status_of w.entry)

told-append :
    (id : ℕ) (xs ys : List Delivery) (seen : Option Bool)
    → told id (xs ++ ys) seen ≡ told id ys (told id xs seen)
unfolding told
told-append id [] ys seen = refl
told-append id (x ∷ xs) ys seen = told-append id xs ys _

told-deliver_all_again :
    (id : ℕ) (status : Bool) (ls : List (ℕ × Bool))
    → told id (deliver_all ls status) (some status) ≡ some status
unfolding told deliver_all
told-deliver_all_again id status [] = refl
told-deliver_all_again id status ((i, h) ∷ ls) = elim (Bool-cases (id == i)) [
  | inl e ↦ rw (told, e) (told-deliver_all_again id status ls)
  | inr e ↦ rw (told, e) (told-deliver_all_again id status ls)
]

-- A delivery to all reaches each listener.
told-deliver_all :
    (id : ℕ) (status hook : Bool) (ls : List (ℕ × Bool)) (seen : Option Bool)
    → lookup id ls ≡ some hook
    → told id (deliver_all ls status) seen ≡ some status
unfolding told deliver_all lookup
told-deliver_all id status hook [] seen h = cc
told-deliver_all id status hook ((i, k) ∷ ls) seen h = elim (Bool-cases (id == i)) [
  | inl e ↦ rw (told, e) (told-deliver_all_again id status ls)
  | inr e ↦ rw (told, e) (told-deliver_all id status hook ls seen (ground arith))
]

-- After what is due, a listener that was up to date is so again.
told-due :
    (id : ℕ) (hook : Bool) (e e' : MatchingEntry)
    → e.initial_done ≡ true
    → lookup id e.listeners ≡ some hook
    → told id (due e e') (some (status_of e)) ≡ some (status_of e')
unfolding told
told-due id hook e e' done listens = elim (Bool-cases (differ (status_of e) (status_of e'))) [
  | inl d ↦
      rw (done, d)
        (told-deliver_all id (status_of e') hook e.listeners (some (status_of e)) listens)
  | inr d ↦ rw (done, d) (ap some (ground arith))
]

delta-IsInformed :
    (w : Watched) (kind : MatchingKind) (key : DeclKey) (remote : Bytes) (declare : Bool)
    → IsInformed w
    → IsInformed (after w.log (apply_entry kind key remote declare w.entry))
delta-IsInformed w kind key remote declare v = record {
  entry_ok = apply_entry-IsEntry kind key remote declare w.entry v.entry_ok;
  informed = λ id hook done listens. up_to_date id hook done listens;
}
  where
    result : MatchingEntry × List Delivery
    result = apply_entry kind key remote declare w.entry

    k : Keeps w.entry result.0
    k = apply_entry-Keeps kind key remote declare w.entry

    up_to_date :
        (id : ℕ) (hook : Bool)
        → result.0.initial_done ≡ true
        → lookup id result.0.listeners ≡ some hook
        → told id (w.log ++ result.1) none ≡ some (status_of result.0)
    up_to_date id hook done listens =
        let done' = sym k.initial_done_same ∙ done in
        let listens' = ap (lookup id) (sym k.listeners_same) ∙ listens in
        told-append id w.log result.1 none
        ∙ ap (told id result.1) (v.informed id hook done' listens')
        ∙ ap (λ ds. told id ds (some (status_of w.entry)))
            (apply_entry-due kind key remote declare w.entry)
        ∙ told-due id hook w.entry result.0 done' listens'

attach-IsInformed :
    (w : Watched) (hook : Bool) → IsInformed w → IsInformed (attached w (attach_entry hook w.entry))
unfolding attach_entry
attach-IsInformed w hook v = record {
  entry_ok = record { counted = v.entry_ok.counted; distinct = v.entry_ok.distinct };
  informed = λ i k done listens. up_to_date i k done listens;
}
  where
    id : ℕ
    id = (w.entry.next_listener_id + 1) % 2 ^ 32

    told_new :
        (i : ℕ)
        → (i == id) ≡ true
        → told i (record { listener = id; matching = status_of w.entry } ∷ []) (told i w.log none)
          ≡ some (status_of w.entry)
    told_new i e = unfold told in rw (e) refl

    told_old :
        (i : ℕ)
        → (i == id) ≡ false
        → told i (record { listener = id; matching = status_of w.entry } ∷ []) (told i w.log none)
          ≡ told i w.log none
    told_old i e = unfold told in rw (e) refl

    up_to_date :
        (i : ℕ) (k : Bool)
        → w.entry.initial_done ≡ true
        → lookup i (put id hook w.entry.listeners) ≡ some k
        → told i (w.log ++ (attach_entry hook w.entry).2) none ≡ some (status_of w.entry)
    up_to_date i k done listens = rw (done) (
        told-append i w.log _ none ∙ elim (Bool-cases (i == id)) [
          | inl e ↦ told_new i e
          | inr e ↦
              told_old i e
              ∙ v.informed i k done
                  (sym (lookup-put i id hook w.entry.listeners ∙ rw (e) refl) ∙ listens)
        ])

detach-IsInformed :
    (w : Watched) (id : ℕ)
    → IsInformed w
    → IsInformed (record w { entry = detach_entry id w.entry })
unfolding detach_entry
detach-IsInformed w id v = record {
  entry_ok = record { counted = v.entry_ok.counted; distinct = v.entry_ok.distinct };
  informed = λ i k done listens. still i k done listens;
}
  where
    still :
        (i : ℕ) (k : Bool)
        → w.entry.initial_done ≡ true
        → lookup i (delete id w.entry.listeners) ≡ some k
        → told i w.log none ≡ some (status_of w.entry)
    still i k done listens =
        let kept = sym (lookup-delete i id w.entry.listeners) ∙ listens in
        v.informed i k done (ground arith)

snapshot-IsInformed :
    (w : Watched) → IsInformed w → IsInformed (after w.log (snapshot_entry w.entry))
unfolding snapshot_entry
snapshot-IsInformed w v = elim (Bool-cases w.entry.initial_done) [
  | inl e ↦
      rw (e, append-nil)
        (record {
          entry_ok = record { counted = v.entry_ok.counted; distinct = v.entry_ok.distinct };
          informed = λ id k done listens. v.informed id k e listens;
        })
  | inr e ↦ rw (e) (record {
    entry_ok = record { counted = v.entry_ok.counted; distinct = v.entry_ok.distinct };
    informed = λ id k done listens.
        told-append id w.log (deliver_all w.entry.listeners (status_of w.entry)) none
        ∙ told-deliver_all id (status_of w.entry) k w.entry.listeners (told id w.log none) listens;
  })
]

Step-IsInformed : {w u : Watched} → Step w u → IsInformed w → IsInformed u
Step-IsInformed (delta w kind key remote declare) v = delta-IsInformed w kind key remote declare v
Step-IsInformed (attach w hook) v = attach-IsInformed w hook v
Step-IsInformed (detach w id) v = detach-IsInformed w id v
Step-IsInformed (snapshot_done w) v = snapshot-IsInformed w v
Step-IsInformed (reset w) v =
    unfold reset_entry in
    record {
      entry_ok = record { counted = refl; distinct = tt };
      informed = λ i k done listens. absurd (cc);
    }

-- Whatever calls reach a new entry, in whatever order: once the initial snapshot is complete, every
-- attached listener was last told the status that the entry has, and the count is that of the
-- distinct declarations.
pub Reach-IsInformed :
    (key_expr : Bytes) (kind : MatchingKind) (w : Watched)
    → Reach (record { entry = new_entry key_expr kind; log = [] }) w
    → IsInformed w
Reach-IsInformed key_expr kind w here =
    unfold new_entry in
    record {
      entry_ok = record { counted = refl; distinct = tt };
      informed = λ i k done listens. absurd (cc);
    }
Reach-IsInformed key_expr kind w (next r s) = Step-IsInformed s (Reach-IsInformed key_expr kind _ r)
