-- ===== src/Session/Dispatch/Pushed.antt =====
-- dispatch.go: which subscribers a PUSH is handed to.
use zenoh_go_client.Prelude.{
  ℕ, suc, ◌≡◌, refl, ap, ◌∙◌, Bool, true, false, List, [], ◌∷◌, ◌++◌, All, none, some, ◌==◌,
  if◌then◌else◌, Bool-cases, inl, inr, ==_iff, arith,
}
use zenoh_go_client.Prelude.Maps.{member, IsDistinct, lookup, IsMap}
use zenoh_go_client.Codec.Types.{Bytes}
use zenoh_go_client.Wire.Zid.{ZenohId}
use zenoh_go_client.Wire.Data.{PushBody, put, del, Push}
use zenoh_go_client.Session.Registries.{reached}
use zenoh_go_client.Session.Registries.Laws.{meets, reached_lem}
use zenoh_go_client.Session.State.{
  PushSample, Event, pushed, queried, unmatched, liveliness, matching, Session, emit, push_events,
}
use zenoh_go_client.Session.Dispatch.{full_key, dispatch_push, sample_of, on_push_from_peer}

-- How often a subscriber's callback is called.
unfoldable pub calls_of : ℕ → List Event → ℕ
calls_of id [] = 0
calls_of id (pushed n sample ∷ es) = if n == id then suc (calls_of id es) else calls_of id es
calls_of id (queried n q ∷ es) = calls_of id es
calls_of id (unmatched n ∷ es) = calls_of id es
calls_of id (liveliness n ev ∷ es) = calls_of id es
calls_of id (matching n d ∷ es) = calls_of id es

abbrev pub payload_of : PushBody → Bytes
payload_of (put p) = p.payload
payload_of (del d) = []

-- A call with the sample of a body under a key.
pub data IsCall (key : Bytes) (src : ZenohId) (b : PushBody) : Event → Type 0 where
  call :
      {id : ℕ} {sample : PushSample}
      → sample.key_expr ≡ key
      → sample.payload ≡ payload_of b
      → sample.source_zid ≡ src
      → IsCall key src b (pushed id sample)

calls_of-push_events :
    (id : ℕ) (ids : List ℕ) (sample : PushSample)
    → IsDistinct ◌==◌ ids
    → calls_of id (push_events ids sample) ≡ (if member ◌==◌ id ids then 1 else 0)
unfolding calls_of push_events member
calls_of-push_events id [] sample v = refl
calls_of-push_events id (x ∷ ids) sample (new, v) =
    let rest = calls_of-push_events id ids sample v in
    elim (Bool-cases (id == x)) [
      | inl e ↦
          let same : id ≡ x = (==_iff id x).0 e in
          let back : (x == id) ≡ true = ground arith in
          let fresh : member ◌==◌ id ids ≡ false = ap (λ (n : ℕ). member ◌==◌ n ids) same ∙ new in
          rw (e, back, rest, fresh) refl
      | inr e ↦ let back : (x == id) ≡ false = ground arith in rw (e, back) rest
    ]

push_events-IsCall :
    (key : Bytes) (src : ZenohId) (b : PushBody) (ids : List ℕ) (sample : PushSample)
    → sample.key_expr ≡ key
    → sample.payload ≡ payload_of b
    → sample.source_zid ≡ src
    → All (IsCall key src b) (push_events ids sample)
unfolding push_events
push_events-IsCall key src b [] sample k p z = tt
push_events-IsCall key src b (x ∷ ids) sample k p z =
    (call k p z, push_events-IsCall key src b ids sample k p z)

-- A PUSH with a body whose key resolves to a valid key expression, at a session without a repeated
-- subscriber ID, adds calls of subscribers to the session and changes nothing else of it: each call
-- has the resolved key, the payload of the body and the peer as its source, and a subscriber is
-- called once where its key expression intersects the key, and otherwise not.
pub on_push_from_peer-calls :
    (p : Push) (src : ZenohId) (s : Session) (key : Bytes) (b : PushBody) (id : ℕ)
    → IsMap s.subs
    → full_key s p.key_expr ≡ some key
    → p.body ≡ some b
    → (told : List Event) × (on_push_from_peer p src s
        ≡ (record s { events = s.events ++ told }, none))
      × All (IsCall key src b) told
      × (calls_of id told ≡ (if meets (lookup id s.subs) key then 1 else 0))
unfolding on_push_from_peer dispatch_push emit
on_push_from_peer-calls p src s key b id v known there =
    let sample = sample_of key src b in
    let (counts, distinct) = reached_lem s.subs key id v in
    (
      push_events (reached s.subs key) sample,
      rw (known, there) refl,
      sample-IsCall b,
      calls_of-push_events id (reached s.subs key) sample distinct
          ∙ ap (λ (t : Bool). if t then 1 else 0) counts,
    )
  where
    sample-IsCall :
        (c : PushBody)
        → All (IsCall key src c) (push_events (reached s.subs key) (sample_of key src c))
    sample-IsCall (put x) = push_events-IsCall key src (put x) (reached s.subs key) _ refl refl refl
    sample-IsCall (del x) = push_events-IsCall key src (del x) (reached s.subs key) _ refl refl refl
