-- ===== src/Transport/Reassembler/Lanes.antt =====
-- reassembler.go: fragments of several lanes, one behind the other. The lanes share one map.
use zenoh_go_client.Prelude.{
  ℕ, ◌≡◌, refl, sym, ap, ◌∙◌, Bool, true, false, List, [], ◌∷◌, if◌then◌else◌, arith, Bool-cases,
  inl, inr,
}
use zenoh_go_client.Codec.Types.{Bytes}
use zenoh_go_client.Transport.Reassembler.{
  LaneKey, same_lane, same_bool, ReassemblyState, Reassembler, Pushed, state_of, push_state, push,
}

-- A fragment as the reader hands it to `Push`.
pub record Arrival : Type 0 where
  pub lane : LaneKey
  pub seq_num : ℕ
  pub more : Bool
  pub body : Bytes

-- `Push` on one fragment after the other, and what it returns for each.
unfoldable pub push_all : Reassembler → List Arrival → Reassembler × List (LaneKey × Pushed)
push_all r [] = (r, [])
push_all r (a ∷ arrivals) =
    let (r', p) = push r a.lane a.seq_num a.more a.body in
    let (r'', ps) = push_all r' arrivals in (r'', (a.lane, p) ∷ ps)

unfoldable pub on_lane : LaneKey → List Arrival → List Arrival
on_lane k [] = []
on_lane k (a ∷ arrivals) =
    let rest = on_lane k arrivals in if same_lane k a.lane then a ∷ rest else rest

unfoldable pub answers_on : LaneKey → List (LaneKey × Pushed) → List Pushed
answers_on k [] = []
answers_on k ((l, p) ∷ ps) = let rest = answers_on k ps in if same_lane k l then p ∷ rest else rest

-- What one lane has seen and holds.
abbrev view : LaneKey → Reassembler × List (LaneKey × Pushed) → ReassemblyState × List Pushed
view k (r, ps) = (state_of r k, answers_on k ps)

-- A lane on its own.
unfoldable run_lane : ℕ → ℕ → ReassemblyState → List Arrival → ReassemblyState × List Pushed
run_lane max mask st [] = (st, [])
run_lane max mask st (a ∷ arrivals) =
    let (st', p) = push_state max mask st a.seq_num a.more a.body in
    let (st'', ps) = run_lane max mask st' arrivals in (st'', p ∷ ps)

same_bool-eq : (a b : Bool) → same_bool a b ≡ true → a ≡ b
same_bool-eq true b h = sym h
same_bool-eq false true h = cc
same_bool-eq false false h = refl

same_lane-eq : (k l : LaneKey) → same_lane k l ≡ true → k ≡ l
same_lane-eq k l h =
    let p : k.priority ≡ l.priority = ground arith in
    let q : same_bool k.reliable l.reliable ≡ true = ground arith in
    ap (λ (n : ℕ). record { priority = n; reliable = k.reliable }) p
    ∙ ap (λ (b : Bool). record { priority = l.priority; reliable = b })
        (same_bool-eq k.reliable l.reliable q)

same_lane_comm : (k l : LaneKey) → same_lane k l ≡ same_lane l k
same_lane_comm k l = elim (Bool-cases k.reliable) [ inl e ↦ ground arith | inr e ↦ ground arith ]

-- `Push` is the step of its own lane, and no step of another.
push-own :
    (r : Reassembler) (k : LaneKey) (a : Arrival)
    → same_lane k a.lane ≡ true
    → let alone = push_state r.max_message_size r.sn_mask (state_of r k) a.seq_num a.more a.body in
      let (r', p) = push r a.lane a.seq_num a.more a.body in
      (state_of r' k ≡ alone.0) × (p ≡ alone.1)
unfolding push
push-own r k a e =
    let one : state_of r a.lane ≡ state_of r k =
      ap (λ j. state_of r j) (sym (same_lane-eq k a.lane e)) in
    rw (same_lane_comm a.lane k, e, one) (refl, refl)

push-other :
    (r : Reassembler) (k : LaneKey) (a : Arrival)
    → same_lane k a.lane ≡ false
    → state_of (push r a.lane a.seq_num a.more a.body).0 k ≡ state_of r k
unfolding push
push-other r k a e = rw (same_lane_comm a.lane k, e) refl

-- The cap and the mask stay.
push-run_lane :
    (r : Reassembler) (a : Arrival) (st : ReassemblyState) (arrivals : List Arrival)
    → let r' = (push r a.lane a.seq_num a.more a.body).0 in
      run_lane r'.max_message_size r'.sn_mask st arrivals
      ≡ run_lane r.max_message_size r.sn_mask st arrivals
unfolding push
push-run_lane r a st arrivals = refl

abbrev with_answer : Pushed → ReassemblyState × List Pushed → ReassemblyState × List Pushed
with_answer p (st, ps) = (st, p ∷ ps)

-- In the shared map a lane runs as it does on its own.
view-run_lane :
    (k : LaneKey) (arrivals : List Arrival) (r : Reassembler)
    → view k (push_all r arrivals)
      ≡ run_lane r.max_message_size r.sn_mask (state_of r k) (on_lane k arrivals)
unfolding push_all answers_on on_lane run_lane
view-run_lane k [] r = refl
view-run_lane k (a ∷ arrivals) r =
    let (r', p) = push r a.lane a.seq_num a.more a.body in
    let run : ReassemblyState → ReassemblyState × List Pushed =
      λ st. run_lane r.max_message_size r.sn_mask st (on_lane k arrivals) in
    let later : view k (push_all r' arrivals) ≡ run (state_of r' k) =
      view-run_lane k arrivals r' ∙ push-run_lane r a (state_of r' k) (on_lane k arrivals) in
    elim (Bool-cases (same_lane k a.lane)) [
      | inl e ↦
          let (st, answer) = push-own r k a e in
          rw (e) (
            ap (with_answer p) (later ∙ ap run st)
            ∙ ap
                (λ q. with_answer q (
                  run
                    (push_state r.max_message_size r.sn_mask (state_of r k) a.seq_num a.more
                      a.body).0))
                answer)
      | inr e ↦ rw (e) (later ∙ ap run (push-other r k a e))
    ]

-- What a lane answers and holds depends on its own fragments and their order, not on those of others.
pub push_all-on_lane :
    (r : Reassembler) (k : LaneKey) (as' bs : List Arrival)
    → on_lane k as' ≡ on_lane k bs
    → (answers_on k (push_all r as').1 ≡ answers_on k (push_all r bs).1)
      × (state_of (push_all r as').0 k ≡ state_of (push_all r bs).0 k)
push_all-on_lane r k as' bs h =
    let same : view k (push_all r as') ≡ view k (push_all r bs) =
      view-run_lane k as' r
      ∙ ap (run_lane r.max_message_size r.sn_mask (state_of r k)) h
      ∙ sym (view-run_lane k bs r) in
    (ap (λ v. v.1) same, ap (λ v. v.0) same)

pub push_all-caps :
    (arrivals : List Arrival) (r : Reassembler)
    → ((push_all r arrivals).0.max_message_size ≡ r.max_message_size)
      × ((push_all r arrivals).0.sn_mask ≡ r.sn_mask)
unfolding push_all push
push_all-caps [] r = (refl, refl)
push_all-caps (a ∷ arrivals) r = push_all-caps arrivals (push r a.lane a.seq_num a.more a.body).0
