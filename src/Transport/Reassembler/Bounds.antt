-- ===== src/Transport/Reassembler/Bounds.antt =====
-- reassembler.go: what a fragment may do to the lanes.
use zenoh_go_client.Prelude.{
  ℕ, ◌+◌, ◌≤◌, ◌≡◌, refl, ap, subst, Bool, true, false, [], ◌++◌, ◌↔◌, ◌⊎◌, length, length-append,
  ltb, ◌==◌, if◌then◌else◌, arith, Bool-cases, inl, inr,
}
use zenoh_go_client.Codec.Types.{Bytes}
use zenoh_go_client.Transport.Sn.{next_sn}
use zenoh_go_client.Transport.Reassembler.{
  LaneKey, same_lane, ReassemblyState, Reassembler, cleared, Pushed, complete, pending, state_of,
  accept, push_state, push,
}

pub same_lane_refl : (k : LaneKey) → same_lane k k ≡ true
same_lane_refl k = elim (Bool-cases k.reliable) [ inl e ↦ ground arith | inr e ↦ ground arith ]

-- No lane holds more than the cap, and an idle lane holds nothing.
abbrev pub IsLane : ℕ → ReassemblyState → Type 0
IsLane max st = (length st.buf ≤ max) × ((st.active ≡ true) ⊎ (st.buf ≡ []))

abbrev pub IsBounded : Reassembler → Type 0
IsBounded r = (k : LaneKey) → IsLane r.max_message_size (state_of r k)

cleared-IsLane : (max : ℕ) → IsLane max cleared
cleared-IsLane max = (omega arith, inr refl)

abbrev message_of : Pushed → Bytes
message_of (complete msg) = msg
message_of _ = []

-- What a push on one lane guarantees of the state that it leaves and the message that it hands out.
abbrev Guarded : ℕ → ReassemblyState × Pushed → Type 0
Guarded max (st, res) =
    IsLane max st
    × ((res ≡ pending) ↔ (st.active ≡ true))
    × ((msg : Bytes) → res ≡ complete msg → length msg ≤ max)

accept-Guarded :
    (max mask : ℕ) (buf : Bytes) (sn : ℕ) (more : Bool) (body : Bytes)
    → Guarded max (accept max mask buf sn more body)
unfolding accept
accept-Guarded max mask buf sn more body =
    let size = length-append buf body in
    elim (Bool-cases (ltb max (length buf + length body))) [
      | inl e ↦ rw (e) (cleared-IsLane max, ((λ h. cc), (λ h. cc)), (λ msg h. cc))
      | inr e ↦
          let fits : length (buf ++ body) ≤ max = ground (arith, size) in rw (e) (by_more fits more)
    ]
  where
    by_more :
        length (buf ++ body) ≤ max
        → (m : Bool)
        → Guarded max (
            if m
            then (
              record { expected_sn = next_sn mask sn; buf = buf ++ body; active = true },
              pending,
            )
            else (cleared, complete (buf ++ body)))
    by_more fits true = ((fits, inl refl), ((λ h. refl), (λ h. refl)), (λ msg h. cc))
    by_more fits false = (
      cleared-IsLane max,
      ((λ h. cc), (λ h. cc)),
      (λ msg h. subst (λ m. length m ≤ max) (ap message_of h) fits),
    )

push_state-Guarded :
    (max mask : ℕ) (st : ReassemblyState) (sn : ℕ) (more : Bool) (body : Bytes)
    → Guarded max (push_state max mask st sn more body)
unfolding push_state
push_state-Guarded max mask st sn more body = elim (Bool-cases st.active) [
  | inr e ↦ rw (e) (accept-Guarded max mask [] sn more body)
  | inl e ↦ elim (Bool-cases (sn == st.expected_sn)) [
    | inl t ↦ rw (e, t) (accept-Guarded max mask st.buf sn more body)
    | inr t ↦ rw (e, t) (cleared-IsLane max, ((λ h. cc), (λ h. cc)), (λ msg h. cc))
  ]
]

-- A message that a push hands out is within the cap.
pub push-complete :
    (r : Reassembler) (k : LaneKey) (sn : ℕ) (more : Bool) (body msg : Bytes)
    → (push r k sn more body).1 ≡ complete msg
    → length msg ≤ r.max_message_size
unfolding push
push-complete r k sn more body msg h =
    let (lane, idle, small) =
      push_state-Guarded r.max_message_size r.sn_mask (state_of r k) sn more body in
    small msg h
