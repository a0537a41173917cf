-- ===== src/Transport/Delivery.antt =====
-- fragmenter.go into reassembler.go: what the receiving side does with the fragments of a message.
use zenoh_go_client.Prelude.{
  ℕ, zero, suc, ◌+◌, ◌-◌, ◌≤◌, ◌<◌, ◌≡◌, refl, ap, ◌∙◌, min, Bool, true, false, List, [], ◌∷◌, ◌++◌,
  append_assoc, Option, none, some, length, take, drop, length-append, length-take, length-drop,
  take-append-drop, take_all, drop_all, ◌⊎◌, inl, inr, ltb, leb, arith, Bool-cases,
}
use zenoh_go_client.Codec.Types.{Bytes}
use zenoh_go_client.Codec.Ext.{Extension}
use zenoh_go_client.Transport.Sn.{normalize_sn_mask, next_sn}
use zenoh_go_client.Transport.Fragmenter.{
  Fragmenter, fragment_overhead, Sink, Sent, cut, after_sink, fragment_loop, fragment,
}
use zenoh_go_client.Transport.Reassembler.Bounds.{same_lane_refl}
use zenoh_go_client.Transport.Reassembler.{
  LaneKey, ReassemblyState, Reassembler, cleared, Pushed, complete, pending, sn_gap, too_large,
  state_of, set_lane, accept, push_state, push,
}

-- The receiver: the reassembler and the messages it has handed out.
abbrev pub Receiver : Type 0
Receiver = Reassembler × List Bytes

abbrev pub hand_out : List Bytes → Pushed → List Bytes × Option Pushed
hand_out out (complete msg) = (out ++ (msg ∷ []), none)
hand_out out pending = (out, none)
hand_out out sn_gap = (out, some sn_gap)
hand_out out too_large = (out, some too_large)

-- A sink that pushes each fragment on one lane and stops at an error.
unfoldable pub receive : LaneKey → Sink Receiver Pushed
receive lane (r, out) f =
    let (r', res) = push r lane f.seq_num f.more f.body in
    let (out', e) = hand_out out res in ((r', out'), e)

pub state_of-set_lane :
    (r : Reassembler) (k : LaneKey) (st : ReassemblyState) → state_of (set_lane r k st) k ≡ st
state_of-set_lane r k st = rw (same_lane_refl k) refl

-- The lane holds `pre` and waits for `sn`, or it holds nothing.
abbrev Waits : ReassemblyState → Bytes → ℕ → Type 0
Waits st pre sn =
    ((st.active ≡ true) × (st.expected_sn ≡ sn) × (st.buf ≡ pre))
    ⊎ ((st.active ≡ false) × (pre ≡ []))

push_state-Waits :
    (max mask : ℕ) (st : ReassemblyState) (pre : Bytes) (sn : ℕ) (more : Bool) (body : Bytes)
    → Waits st pre sn
    → push_state max mask st sn more body ≡ accept max mask pre sn more body
unfolding push_state
push_state-Waits max mask st pre sn more body (inl (a, e, b)) = ground arith
push_state-Waits max mask st pre sn more body (inr (a, b)) = ground arith

accept_last :
    (max mask : ℕ) (pre msg : Bytes) (sn chunk : ℕ)
    → length pre + length msg ≤ max
    → length msg ≤ chunk
    → accept max mask pre sn
        (ltb (min chunk (length msg)) (length msg))
        (take (min chunk (length msg)) msg)
      ≡ (cleared, complete (pre ++ msg))
unfolding accept
accept_last max mask pre msg sn chunk small last =
    let whole = take_all (min chunk (length msg)) msg (omega arith) in
    let fits : ltb max (length pre + length msg) ≡ false = ground arith in
    let stop : ltb (min chunk (length msg)) (length msg) ≡ false = ground arith in
    rw (whole, fits, stop) refl

accept_more :
    (max mask : ℕ) (pre msg : Bytes) (sn chunk : ℕ)
    → length pre + length msg ≤ max
    → chunk < length msg
    → accept max mask pre sn
        (ltb (min chunk (length msg)) (length msg))
        (take (min chunk (length msg)) msg)
      ≡ (
        record { expected_sn = next_sn mask sn; buf = pre ++ take chunk msg; active = true },
        pending,
      )
unfolding accept
accept_more max mask pre msg sn chunk small more =
    let n : min chunk (length msg) ≡ chunk = omega arith in
    let size = length-take chunk msg in
    let fits : ltb max (length pre + length (take chunk msg)) ≡ false = ground arith in
    let stop : ltb chunk (length msg) ≡ true = ground arith in rw (n, fits, stop) refl

-- What the receiver does with the result of a push.
abbrev after_push :
    Reassembler → LaneKey → List Bytes → ReassemblyState × Pushed → Receiver × Option Pushed
after_push r k out (st, res) = let (out', e) = hand_out out res in ((set_lane r k st, out'), e)

-- What the receiver ends with: no error, one message more, an empty lane.
abbrev pub Delivered : LaneKey → List Bytes → Bytes → Sent Receiver Pushed → Type 0
Delivered k out msg sent =
    (sent.error ≡ none) × (sent.state.1 ≡ out ++ (msg ∷ [])) × (state_of sent.state.0 k ≡ cleared)

module _ (chunk : ℕ) (reliable : Bool) (exts : List Extension) (k : LaneKey) where
  receive-cut :
      (r : Reassembler) (out : List Bytes) (pre msg : Bytes) (sn : ℕ)
      → Waits (state_of r k) pre sn
      → receive k (r, out) (cut chunk reliable sn exts msg)
        ≡ after_push r k out (
            accept r.max_message_size r.sn_mask pre sn
              (ltb (min chunk (length msg)) (length msg))
              (take (min chunk (length msg)) msg))
  unfolding receive push cut
  receive-cut r out pre msg sn waits = ap (after_push r k out) (
      push_state-Waits r.max_message_size r.sn_mask (state_of r k) pre sn
        (ltb (min chunk (length msg)) (length msg)) (take (min chunk (length msg)) msg) waits)

  loop_nil :
      (mask fuel sn : ℕ) (r : Receiver)
      → fragment_loop (receive k) chunk mask reliable exts fuel sn [] r
        ≡ record { next = sn; error = none; state = r }
  unfolding fragment_loop
  loop_nil mask zero sn r = refl
  loop_nil mask (suc fuel) sn r = refl

  loop-Delivered :
      (fuel : ℕ) (r : Reassembler) (out : List Bytes) (pre msg : Bytes) (sn : ℕ)
      → 0 < chunk
      → 0 < length msg
      → length msg ≤ fuel
      → length pre + length msg ≤ r.max_message_size
      → Waits (state_of r k) pre sn
      → Delivered k out
          (pre ++ msg)
          (fragment_loop (receive k) chunk r.sn_mask reliable exts fuel sn msg (r, out))
  unfolding fragment_loop after_sink
  loop-Delivered fuel r out pre [] sn pos some_left enough small waits = absurd (omega arith)
  loop-Delivered zero r out pre (b ∷ msg) sn pos some_left enough small waits = absurd (omega arith)
  loop-Delivered (suc fuel) r out pre (b ∷ msg) sn pos some_left enough small waits =
      elim (Bool-cases (ltb chunk (length (b ∷ msg)))) [
        | inl e ↦
            let more : chunk < length (b ∷ msg) = ground arith in
            let n : min chunk (length (b ∷ msg)) ≡ chunk = omega arith in
            let next : ReassemblyState = record {
              expected_sn = next_sn r.sn_mask sn;
              buf = pre ++ take chunk (b ∷ msg);
              active = true;
            } in
            let step =
              receive-cut r out pre (b ∷ msg) sn waits
              ∙ ap (after_push r k out)
                  (accept_more r.max_message_size r.sn_mask pre (b ∷ msg) sn chunk small more) in
            let held = state_of-set_lane r k next in
            let front = take chunk (b ∷ msg) in
            let back = drop chunk (b ∷ msg) in
            let whole : (pre ++ front) ++ back ≡ pre ++ (b ∷ msg) =
              append_assoc pre front back ∙ ap (◌++◌ pre) (take-append-drop chunk (b ∷ msg)) in
            let taken = length-take chunk (b ∷ msg) in
            let left = length-drop chunk (b ∷ msg) in
            let held_size = length-append pre front in
            let ih =
              loop-Delivered fuel (set_lane r k next) out (pre ++ front) back (next_sn r.sn_mask sn)
                pos (omega (arith, taken, left)) (omega (arith, taken, left))
                (omega (arith, taken, left, held_size))
                (inl (
                  ap (λ st. st.active) held,
                  ap (λ st. st.expected_sn) held,
                  ap (λ st. st.buf) held,
                )) in
            rw (step, n)
              (let (no_error, handed, idle) = ih in
                (no_error, handed ∙ ap (λ m. out ++ (m ∷ [])) whole, idle))
        | inr e ↦
            let last : length (b ∷ msg) ≤ chunk = ground arith in
            let step =
              receive-cut r out pre (b ∷ msg) sn waits
              ∙ ap (after_push r k out)
                  (accept_last r.max_message_size r.sn_mask pre (b ∷ msg) sn chunk small last) in
            let gone = drop_all (min chunk (length (b ∷ msg))) (b ∷ msg) (omega arith) in
            rw (step, gone, loop_nil r.sn_mask fuel (next_sn r.sn_mask sn))
              (refl, refl, state_of-set_lane r k cleared)
      ]

-- Fragmenting a message that is not empty and that the receiver has room for, with a body size
-- above the overhead, on a lane with nothing in flight and under the same sequence number mask,
-- into the reassembler ends without an error, with the message handed out once and whole and the
-- lane empty.
pub fragment-Delivered :
    (f : Fragmenter) (msg : Bytes) (reliable : Bool) (sn : ℕ) (exts : List Extension)
    → (k : LaneKey) (r : Reassembler) (out : List Bytes) → fragment_overhead < f.max_body_size
    → normalize_sn_mask f.sn_mask ≡ r.sn_mask
    → (state_of r k).active ≡ false
    → 0 < length msg
    → length msg ≤ r.max_message_size
    → Delivered k out msg (fragment (receive k) f msg reliable sn exts (r, out))
unfolding fragment
fragment-Delivered f msg reliable sn exts k r out big same idle some_left small =
    let test : leb f.max_body_size fragment_overhead ≡ false = ground arith in
    rw (test, same)
      (loop-Delivered (f.max_body_size - fragment_overhead) reliable exts k (length msg) r out []
        msg sn (omega arith) some_left (omega arith) (omega arith) (inr (idle, refl)))
