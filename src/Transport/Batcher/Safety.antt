-- ===== src/Transport/Batcher/Safety.antt =====
-- batcher.go: the lanes and the sink through whole calls.
use zenoh_go_client.Prelude.{
  ℕ, ◌≤◌, ◌≡◌, refl, sym, subst, Bool, not, ◌&&◌, List, [], ◌∷◌, All, Option, none, some, length,
  ◌==◌, Bool-cases, Option-cases, inl, inr, arith, bit_and,
}
use zenoh_go_client.Prelude.Bits.{and_mask}
use zenoh_go_client.Codec.Types.{Bytes}
use zenoh_go_client.Wire.Qos.{priority_is_valid}
use zenoh_go_client.Transport.Fragmenter.{fragment_overhead}
use zenoh_go_client.Transport.Batcher.{
  Batcher, Done, same_bool, set_lane, flush_known, lane_for, enqueue, flush_lanes, flush_all,
  lane_keys, new_batcher,
}
use zenoh_go_client.Transport.Lane.{OutboundMessage, Lane, BatchSink, flush_lane}
use zenoh_go_client.Transport.Batcher.Bounds.{IsLane, enqueue_lane-Kept, flush_lane-Kept}

-- Every lane, in use or yet to be made, holds at most a batch.
abbrev pub IsBatcher : ℕ → Batcher → Type 0
IsBatcher size b = (b.batch_size ≡ size) × ((p : ℕ) (r : Bool) → IsLane size (lane_for b p r))

set_lane-IsBatcher :
    (size : ℕ) (b : Batcher) (p : ℕ) (r : Bool) (l : Lane)
    → IsBatcher size b
    → IsLane size l
    → IsBatcher size (set_lane b p r l)
unfolding lane_for
set_lane-IsBatcher size b p r l h hl = (
  h.0,
  λ q t. elim (Bool-cases (p == bit_and q 7 && same_bool r t)) [
    | inl e ↦ rw (e) hl
    | inr e ↦ rw (e) (h.1 q t)
  ],
)

pub new_batcher-IsBatcher :
    (size : ℕ) (attach : Bool) (sn mask : ℕ) → IsBatcher size (new_batcher size attach sn mask)
unfolding new_batcher lane_for
new_batcher-IsBatcher size attach sn mask =
    (refl, λ p r. (omega (arith, and_mask 3 p), omega arith))

-- A property of the state behind the sink that every batch within the batch size keeps, and the
-- bound of the batch size on every lane, are kept by `Enqueue`, on each of its branches, where the
-- batch size is at least the overhead.
pub enqueue-IsBatcher :
    {S E : Type 0} (sink : BatchSink S E) (P : S → Type 0) (b : Batcher) (msg : OutboundMessage)
    (s : S)
    → ((t : S) (batch : Bytes) → length batch ≤ b.batch_size → P t → P (sink t batch).0)
    → fragment_overhead ≤ b.batch_size
    → IsBatcher b.batch_size b
    → P s
    → P (enqueue sink msg b s).state × IsBatcher b.batch_size (enqueue sink msg b s).batcher
unfolding enqueue
enqueue-IsBatcher sink P b msg s keeps big h hs =
    let (kept, lane) =
      enqueue_lane-Kept sink b.batch_size b.attach_qos b.sn_mask P keeps msg
        (lane_for b msg.priority msg.reliable) s big (h.1 msg.priority msg.reliable) hs in
    elim (Bool-cases (not (priority_is_valid msg.priority))) [
      | inl e ↦ rw (e) (hs, h)
      | inr e ↦ rw (e) (kept, set_lane-IsBatcher b.batch_size b _ msg.reliable _ h lane)
    ]

module _ {S E : Type 0} (sink : BatchSink S E) (P : S → Type 0) (size : ℕ)
    (keeps : (t : S) (batch : Bytes) → length batch ≤ size → P t → P (sink t batch).0) where
  abbrev Safe : Done S E → Type 0
  Safe done = P done.state × IsBatcher size done.batcher

  flush_known-Safe :
      (b : Batcher) (p : ℕ) (r : Bool) (s : S) (found : Option Lane)
      → bit_and p 7 ≡ p
      → b.lanes p r ≡ found
      → IsBatcher size b
      → P s
      → Safe (flush_known sink b p r s found)
  unfolding lane_for
  flush_known-Safe b p r s none low e h hs = (hs, h)
  flush_known-Safe b p r s (some l) low e h hs =
      let found : lane_for b p r ≡ l = rw (low, e) refl in
      let held = subst (IsLane size) found (h.1 p r) in
      let (kept, lane) =
        (flush_lane-Kept sink b.batch_size b.attach_qos b.sn_mask P
          (λ t batch small. keeps t batch (subst (λ n. length batch ≤ n) h.0 small)) l s
          (subst (λ n. IsLane n l) (sym h.0) held) hs).0 in
      let left = (flush_lane sink b.batch_size b.attach_qos b.sn_mask l s).lane in
      (kept, set_lane-IsBatcher size b p r left h (subst (λ n. IsLane n left) h.0 lane))

  flush_lanes-Safe :
      (keys : List (ℕ × Bool)) (b : Batcher) (s : S)
      → All (λ k. bit_and k.0 7 ≡ k.0) keys
      → IsBatcher size b
      → P s
      → Safe (flush_lanes sink keys b s)
  unfolding flush_lanes
  flush_lanes-Safe [] b s low h hs = (hs, h)
  flush_lanes-Safe ((p, r) ∷ keys) b s (low, lows) h hs =
      let (hs', h') = flush_known-Safe b p r s (b.lanes p r) low refl h hs in
      let done = flush_known sink b p r s (b.lanes p r) in
      elim (Option-cases done.error) [
        | inl e ↦ rw (e) (flush_lanes-Safe keys done.batcher done.state lows h' hs')
        | inr (x, e) ↦ rw (e) (hs', h')
      ]

-- A property of the state behind the sink that every batch within a size keeps, and the bound of
-- that size on every lane, are kept by `FlushAll`.
pub flush_all-IsBatcher :
    {S E : Type 0} (sink : BatchSink S E) (P : S → Type 0) (size : ℕ) (b : Batcher) (s : S)
    → ((t : S) (batch : Bytes) → length batch ≤ size → P t → P (sink t batch).0)
    → IsBatcher size b
    → P s
    → P (flush_all sink b s).state × IsBatcher size (flush_all sink b s).batcher
unfolding flush_all
flush_all-IsBatcher sink P size b s keeps h hs =
    flush_lanes-Safe sink P size keeps lane_keys b s low h hs
  where
    low : All (λ k. bit_and k.0 7 ≡ k.0) lane_keys
    low = (
      refl,
      (
        refl,
        (
          refl,
          (
            refl,
            (
              refl,
              (
                refl,
                (refl, (refl, (refl, (refl, (refl, (refl, (refl, (refl, (refl, (refl, tt)))))))))),
              ),
            ),
          ),
        ),
      ),
    )
