-- ===== src/Transport/Sn.antt =====
-- Sequence numbers of a lane: `normalizeSNMask` of batcher.go and the step `(sn + 1) & mask`.
use zenoh_go_client.Prelude.{ℕ, ◌+◌, ◌-◌, ◌%◌, ◌^◌, ◌≤◌, ◌≡◌, bit_and, ◌==◌, if◌then◌else◌}
use zenoh_go_client.Prelude.Bits.{and_mask}

-- `^uint64(0)` for the zero that stands for an unset mask.
unfoldable pub normalize_sn_mask : ℕ → ℕ
normalize_sn_mask mask = if mask == 0 then 2 ^ 64 - 1 else mask

-- On uint64, which wraps before the mask applies.
unfoldable pub next_sn : ℕ → ℕ → ℕ
next_sn mask sn = bit_and ((sn + 1) % 2 ^ 64) mask

-- Under a mask of `k` ones, `k` at most 64, the step counts modulo `2 ^ k`.
pub next_sn_lem : (k sn : ℕ) → k ≤ 64 → next_sn (2 ^ k - 1) sn ≡ (sn + 1) % 2 ^ 64 % 2 ^ k
unfolding next_sn
next_sn_lem k sn h = and_mask k ((sn + 1) % 2 ^ 64)
