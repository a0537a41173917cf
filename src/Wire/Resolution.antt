-- ===== src/Wire/Resolution.antt =====
-- internal/wire/resolution.go: the widths of sequence numbers and request IDs.
use zenoh_go_client.Prelude.{
  ℕ, ◌+◌, ◌-◌, ◌*◌, ◌/◌, ◌%◌, ◌^◌, ◌≤◌, ◌<◌, ◌≡◌, bit_and, bit_or, ◌==◌, leb, arith, if◌then◌else◌,
  min, ap, ◌∙◌,
}
use native.Mathlib.Nat.{pow-le-pow_right}
use zenoh_go_client.Prelude.Bits.{and_mask, or_high_low}

-- `Field`: which two bits.
pub data Field : Type 0 where
  frame_sn : Field
  request_id : Field

-- `2*f`
abbrev pub field_shift : Field → ℕ
field_shift frame_sn = 0
field_shift request_id = 2

unfoldable pub code : ℕ → Field → ℕ
code r f = bit_and (r / 2 ^ field_shift f) 3

unfoldable pub bits : ℕ → Field → ℕ
bits r f =
    let c = code r f in if c == 0 then 7 else if c == 1 then 14 else if c == 2 then 28 else 63

unfoldable pub mask : ℕ → Field → ℕ
mask r f = let b = bits r f in if leb 64 b then 2 ^ 64 - 1 else 2 ^ b - 1

-- `(ridCode&0b11)<<2 | (fsnCode&0b11)`
unfoldable pub new_resolution : ℕ → ℕ → ℕ
new_resolution fsn_code rid_code = bit_or (bit_and rid_code 3 * 2 ^ 2) (bit_and fsn_code 3)

unfoldable pub min_resolution : ℕ → ℕ → ℕ
min_resolution a b =
    new_resolution (min (code a frame_sn) (code b frame_sn))
      (min (code a request_id) (code b request_id))

code-lt : (r : ℕ) (f : Field) → code r f < 4
unfolding code
code-lt r f = omega (arith, and_mask 2 (r / 2 ^ field_shift f))

packed : (fsn rid : ℕ) → fsn < 4 → rid < 4 → new_resolution fsn rid ≡ rid * 4 + fsn
unfolding new_resolution
packed fsn rid hf hr =
    ap (λ (t : ℕ). bit_or (t * 2 ^ 2) (bit_and fsn 3)) (and_mask 2 rid)
    ∙ ap (λ (t : ℕ). bit_or (rid % 4 * 2 ^ 2) t) (and_mask 2 fsn)
    ∙ or_high_low 2 (rid % 4) (fsn % 4) (omega arith)
    ∙ omega arith

code-new_resolution :
    (fsn rid : ℕ)
    → fsn < 4
    → rid < 4
    → (code (new_resolution fsn rid) frame_sn ≡ fsn)
      × (code (new_resolution fsn rid) request_id ≡ rid)
unfolding code
code-new_resolution fsn rid hf hr =
    let sum = packed fsn rid hf hr in
    rw sum (
      omega (arith, and_mask 2 ((rid * 4 + fsn) / 2 ^ 0)),
      omega (arith, and_mask 2 ((rid * 4 + fsn) / 2 ^ 2)),
    )

bits_mono : (r s : ℕ) (f : Field) → code r f ≤ code s f → bits r f ≤ bits s f
unfolding bits
bits_mono r s f h = ground (arith, code-lt s f)

bits-lt : (r : ℕ) (f : Field) → bits r f < 64
unfolding bits
bits-lt r f = ground arith

pub mask-bits : (r : ℕ) (f : Field) → mask r f ≡ 2 ^ bits r f - 1
unfolding mask
mask-bits r f = ground (arith, bits-lt r f)

mask_mono : (r s : ℕ) (f : Field) → code r f ≤ code s f → mask r f ≤ mask s f
mask_mono r s f h = omega (
  arith,
  mask-bits r f,
  mask-bits s f,
  pow-le-pow_right {n = 2} (omega arith) {i = bits r f} {j = bits s f} (bits_mono r s f h),
)

code-min_resolution :
    (a b : ℕ) (f : Field) → code (min_resolution a b) f ≡ min (code a f) (code b f)
unfolding min_resolution
code-min_resolution a b f = at f
  where
    both :
        (code (min_resolution a b) frame_sn ≡ min (code a frame_sn) (code b frame_sn))
        × (code (min_resolution a b) request_id ≡ min (code a request_id) (code b request_id))
    both =
        code-new_resolution (min (code a frame_sn) (code b frame_sn))
          (min (code a request_id) (code b request_id)) (omega (arith, code-lt a frame_sn))
          (omega (arith, code-lt a request_id))

    at : (g : Field) → code (min_resolution a b) g ≡ min (code a g) (code b g)
    at frame_sn = both.0
    at request_id = both.1

-- The negotiated resolution takes the smaller code of each field, and its mask of the field exceeds
-- neither of the two offered masks.
pub min_resolution_lem :
    (a b : ℕ) (f : Field)
    → (code (min_resolution a b) f ≡ min (code a f) (code b f))
      × (mask (min_resolution a b) f ≤ mask a f)
      × (mask (min_resolution a b) f ≤ mask b f)
min_resolution_lem a b f =
    let least = code-min_resolution a b f in
    (
      least,
      mask_mono (min_resolution a b) a f (omega arith),
      mask_mono (min_resolution a b) b f (omega arith),
    )
