-- ===== src/Codec/Vle/Size.antt =====
-- vle.go: `SizeZ64` against the bytes that `EncodeZ64` appends.
use zenoh_go_client.Prelude.{
  ℕ, zero, suc, ◌+◌, ◌*◌, ◌/◌, ◌^◌, ◌≤◌, ◌<◌, ◌≡◌, refl, sym, ap, ◌∙◌, min, ◌++◌, length, arith,
  inl, inr, Bool-cases, ltb, ltb→lt, length-append,
}
use Prim.Native.Nat.{max}
use native.Mathlib.Nat.{pow-suc}
use zenoh_go_client.Codec.Types.{Bytes, written}
use zenoh_go_client.Codec.Vle.{len_bits, size_z64, encode_z64}
use zenoh_go_client.Codec.Vle.RoundTrip.{groups, groups_small, groups_large, encode_loop-groups}

len_bits-le : (f j v : ℕ) → v < 2 ^ j → len_bits f v ≤ j
unfolding len_bits
len_bits-le zero j v h = omega arith
len_bits-le (suc f) zero v h = ground arith
len_bits-le (suc f) (suc j) v h =
    ground (arith, len_bits-le f j (v / 2) (omega (arith, pow-suc 2 j)))

len_bits-pos : (f v : ℕ) → 0 < v → 0 < len_bits (suc f) v
unfolding len_bits
len_bits-pos f v h = ground arith

len_bits-zero : (f : ℕ) → len_bits f 0 ≡ 0
unfolding len_bits
len_bits-zero zero = refl
len_bits-zero (suc f) = refl

len_bits_seven :
    (f v : ℕ)
    → 128 ≤ v
    → len_bits (suc (suc (suc (suc (suc (suc (suc f))))))) v ≡ 7 + len_bits f (v / 128)
unfolding len_bits
len_bits_seven f v h = ground arith

-- Fuel for eight bits and seven more for each continued group.
fuel_for : ℕ → ℕ
fuel_for zero = 8
fuel_for (suc k) = suc (suc (suc (suc (suc (suc (suc (fuel_for k)))))))

fuel_for-suc : (k : ℕ) → (f : ℕ) × (fuel_for k ≡ suc f)
unfolding fuel_for
fuel_for-suc zero = (7, refl)
fuel_for-suc (suc k) = (suc (suc (suc (suc (suc (suc (fuel_for k)))))), refl)

fuel_for_step :
    (k v : ℕ) → 128 ≤ v → len_bits (fuel_for (suc k)) v ≡ 7 + len_bits (fuel_for k) (v / 128)
unfolding fuel_for
fuel_for_step k v h = len_bits_seven (fuel_for k) v h

-- `(b + 6) / 7`, at least one and at most `limit`.
abbrev clamp_size : ℕ → ℕ → ℕ
clamp_size limit b = max 1 (min limit ((b + 6) / 7))

length-groups :
    (k v : ℕ)
    → v < 256 * 128 ^ k
    → length (groups k v) ≡ clamp_size (k + 1) (len_bits (fuel_for k) v)
length-groups zero v h = unfold groups in omega (arith, len_bits-le (fuel_for 0) 8 v)
length-groups (suc k) v h = elim (Bool-cases (ltb v 128)) [
  | inl small ↦
      rw (groups_small k v (ltb→lt v 128 small))
        (omega (arith, len_bits-le (fuel_for (suc k)) 7 v (ltb→lt v 128 small)))
  | inr big ↦
      let large : 128 ≤ v = ground arith in
      let (f, e) = fuel_for-suc k in
      let some_bits : 0 < len_bits (fuel_for k) (v / 128) =
        rw e (len_bits-pos f (v / 128) (omega arith)) in
      rw (groups_large k v large) (
        omega (
          arith,
          length-groups k (v / 128) (omega (arith, pow-suc 128 k)),
          fuel_for_step k v large,
        ))
]

size_z64-clamp : (v : ℕ) → size_z64 v ≡ clamp_size 9 (len_bits 64 v)
unfolding size_z64
size_z64-clamp v = ground arith

length-groups_size : (v : ℕ) → v < 2 ^ 64 → length (groups 8 v) ≡ size_z64 v
unfolding fuel_for
length-groups_size v h = length-groups 8 v (omega arith) ∙ sym (size_z64-clamp v)

-- The encoder of a 64-bit number appends as many bytes as `SizeZ64` says.
pub size_z64-encode_z64 :
    (v : ℕ) (w : Bytes)
    → v < 2 ^ 64
    → (out : Bytes) × (encode_z64 v w ≡ written out) × (length out ≡ length w + size_z64 v)
unfolding encode_z64
size_z64-encode_z64 v w h = (
  w ++ groups 8 v,
  ap written (encode_loop-groups 8 v w),
  omega (arith, length-append w (groups 8 v), length-groups_size v h),
)
