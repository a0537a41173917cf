-- ===== src/Codec/Vle/Bounds.antt =====
-- vle.go: what the decoders return on any input.
use zenoh_go_client.Prelude.{
  ℕ, zero, suc, ◌+◌, ◌*◌, ◌%◌, ◌^◌, ◌≤◌, ◌<◌, ◌≡◌, [], ◌∷◌, length, All, arith, inl, inr,
  Bool-cases, ◌==◌,
}
use zenoh_go_client.Prelude.Bits.{and_0x7f}
use zenoh_go_client.Codec.Types.{Bytes, IsByte, ok, ◌>>=◌, pure, fail}
use zenoh_go_client.Codec.Buffer.{read_byte}
use zenoh_go_client.Codec.Vle.{decode_loop, decode_vle}
use zenoh_go_client.Codec.Vle.RoundTrip.{add_group, group_fits}
use native.Mathlib.Nat.{pow-le-pow_right}

-- A value below `limit`, read off at least one byte and at most `max` of them.
pub record Took (limit max : ℕ) (r : Bytes) (v : ℕ) (rest : Bytes) : Type 0 where
  pub in_range : v < limit
  pub consumes : length rest < length r
  pub bounded : length r ≤ length rest + max

ninth_fits :
    (i s value b : ℕ) → i ≡ 8 → s ≡ 7 * i → value < 2 ^ s → b < 256 → value + b * 2 ^ s < 2 ^ 64
ninth_fits i s value b hi hs low hb =
    let e : s ≡ 56 = omega arith in let low' : value < 2 ^ 56 = rw e at low in rw e (omega arith)

inner_fits :
    (i s value g : ℕ) → i < 8 → s ≡ 7 * i → value < 2 ^ s → g < 128 → value + g * 2 ^ s < 2 ^ 64
inner_fits i s value g hi hs low hg = omega (
  arith,
  group_fits value g s low hg,
  pow-le-pow_right {n = 2} (omega arith) {i = s + 7} {j = 63} (omega arith),
)

decode_loop-Took :
    (n i max value s : ℕ) (r : Bytes) (v : ℕ) (rest : Bytes)
    → All IsByte r
    → s ≡ 7 * i
    → i ≤ 8
    → value < 2 ^ s
    → decode_loop n i max value s r ≡ ok (v, rest)
    → Took (2 ^ 64) n r v rest
unfolding decode_loop ◌>>=◌ pure fail read_byte
decode_loop-Took zero i max value s r v rest hr hs hi low h = cc
decode_loop-Took (suc n) i max value s [] v rest hr hs hi low h = cc
decode_loop-Took (suc n) i max value s (b ∷ r) v rest (hb, hr) hs hi low h =
    elim (Bool-cases (i == 8)) [
      | inl e ↦
          let fits : value + b * 2 ^ s < 2 ^ 64 = ninth_fits i s value b (ground arith) hs low hb in
          ground (arith, add_group value b s low fits)
      | inr e ↦
          let g : b % 128 < 128 = omega arith in
          let inner : i < 8 = ground arith in
          let fits : value + b % 128 * 2 ^ s < 2 ^ 64 =
            inner_fits i s value (b % 128) inner hs low g in
          ground (
            arith,
            and_0x7f b hb,
            add_group value (b % 128) s low fits,
            group_fits value (b % 128) s low g,
            decode_loop-Took n (i + 1) max (value + b % 128 * 2 ^ s) (s + 7) r v rest hr
                (omega arith) (omega arith) (group_fits value (b % 128) s low g),
          )
    ]

-- A number that decodeVLE reads off bytes is below 2 ^ 64, and at least one byte and at most the
-- limit of them was read.
pub decode_vle-Took :
    (max : ℕ) (r : Bytes) (v : ℕ) (rest : Bytes)
    → All IsByte r
    → decode_vle max r ≡ ok (v, rest)
    → Took (2 ^ 64) max r v rest
unfolding decode_vle
decode_vle-Took max r v rest hr h =
    decode_loop-Took max 0 max 0 0 r v rest hr (omega arith) (omega arith) (omega arith) h
