-- ===== src/Codec/Vle/RoundTrip.antt =====
-- vle.go: what the encoder writes, and that every width reads it back.
use zenoh_go_client.Prelude.{
  ℕ, zero, suc, ◌+◌, ◌-◌, ◌*◌, ◌/◌, ◌%◌, ◌^◌, ◌≤◌, ◌<◌, ◌≡◌, ◌≢◌, refl, ap, ◌∙◌, [], ◌∷◌, ◌++◌,
  append_assoc, bit_or, ltb, if◌then◌else◌, arith, ◌⊎◌, inl, inr, Bool-cases, ltb→lt,
}
use zenoh_go_client.Prelude.Bits.{and_0x7f, and_0x80, or_0x80, or_disjoint}
use zenoh_go_client.Codec.Types.{Bytes, ok, written, ◌>>=◌, pure, fail}
use zenoh_go_client.Codec.Buffer.{read_byte}
use zenoh_go_client.Codec.Carries.{Carries}
use zenoh_go_client.Codec.Vle.{
  encode_loop, encode_z64, decode_loop, decode_vle, decode_z64, decode_narrow, decode_z32,
  decode_z16, decode_z8, encode_z32, encode_z16, encode_z8,
}
use native.Mathlib.Nat.{pow-suc}
use native.Mathlib.Numerals.{towards_suc}

-- The groups of `v`, lowest first, with at most `rounds` continued ones.
unfoldable pub groups : ℕ → ℕ → Bytes
groups zero v = (v % 256) ∷ []
groups (suc rounds) v =
    let rest = groups rounds (v / 128) in if ltb v 128 then v ∷ [] else (v % 128 + 128) ∷ rest

pub groups_small : (k v : ℕ) → v < 128 → groups (suc k) v ≡ v ∷ []
unfolding groups
groups_small k v h = ground arith

pub groups_large : (k v : ℕ) → 128 ≤ v → groups (suc k) v ≡ (v % 128 + 128) ∷ groups k (v / 128)
unfolding groups
groups_large k v h = ground arith

pub encode_loop-groups : (k v : ℕ) (w : Bytes) → encode_loop k v w ≡ w ++ groups k v
unfolding encode_loop groups
encode_loop-groups zero v w = refl
encode_loop-groups (suc k) v w = ground (
  arith,
  or_0x80 (v % 256) (omega arith),
  encode_loop-groups k (v / 128) (w ++ ((v % 128 + 128) ∷ [])),
  append_assoc w ((v % 128 + 128) ∷ []) (groups k (v / 128)),
)

shift_seven : (s : ℕ) → 2 ^ (s + 7) ≡ 128 * 2 ^ s
shift_seven s = simp towards_suc (omega arith)

-- The lowest group of `v`, and the others seven places up.
regroup : (v s : ℕ) → v * 2 ^ s ≡ v % 128 * 2 ^ s + v / 128 * 2 ^ (s + 7)
regroup v s =
    omega (arith, ap (λ (t : ℕ). t * 2 ^ s) split, ap (λ (t : ℕ). v / 128 * t) (shift_seven s))
  where
    split : v ≡ v % 128 + v / 128 * 128
    split = omega arith

-- Adding a group above `value` does not carry.
pub add_group :
    (value g s : ℕ)
    → value < 2 ^ s
    → value + g * 2 ^ s < 2 ^ 64
    → bit_or value (g * 2 ^ s % 2 ^ 64) ≡ value + g * 2 ^ s
add_group value g s h fits = ap (λ (t : ℕ). bit_or value t) (omega arith) ∙ or_disjoint s value g h

ninth_byte :
    (max value b : ℕ) (n s : ℕ) (rest : Bytes)
    → value < 2 ^ s
    → value + b * 2 ^ s < 2 ^ 64
    → decode_loop (suc n) 8 max value s (b ∷ rest) ≡ ok (value + b * 2 ^ s, rest)
unfolding decode_loop ◌>>=◌ pure fail read_byte
ninth_byte max value b n s rest h fits = ground (arith, add_group value b s)

last_byte :
    (n i max value b s : ℕ) (rest : Bytes)
    → b < 128
    → i ≢ 8
    → value < 2 ^ s
    → value + b * 2 ^ s < 2 ^ 64
    → decode_loop (suc n) i max value s (b ∷ rest) ≡ ok (value + b * 2 ^ s, rest)
unfolding decode_loop ◌>>=◌ pure fail read_byte
last_byte n i max value b s rest hb hi h fits =
    ground (arith, and_0x7f b, and_0x80 b, add_group value b s)

continued_byte :
    (n i max value g s : ℕ) (rest : Bytes)
    → g < 128
    → i ≢ 8
    → i ≢ max - 1
    → value < 2 ^ s
    → value + g * 2 ^ s < 2 ^ 64
    → decode_loop (suc n) i max value s ((g + 128) ∷ rest)
      ≡ decode_loop n (i + 1) max (value + g * 2 ^ s) (s + 7) rest
unfolding decode_loop ◌>>=◌ pure fail read_byte
continued_byte n i max value g s rest hg hi hm h fits =
    ground (arith, and_0x7f (g + 128), and_0x80 (g + 128), add_group value g s)

pub group_fits : (value g s : ℕ) → value < 2 ^ s → g < 128 → value + g * 2 ^ s < 2 ^ (s + 7)
group_fits value g s low h = omega (arith, shift_seven s, scaled)
  where
    scaled : g * 2 ^ s ≤ 127 * 2 ^ s
    scaled = grind arith

-- A group that must be continued does not stand in the last allowed round.
not_last :
    (n k i max v : ℕ)
    → i + suc k ≡ 8
    → i + suc n ≡ max
    → (max ≡ 9) ⊎ (v < 128 ^ suc n)
    → 128 ≤ v
    → i ≢ max - 1
not_last n k i max v hk hn (inl nine) big = omega arith
not_last zero k i max v hk hn (inr small) big = absurd (omega arith)
not_last (suc n) k i max v hk hn (inr small) big = omega arith

tail_fits : (n v max : ℕ) → (max ≡ 9) ⊎ (v < 128 ^ suc n) → (max ≡ 9) ⊎ (v / 128 < 128 ^ n)
tail_fits n v max (inl nine) = inl nine
tail_fits n v max (inr small) = inr (omega (arith, pow-suc 128 n))

some_round : (n k i max v : ℕ) → i + suc k ≡ 8 → i + suc n ≡ max → i ≢ max - 1 → 0 < n
some_round n k i max v hk hn h = ground arith

-- From round `i` on: `v` is what is left to be read, and `k` continued groups may still come.
decode_loop-groups :
    (n k i max v value s : ℕ) (rest : Bytes)
    → i + k ≡ 8
    → i + n ≡ max
    → (max ≡ 9) ⊎ (v < 128 ^ n)
    → 0 < n
    → value < 2 ^ s
    → value + v * 2 ^ s < 2 ^ 64
    → v < 256 * 128 ^ k
    → decode_loop n i max value s (groups k v ++ rest) ≡ ok (value + v * 2 ^ s, rest)
unfolding groups
decode_loop-groups zero k i max v value s rest hk hn fit pos low bound top = absurd (omega arith)
decode_loop-groups (suc n) zero i max v value s rest hk hn fit pos low bound top =
    ground (arith, ninth_byte max value v n s rest)
decode_loop-groups (suc n) (suc k) i max v value s rest hk hn fit pos low bound top =
    elim (Bool-cases (ltb v 128)) [
      | inl small ↦
          rw (groups_small k v (ltb→lt v 128 small))
            (last_byte n i max value v s rest (ltb→lt v 128 small) (omega arith) low bound)
      | inr big ↦
          let large : 128 ≤ v = ground arith in
          let inner : i ≢ max - 1 = not_last n k i max v hk hn fit large in
          let whole = regroup v s in
          rw (groups_large k v large) (
            continued_byte n i max value (v % 128) s (groups k (v / 128) ++ rest) (omega arith)
              (omega arith) inner low (omega arith)
            ∙ decode_loop-groups n k (i + 1) max (v / 128) (value + v % 128 * 2 ^ s) (s + 7) rest
                (omega arith) (omega arith) (tail_fits n v max fit)
                (some_round n k i max v hk hn inner)
                (group_fits value (v % 128) s low (omega arith)) (omega arith)
                (omega (arith, pow-suc 128 k))
            ∙ ap (λ (t : ℕ). ok (t, rest)) (omega arith))
    ]

decode_vle-groups :
    (max v : ℕ) (rest : Bytes)
    → (max ≡ 9) ⊎ (v < 128 ^ max)
    → 0 < max
    → v < 2 ^ 64
    → decode_vle max (groups 8 v ++ rest) ≡ ok (v, rest)
unfolding decode_vle
decode_vle-groups max v rest fit pos h =
    decode_loop-groups max 8 0 max v 0 0 rest refl (omega arith) fit pos (omega arith) (omega arith)
      (omega arith)
    ∙ ap (λ (t : ℕ). ok (t, rest)) (omega arith)

-- Every 64-bit number is read back from its variable-length encoding, whatever stands before and
-- behind it.
pub encode_z64-Carries : (v : ℕ) → v < 2 ^ 64 → Carries (encode_z64 v) decode_z64 v
unfolding encode_z64 decode_z64
encode_z64-Carries v h = record {
  bytes = groups 8 v;
  writes = λ w. ap written (encode_loop-groups 8 v w);
  reads = λ rest. decode_vle-groups 9 v rest (inl refl) (omega arith) h;
}

decode_narrow-groups :
    (max limit v : ℕ) (rest : Bytes)
    → v ≤ limit
    → v < 128 ^ max
    → 0 < max
    → v < 2 ^ 64
    → decode_narrow max limit (groups 8 v ++ rest) ≡ ok (v, rest)
unfolding decode_narrow ◌>>=◌ pure fail
decode_narrow-groups max limit v rest h fit pos wide =
    rw (decode_vle-groups max v rest (inr fit) pos wide) (ground arith)

-- Every 32-bit number is read back by the 32-bit decoder from its variable-length encoding.
pub encode_z32-Carries : (v : ℕ) → v < 2 ^ 32 → Carries (encode_z32 v) decode_z32 v
unfolding encode_z32 encode_z64 decode_z32
encode_z32-Carries v h = record {
  bytes = groups 8 v;
  writes = λ w. ap written (encode_loop-groups 8 v w);
  reads = λ rest.
      decode_narrow-groups 5 0xFFFFFFFF v rest (omega arith) (omega arith) (omega arith)
        (omega arith);
}

pub encode_z16-Carries : (v : ℕ) → v < 2 ^ 16 → Carries (encode_z16 v) decode_z16 v
unfolding encode_z16 encode_z64 decode_z16
encode_z16-Carries v h = record {
  bytes = groups 8 v;
  writes = λ w. ap written (encode_loop-groups 8 v w);
  reads = λ rest.
      decode_narrow-groups 3 0xFFFF v rest (omega arith) (omega arith) (omega arith) (omega arith);
}

pub encode_z8-Carries : (v : ℕ) → v < 2 ^ 8 → Carries (encode_z8 v) decode_z8 v
unfolding encode_z8 encode_z64 decode_z8
encode_z8-Carries v h = record {
  bytes = groups 8 v;
  writes = λ w. ap written (encode_loop-groups 8 v w);
  reads = λ rest.
      decode_narrow-groups 2 0xFF v rest (omega arith) (omega arith) (omega arith) (omega arith);
}
