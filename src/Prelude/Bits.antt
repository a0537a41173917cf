-- ===== src/Prelude/Bits.antt =====
-- Bit operations as arithmetic: tables over a byte, and the disjoint `|` at every width.
use Prim.Native.Nat.{
  ℕ, zero, suc, ◌+◌, ◌-◌, ◌*◌, ◌/◌, ◌%◌, ◌^◌, ◌≤◌, ◌<◌, min, max, bit_and, bit_or, digits,
  bit_and-bitwise, bit_or-bitwise,
}
use mathlib.Core.Path.{◌≡◌, refl, ap, ◌∙◌}
use mathlib.Core.Bool.{Bool, true, ◌&&◌}
use native.Mathlib.Nat.{pow-suc, one-le-pow, div-add-mod, mod-lt}
use native.Mathlib.Omega.{arith}
use zenoh_go_client.Prelude.Tests.{◌==◌, ==_iff}

-- A test that holds below a bound, found by running it.
unfoldable pub all_below : ℕ → (ℕ → Bool) → Bool
all_below zero p = true
all_below (suc n) p = p n && all_below n p

pub all_below-at : (n : ℕ) (p : ℕ → Bool) (x : ℕ) → all_below n p ≡ true → x < n → p x ≡ true
unfolding all_below
all_below-at zero p x h lt = absurd (omega arith)
all_below-at (suc n) p x h lt = ground (arith, all_below-at n p x)

pub table :
    (n : ℕ) (f g : ℕ → ℕ) → all_below n (λ x. f x == g x) ≡ true → (x : ℕ) → x < n → f x ≡ g x
table n f g h x lt = (==_iff (f x) (g x)).0 (all_below-at n _ x h lt)

pub and_0x7f : (b : ℕ) → b < 256 → bit_and b 0x7f ≡ b % 128
unfolding all_below
and_0x7f = table 256 _ _ refl

pub and_0x80 : (b : ℕ) → b < 256 → bit_and b 0x80 ≡ b / 128 * 128
unfolding all_below
and_0x80 = table 256 _ _ refl

pub or_0x80 : (b : ℕ) → b < 256 → bit_or b 0x80 ≡ b % 128 + 128
unfolding all_below
or_0x80 = table 256 _ _ refl

-- The lowest digit first: with enough fuel the recursion behind `|` and `&` forgets its fuel.
digits-fuel :
    (z : ℕ → ℕ) (f : ℕ → ℕ → ℕ) (k l a b : ℕ) → a ≤ k → a ≤ l → digits z f k a b ≡ digits z f l a b
digits-fuel z f zero zero a b h h' = refl
digits-fuel z f (suc k) zero zero b h h' = refl
digits-fuel z f zero (suc l) zero b h h' = refl
digits-fuel z f (suc k) (suc l) zero b h h' = refl
digits-fuel z f zero l (suc a) b h h' = absurd (omega arith)
digits-fuel z f (suc k) zero (suc a) b h h' = absurd (omega arith)
digits-fuel z f (suc k) (suc l) (suc a) b h h' =
    ap (λ (t : ℕ). t * 2 + f (suc a % 2) (b % 2))
      (digits-fuel z f k l (suc a / 2) (b / 2) (omega arith) (omega arith))

or_lowest : (a b : ℕ) → bit_or a b ≡ bit_or (a / 2) (b / 2) * 2 + max (a % 2) (b % 2)
or_lowest zero b = omega (arith, bit_or-bitwise 0 b, bit_or-bitwise 0 (b / 2))
or_lowest (suc a) b = omega (
  arith,
  bit_or-bitwise (suc a) b,
  bit_or-bitwise (suc a / 2) (b / 2),
  digits-fuel (λ t. t) max a (suc a / 2) (suc a / 2) (b / 2) (omega arith) (omega arith),
)

and_lowest : (a b : ℕ) → bit_and a b ≡ bit_and (a / 2) (b / 2) * 2 + min (a % 2) (b % 2)
and_lowest zero b = omega (arith, bit_and-bitwise 0 b, bit_and-bitwise 0 (b / 2))
and_lowest (suc a) b = omega (
  arith,
  bit_and-bitwise (suc a) b,
  bit_and-bitwise (suc a / 2) (b / 2),
  digits-fuel (λ t. 0) min a (suc a / 2) (suc a / 2) (b / 2) (omega arith) (omega arith),
)

and_zero_below : (bound a : ℕ) → a ≤ bound → bit_and a 0 ≡ 0
and_zero_below bound zero h = refl
and_zero_below zero (suc a) h = absurd (omega arith)
and_zero_below (suc bound) (suc a) h =
    omega (arith, and_lowest (suc a) 0, and_zero_below bound (suc a / 2) (omega arith))

double-pow : (q k : ℕ) → q * 2 ^ suc k ≡ q * 2 ^ k * 2
double-pow q k = omega (arith, ap (λ (t : ℕ). q * t) (pow-suc 2 k))

-- `a | q << k` is a sum where `a` has only `k` bits.
pub or_disjoint : (k a q : ℕ) → a < 2 ^ k → bit_or a (q * 2 ^ k) ≡ a + q * 2 ^ k
or_disjoint zero zero q h = omega (arith, bit_or-bitwise 0 (q * 2 ^ 0))
or_disjoint zero (suc a) q h = absurd (omega arith)
or_disjoint (suc k) a q h = omega (
  arith,
  or_lowest a (q * 2 ^ suc k),
  double-pow q k,
  pow-suc 2 k,
  ap (λ (t : ℕ). bit_or (a / 2) t) half,
  or_disjoint k (a / 2) q (omega (arith, pow-suc 2 k)),
)
  where
    half : q * 2 ^ suc k / 2 ≡ q * 2 ^ k
    half = omega (arith, double-pow q k)

and_low_field : (k q r : ℕ) → r < 2 ^ k → bit_and (q * 2 ^ k + r) (2 ^ k - 1) ≡ r
and_low_field zero q r h =
    omega (arith, and_zero_below (q * 2 ^ 0 + r) (q * 2 ^ 0 + r) (omega arith))
and_low_field (suc k) q r h = omega (
  arith,
  and_lowest (q * 2 ^ suc k + r) (2 ^ suc k - 1),
  ap (λ (t : ℕ). bit_and t ((2 ^ suc k - 1) / 2)) upper,
  ap (λ (t : ℕ). bit_and (q * 2 ^ k + r / 2) t) ones,
  and_low_field k q (r / 2) (omega (arith, pow-suc 2 k)),
  double-pow q k,
  pow-suc 2 k,
  one-le-pow k 2 (omega arith),
)
  where
    upper : (q * 2 ^ suc k + r) / 2 ≡ q * 2 ^ k + r / 2
    upper = omega (arith, double-pow q k)

    ones : (2 ^ suc k - 1) / 2 ≡ 2 ^ k - 1
    ones = omega (arith, pow-suc 2 k, one-le-pow k 2 (omega arith))

-- A mask of `k` ones is the remainder by `2 ^ k`.
pub and_mask : (k a : ℕ) → bit_and a (2 ^ k - 1) ≡ a % 2 ^ k
and_mask k a =
    ap (λ (t : ℕ). bit_and t (2 ^ k - 1)) split
    ∙ and_low_field k (a / 2 ^ k) (a % 2 ^ k) (mod-lt a (one-le-pow k 2 (omega arith)))
  where
    split : a ≡ a / 2 ^ k * 2 ^ k + a % 2 ^ k
    split = omega (arith, div-add-mod a (2 ^ k))

or_comm_below : (n a b : ℕ) → a ≤ n → b ≤ n → bit_or a b ≡ bit_or b a
or_comm_below zero zero zero ha hb = refl
or_comm_below zero (suc a) b ha hb = absurd (omega arith)
or_comm_below zero zero (suc b) ha hb = absurd (omega arith)
or_comm_below (suc n) a b ha hb = omega (
  arith,
  or_lowest a b,
  or_lowest b a,
  or_comm_below n (a / 2) (b / 2) (omega arith) (omega arith),
)

-- `q << k | a`, the high field first.
pub or_high_low : (k q a : ℕ) → a < 2 ^ k → bit_or (q * 2 ^ k) a ≡ q * 2 ^ k + a
or_high_low k q a h =
    or_comm_below (q * 2 ^ k + a) (q * 2 ^ k) a (omega arith) (omega arith)
    ∙ or_disjoint k a q h
    ∙ omega arith
