-- ===== src/Wire/Fields.antt =====
-- Fields that several messages share: a pointer that may be nil, whose presence is a header flag.
use zenoh_go_client.Prelude.{◌≡◌, refl, Bool, true, false, Option, none, some}
use zenoh_go_client.Codec.Types.{
  Bytes, Written, written, failed, and_then, Parser, Result, ok, err, ◌>>=◌, pure, Encoder, skip,
  when, optional,
}
use zenoh_go_client.Codec.Carries.{Carries, Carries-last, Carries-skip}

module _ {ℓ} {A : Type ℓ} where
  -- `p != nil`
  abbrev pub is_some : Option A → Bool
  is_some none = false
  is_some (some a) = true

  -- `if p != nil { p.EncodeTo(w) }`
  unfoldable pub when_some : Option A → (A → Encoder) → Encoder
  when_some none e = skip
  when_some (some a) e = e a

  -- `if flag { v, err := decode(r); p = &v }`
  unfoldable pub optional_some : Bool → Parser A → Parser (Option A)
  optional_some flag p = optional flag none (p >>= λ a. pure (some a))

  abbrev pub OnSome {κ} : (A → Type κ) → Option A → Type κ
  OnSome P none = Unit {κ}
  OnSome P (some a) = P a

  pub Carries-some {κ} :
      (P : A → Type κ) (o : Option A) {e : A → Encoder} {p : Parser A}
      → ((a : A) → P a → Carries (e a) p a)
      → OnSome P o
      → Carries (when_some o e) (optional_some (is_some o) p) o
  unfolding when_some optional_some when optional
  Carries-some P none c h = Carries-skip none
  Carries-some P (some a) c h = Carries-last some (c a h)

-- A result that reads nothing.
unfoldable pub lift {ℓ} : {A : Type ℓ} → Result A → Parser A
lift (ok a) r = ok (a, r)
lift (err e) r = err e

-- A last field that a computation without bytes turns into the value.
pub Carries-lift {ℓ κ μ} :
    {A : Type ℓ} {B : Type κ} {C : Type μ} {e : Encoder} {p : Parser A} (f : A → Result B)
    (g : B → C) {a : A} {b : B}
    → Carries e p a
    → f a ≡ ok b
    → Carries e (p >>= λ x. (lift (f x) >>= λ y. pure (g y))) (g b)
unfolding ◌>>=◌ pure and_then lift
Carries-lift f g c h = record {
  bytes = c.bytes;
  writes = c.writes;
  reads = λ rest. rw (c.reads rest, h) refl;
}

-- `w.Bytes()`
abbrev pub bytes_of : Written → Bytes
bytes_of (written b) = b
bytes_of (failed e b) = b
