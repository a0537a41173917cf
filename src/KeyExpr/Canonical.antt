-- ===== src/KeyExpr/Canonical.antt =====
-- keyexpr.go's `validate` and the text of a key expression: its chunks are parts of a canonical expression.
use zenoh_go_client.Prelude.{
  ℕ, ◌≡◌, refl, sym, ap, Bool, true, false, not, ◌&&◌, List, [], ◌∷◌, All, ◌⊎◌, inl, inr, ◌==◌,
  arith, Bool-cases, ==_iff,
}
use zenoh_go_client.Codec.Types.{Bytes}
use zenoh_go_client.KeyExpr.{validate, validate_chunks, is_double, is_single, ok}
use zenoh_go_client.KeyExpr.Text.{
  delimiter, is_empty, contains, contains_star, split_seq, join_chunks, put_front,
}
use zenoh_go_client.KeyExpr.Chunks.{NoSlash}
use zenoh_go_client.KeyExpr.Matches.{IsCanonical, is_nil}
use zenoh_go_client.KeyExpr.Intersects.{IsPart}

-- What `validate` accepts.
abbrev pub IsValid : Bytes → Type 0
IsValid s = validate s ≡ ok tt

put_front-is_nil : (b : ℕ) (cs : List Bytes) → is_nil (put_front b cs) ≡ false
unfolding put_front
put_front-is_nil b [] = refl
put_front-is_nil b (c ∷ cs) = refl

split_seq-is_nil : (s : Bytes) → is_nil (split_seq s) ≡ false
unfolding split_seq
split_seq-is_nil [] = refl
split_seq-is_nil (b ∷ s) = elim (Bool-cases (b == delimiter)) [
  | inl e ↦ rw (e) refl
  | inr e ↦ rw (e) (put_front-is_nil b (split_seq s))
]

join-put_front : (b : ℕ) (cs : List Bytes) → join_chunks (put_front b cs) ≡ b ∷ join_chunks cs
unfolding join_chunks put_front
join-put_front b [] = refl
join-put_front b (c ∷ []) = refl
join-put_front b (c ∷ d ∷ cs) = refl

join-slash :
    (cs : List Bytes) → is_nil cs ≡ false → join_chunks ([] ∷ cs) ≡ delimiter ∷ join_chunks cs
unfolding join_chunks
join-slash [] h = absurd (ground arith)
join-slash (c ∷ cs) h = refl

pub join_chunks-split_seq : (s : Bytes) → join_chunks (split_seq s) ≡ s
unfolding split_seq
join_chunks-split_seq [] = unfold join_chunks in refl
join_chunks-split_seq (b ∷ s) =
    let ih = join_chunks-split_seq s in
    elim (Bool-cases (b == delimiter)) [
      | inl e ↦
          rw (e, join-slash (split_seq s) (split_seq-is_nil s), ih)
            (ap (λ d. d ∷ s) (sym (((==_iff b delimiter).0) e)))
      | inr e ↦ rw (e, join-put_front b (split_seq s), ih) refl
    ]

All-put_front :
    (P : Bytes → Type 0) (b : ℕ) (cs : List Bytes)
    → P (b ∷ [])
    → ((c : Bytes) → P c → P (b ∷ c))
    → All P cs
    → All P (put_front b cs)
unfolding put_front
All-put_front P b [] h f hs = (h, tt)
All-put_front P b (c ∷ cs) h f (hc, hs) = (f c hc, hs)

pub split_seq-NoSlash : (s : Bytes) → All NoSlash (split_seq s)
unfolding split_seq
split_seq-NoSlash [] = (tt, tt)
split_seq-NoSlash (b ∷ s) =
    let ih = split_seq-NoSlash s in
    elim (Bool-cases (b == delimiter)) [
      | inl e ↦ rw (e) (tt, ih)
      | inr e ↦ rw (e) (All-put_front NoSlash b (split_seq s) (e, tt) (λ c h. (e, h)) ih)
    ]

-- A text without a byte has chunks without it.
pub split_seq-contains :
    (x : ℕ) (s : Bytes) → contains x s ≡ false → All (λ c. contains x c ≡ false) (split_seq s)
unfolding split_seq contains
split_seq-contains x [] h = (refl, tt)
split_seq-contains x (b ∷ s) h =
    let ih = split_seq-contains x s (ground arith) in
    let hb : (b == x) ≡ false = ground arith in
    elim (Bool-cases (b == delimiter)) [
      | inl e ↦ rw (e) (refl, ih)
      | inr e ↦ rw (e) (
          All-put_front (λ c. contains x c ≡ false) b (split_seq s) (ground arith)
            (λ c hc. ground arith) ih)
    ]

abbrev Sound : Bytes → Type 0
Sound c =
    (is_empty c ≡ false)
    × ((is_double c ≡ true) ⊎ ((is_single c ≡ true) ⊎ (contains_star c ≡ false)))

kind_of :
    (star single double : Bool)
    → (star && (not single && not double)) ≡ false
    → (double ≡ true) ⊎ ((single ≡ true) ⊎ (star ≡ false))
kind_of star single true h = inl refl
kind_of star true false h = inr (inl refl)
kind_of false false false h = inr (inr refl)
kind_of true false false h = absurd (ground arith)

pub validate_chunks-lem :
    (prev : Bytes) (cs : List Bytes)
    → validate_chunks prev cs ≡ ok tt
    → All Sound cs × IsCanonical (prev ∷ cs)
unfolding validate_chunks
validate_chunks-lem prev [] h = (tt, tt)
validate_chunks-lem prev (c ∷ cs) h =
    let ne : is_empty c ≡ false = ground arith in
    let kind : (contains_star c && (not (is_single c) && not (is_double c))) ≡ false =
      ground arith in
    let dd : (is_double prev && is_double c) ≡ false = ground arith in
    let ds : (is_double prev && is_single c) ≡ false = ground arith in
    let (sound, can) = validate_chunks-lem c cs (ground arith) in
    (
      ((ne, kind_of (contains_star c) (is_single c) (is_double c) kind), sound),
      ((λ d. (ground arith, ground arith)), can),
    )

parts : (cs : List Bytes) → All Sound cs → All NoSlash cs → All IsPart cs
parts [] h g = tt
parts (c ∷ cs) (hc, h) (gc, g) = (((hc.0, gc), hc.1), parts cs h g)

tail-IsCanonical : (prev : Bytes) (cs : List Bytes) → IsCanonical (prev ∷ cs) → IsCanonical cs
tail-IsCanonical prev [] h = tt
tail-IsCanonical prev (c ∷ cs) h = h.1

-- The chunks of a text that `validate` accepts are parts of a canonical expression.
pub validate-lem : (s : Bytes) → IsValid s → All IsPart (split_seq s) × IsCanonical (split_seq s)
unfolding validate
validate-lem s h =
    let chunks = validate_chunks-lem [] (split_seq s) (ground arith) in
    (parts (split_seq s) chunks.0 (split_seq-NoSlash s), tail-IsCanonical [] (split_seq s) chunks.1)
