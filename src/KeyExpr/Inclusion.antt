-- ===== src/KeyExpr/Inclusion.antt =====
-- include.go: when `Includes` answers true, every key of the other expression is a key of this one.
use zenoh_go_client.Prelude.{
  ℕ, zero, suc, ◌+◌, ◌≡◌, refl, sym, ap, ◌∙◌, Bool, true, false, not, List, [], ◌∷◌, length, All,
  ◌⊎◌, inl, inr, bytes_eq, bytes_eq→eq, if◌then◌else◌, subst, arith, Bool-cases,
}
use zenoh_go_client.Codec.Types.{Bytes}
use zenoh_go_client.KeyExpr.{is_double, is_single, chunk_includes, ltr_includes, includes}
use zenoh_go_client.KeyExpr.Text.{is_empty, split_seq, split_chunk, join_chunks}
use zenoh_go_client.KeyExpr.Chunks.{IsChunk, split_chunk-join_chunks, is_empty-join_chunks}
use zenoh_go_client.KeyExpr.Matches.{Matches, one, stop, absorb, is_nil, double-Matches}
use zenoh_go_client.KeyExpr.Intersects.{IsPart}
use zenoh_go_client.KeyExpr.Canonical.{IsValid, validate-lem, join_chunks-split_seq}

-- `ltr_includes` on lists of chunks.
unfoldable chunks_include : ℕ → List Bytes → List Bytes → Bool
chunks_include zero ls rs = false
chunks_include (suc fuel) [] rs = false
chunks_include (suc fuel) (l ∷ ls) [] =
    let rest = chunks_include fuel ls [] in
    if is_double l then (if is_nil ls then true else rest) else false
chunks_include (suc fuel) (l ∷ ls) (r ∷ rs) =
    let drop_left = chunks_include fuel ls (r ∷ rs) in
    let drop_right = chunks_include fuel (l ∷ ls) rs in
    let both = chunks_include fuel ls rs in
    if is_double l
    then (if is_nil ls
        then true
        else if drop_left
        then true
        else if is_nil rs
        then false
        else drop_right)
    else if is_double r
    then false
    else if not (chunk_includes l r)
    then false
    else if is_nil ls
    then is_nil rs
    else both

split_nil : split_chunk (join_chunks []) ≡ ([], [])
unfolding split_chunk join_chunks
split_nil = refl

nothing_includes : (c : Bytes) → is_empty c ≡ false → chunk_includes [] c ≡ false
unfolding chunk_includes bytes_eq
nothing_includes [] h = absurd (ground arith)
nothing_includes (b ∷ c) h = refl

not_double_nil : is_double [] ≡ false
unfolding bytes_eq
not_double_nil = refl

ltr_includes-join_chunks :
    (f : ℕ) (ls rs : List Bytes)
    → All IsChunk ls
    → All IsChunk rs
    → ltr_includes f (join_chunks ls) (join_chunks rs) ≡ chunks_include f ls rs
unfolding ltr_includes chunks_include
ltr_includes-join_chunks zero ls rs hl hr = refl
ltr_includes-join_chunks (suc f) [] [] hl hr = unfold join_chunks split_chunk bytes_eq in refl
ltr_includes-join_chunks (suc f) [] ((b ∷ c) ∷ rs) hl (hc, hr) =
    rw
      (
        split_nil,
        split_chunk-join_chunks (b ∷ c) rs hc.1,
        not_double_nil,
        nothing_includes (b ∷ c) hc.0,
      )
      (ground arith)
ltr_includes-join_chunks (suc f) [] ([] ∷ rs) hl (hc, hr) = absurd (ground arith)
ltr_includes-join_chunks (suc f) (l ∷ ls) [] (hl, hls) hr =
    rw
      (
        split_chunk-join_chunks l ls hl.1,
        is_empty-join_chunks ls hls,
        split_nil,
        ltr_includes-join_chunks f ls [] hls tt,
      )
      (ground arith)
ltr_includes-join_chunks (suc f) (l ∷ ls) (r ∷ rs) (hl, hls) (hr, hrs) =
    rw
      (
        split_chunk-join_chunks l ls hl.1,
        split_chunk-join_chunks r rs hr.1,
        is_empty-join_chunks ls hls,
        is_empty-join_chunks rs hrs,
        hr.0,
        ltr_includes-join_chunks f ls (r ∷ rs) hls (hr, hrs),
        ltr_includes-join_chunks f (l ∷ ls) rs (hl, hls) hrs,
        ltr_includes-join_chunks f ls rs hls hrs,
      )
      refl

-- Below a `**` on the left, a key of the right side.
absorbs :
    {l r : Bytes} {ls rs k : List Bytes}
    → is_double l ≡ true
    → ((m : List Bytes) → Matches rs m → Matches (l ∷ ls) m)
    → Matches (r ∷ rs) k
    → Matches (l ∷ ls) k
absorbs d f (one n e m) = absorb _ d (f _ m)
absorbs d f (stop e m) = f _ m
absorbs d f (absorb x e m) = absorb x d (absorbs d f m)

-- A chunk that includes another matches the names that the other matches.
chunk_includes-one :
    {l r x : Bytes} {ls k : List Bytes}
    → is_double l ≡ false
    → chunk_includes l r ≡ true
    → (r ≡ x) ⊎ (is_single r ≡ true)
    → Matches ls k
    → Matches (l ∷ ls) (x ∷ k)
unfolding chunk_includes
chunk_includes-one {l} {r} {x} n e fits m = elim (Bool-cases (bytes_eq l r)) [
  | inl same ↦
      one n (subst (λ c. (c ≡ x) ⊎ (is_single c ≡ true)) (sym (bytes_eq→eq l r same)) fits) m
  | inr differ ↦ one n (inr (ground arith)) m
]

-- The branch of a `**` on the left.
double_left :
    {l r : Bytes} {rs k : List Bytes} (ls : List Bytes) (drop_left drop_right : Bool)
    → is_double l ≡ true
    → (drop_left ≡ true → Matches ls k)
    → (drop_right ≡ true → (m : List Bytes) → Matches rs m → Matches (l ∷ ls) m)
    → (if is_nil ls
        then true
        else if drop_left
        then true
        else if is_nil rs
        then false
        else drop_right)
      ≡ true
    → Matches (r ∷ rs) k
    → Matches (l ∷ ls) k
double_left {l} {k = k} [] drop_left drop_right d f g e m = double-Matches l k d
double_left (c ∷ ls) true drop_right d f g e m = stop d (f refl)
double_left {rs = []} (c ∷ ls) false drop_right d f g e m = absurd (ground arith)
double_left {rs = r' ∷ rs} (c ∷ ls) false drop_right d f g e m = absorbs d (g e) m

-- The branch of two chunks that are not `**`.
single_left :
    {l r : Bytes} {rs k : List Bytes} (ls : List Bytes) (both : Bool)
    → is_double l ≡ false
    → is_double r ≡ false
    → chunk_includes l r ≡ true
    → (both ≡ true → (m : List Bytes) → Matches rs m → Matches ls m)
    → (if is_nil ls then is_nil rs else both) ≡ true
    → Matches (r ∷ rs) k
    → Matches (l ∷ ls) k
single_left ls both n nr c f e (stop d m) = absurd (ground arith)
single_left ls both n nr c f e (absorb x d m) = absurd (ground arith)
single_left {rs = []} [] both n nr c f e (one _ fits m) = chunk_includes-one n c fits m
single_left {rs = r' ∷ rs} [] both n nr c f e (one _ fits m) = absurd (ground arith)
single_left (l' ∷ ls) both n nr c f e (one _ fits m) = chunk_includes-one n c fits (f e _ m)

chunks_include-Matches :
    (f : ℕ) (ls rs k : List Bytes) → chunks_include f ls rs ≡ true → Matches rs k → Matches ls k
unfolding chunks_include
chunks_include-Matches zero ls rs k e m = absurd (ground arith)
chunks_include-Matches (suc f) [] rs k e m = absurd (ground arith)
chunks_include-Matches (suc f) (l ∷ []) [] k e m = double-Matches l k (ground arith)
chunks_include-Matches (suc f) (l ∷ l' ∷ ls) [] k e m =
    stop (ground arith) (chunks_include-Matches f (l' ∷ ls) [] k (ground arith) m)
chunks_include-Matches (suc f) (l ∷ ls) (r ∷ rs) k e m = elim (Bool-cases (is_double l)) [
  | inl d ↦
      double_left ls _ _ d (λ t. chunks_include-Matches f ls (r ∷ rs) k t m)
        (λ t n h. chunks_include-Matches f (l ∷ ls) rs n t h) (ground arith) m
  | inr n ↦ elim (Bool-cases (is_double r)) [
    | inl d ↦ absurd (ground arith)
    | inr nr ↦ elim (Bool-cases (chunk_includes l r)) [
      | inl c ↦
          single_left ls _ n nr c (λ t j h. chunks_include-Matches f ls rs j t h) (ground arith) m
      | inr c ↦ absurd (ground arith)
    ]
  ]
]

All-IsChunk : (cs : List Bytes) → All IsPart cs → All IsChunk cs
All-IsChunk [] h = tt
All-IsChunk (c ∷ cs) (hc, h) = (hc.0, All-IsChunk cs h)

-- On two texts that `validate` accepts: when `Includes` answers true, every key that matches the
-- other expression matches this one.
pub includes-Matches :
    (k other : Bytes) (key : List Bytes)
    → IsValid k
    → IsValid other
    → includes k other ≡ true
    → Matches (split_seq other) key
    → Matches (split_seq k) key
unfolding includes
includes-Matches k other key hk ho e m = elim (Bool-cases (bytes_eq k other)) [
  | inl same ↦ subst (λ t. Matches (split_seq t) key) (sym (bytes_eq→eq k other same)) m
  | inr differ ↦
      let fuel = length k + length other + 1 in
      let joined =
        ltr_includes-join_chunks fuel (split_seq k) (split_seq other)
          (All-IsChunk (split_seq k) (validate-lem k hk).0)
          (All-IsChunk (split_seq other) (validate-lem other ho).0) in
      let same =
        ap (λ t. ltr_includes fuel t (join_chunks (split_seq other))) (join_chunks-split_seq k)
        ∙ ap (λ t. ltr_includes fuel k t) (join_chunks-split_seq other) in
      let answer : ltr_includes fuel k other ≡ true = ground arith in
      chunks_include-Matches fuel (split_seq k) (split_seq other) key (sym joined ∙ same ∙ answer) m
]
