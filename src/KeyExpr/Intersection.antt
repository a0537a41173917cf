-- ===== src/KeyExpr/Intersection.antt =====
-- intersect.go: what `Intersects` answers, on texts that `validate` accepts.
use zenoh_go_client.Prelude.{
  ℕ, ◌+◌, ◌≤◌, ◌≡◌, refl, sym, ap, ◌∙◌, true, false, not, ◌&&◌, List, [], ◌∷◌, length,
  length-append, All, inl, inr, ◌↔◌, bytes_eq, subst, arith, Bool-cases, bytes_eq→eq, bytes_eq_refl,
}
use zenoh_go_client.Codec.Types.{Bytes}
use zenoh_go_client.KeyExpr.{is_double, is_single, chunk_intersect, intersects, has_wildcard}
use zenoh_go_client.KeyExpr.Text.{
  single_wild, double_wild, contains, contains_star, split_seq, join_chunks,
}
use zenoh_go_client.KeyExpr.Chunks.{IsChunk}
use zenoh_go_client.KeyExpr.Matches.{Matches, one, stop, absorb}
use zenoh_go_client.KeyExpr.Intersects.{
  IsPart, Meet, matched, chunks_intersect, chunks_intersect-Meet, chunk_intersect-join_chunks,
}
use zenoh_go_client.KeyExpr.Complete.{chunks_intersect-Common}
use zenoh_go_client.KeyExpr.Canonical.{
  IsValid, validate-lem, join_chunks-split_seq, split_seq-contains,
}

chunks : (cs : List Bytes) → All IsPart cs → All IsChunk cs
chunks [] h = tt
chunks (c ∷ cs) (hc, h) = (hc.0, chunks cs h)

length-join_chunks : (cs : List Bytes) → All IsChunk cs → length cs ≤ length (join_chunks cs)
unfolding join_chunks
length-join_chunks [] h = omega arith
length-join_chunks ([] ∷ cs) (hc, h) = absurd (ground arith)
length-join_chunks ((b ∷ c) ∷ []) (hc, h) = omega arith
length-join_chunks ((b ∷ c) ∷ d ∷ cs) (hc, h) =
    let ih = length-join_chunks (d ∷ cs) h in
    let split = length-append (b ∷ c) (b'/' ∷ join_chunks (d ∷ cs)) in ground arith

no_star : (c : Bytes) → contains_star c ≡ false → (is_double c ≡ false) × (is_single c ≡ false)
unfolding contains_star contains
no_star c h = elim (Bool-cases (is_double c)) [
  | inl e ↦
      absurd (
        let t = subst (λ d. contains_star d ≡ false) (bytes_eq→eq c double_wild e) h in
        ground arith)
  | inr e ↦ elim (Bool-cases (is_single c)) [
    | inl t ↦ absurd (
        let u = subst (λ d. contains_star d ≡ false) (bytes_eq→eq c single_wild t) h in
        ground arith)
    | inr t ↦ (e, t)
  ]
]

-- Chunks without a wildcard match themselves alone.
literal : (cs k : List Bytes) → All (λ c. contains_star c ≡ false) cs → Matches cs k → cs ≡ k
literal [] [] h m = refl
literal [] (x ∷ k) h m = elim m [ ]
literal (c ∷ cs) k (hc, h) (stop d m) = absurd (let (e, t) = no_star c hc in ground arith)
literal (c ∷ cs) k (hc, h) (absorb x d m) = absurd (let (e, t) = no_star c hc in ground arith)
literal (c ∷ cs) (x ∷ k) (hc, h) (one n (inl e) m) = let ih = literal cs k h m in cc
literal (c ∷ cs) k (hc, h) (one n (inr s) m) = absurd (let (e, t) = no_star c hc in ground arith)

-- `chunk_intersect` on texts runs as the loop on their chunks.
on_chunks :
    (f : ℕ) (k other : Bytes)
    → IsValid k
    → IsValid other
    → chunk_intersect f k other ≡ chunks_intersect f (split_seq k) (split_seq other)
on_chunks f k other hk ho =
    let joined =
      chunk_intersect-join_chunks f (split_seq k) (split_seq other)
        (chunks (split_seq k) (validate-lem k hk).0)
        (chunks (split_seq other) (validate-lem other ho).0) in
    sym (
      ap (λ t. chunk_intersect f t (join_chunks (split_seq other))) (join_chunks-split_seq k)
      ∙ ap (λ t. chunk_intersect f k t) (join_chunks-split_seq other))
    ∙ joined

length-split_seq : (s : Bytes) → IsValid s → length (split_seq s) ≤ length s
length-split_seq s h =
    subst (λ t. length (split_seq s) ≤ length t) (join_chunks-split_seq s)
      (length-join_chunks (split_seq s) (chunks (split_seq s) (validate-lem s h).0))

wild_intersects :
    (k other : Bytes)
    → IsValid k
    → IsValid other
    → (chunk_intersect (length k + length other + 1) k other ≡ true)
      ↔ Meet (split_seq k) (split_seq other)
wild_intersects k other hk ho =
    let fuel = length k + length other + 1 in
    let same = on_chunks fuel k other hk ho in
    let (pk, ck) = validate-lem k hk in
    let (po, co) = validate-lem other ho in
    let lk = length-split_seq k hk in
    let lo = length-split_seq other ho in
    (
      (λ e. chunks_intersect-Meet fuel (split_seq k) (split_seq other) pk po (sym same ∙ e)),
      (λ (key, names, m).
          same
          ∙ chunks_intersect-Common fuel (split_seq k) (split_seq other) (omega arith) ck co
              (key, m.0, m.1)),
    )

-- The texts without a wildcard.
plain_intersects :
    (k other : Bytes)
    → IsValid k
    → IsValid other
    → has_wildcard k ≡ false
    → has_wildcard other ≡ false
    → (bytes_eq k other ≡ true) ↔ Meet (split_seq k) (split_seq other)
unfolding has_wildcard contains_star
plain_intersects k other hk ho nk nother = (
  (λ e.
      let (key, names, m) = matched (split_seq k) (validate-lem k hk).0 in
      (key, names, (m, subst (λ t. Matches (split_seq t) key) (bytes_eq→eq k other e) m))),
  (λ (key, names, (mk, mo)).
      let ek = literal (split_seq k) key (split_seq-contains b'*' k nk) mk in
      let eo = literal (split_seq other) key (split_seq-contains b'*' other nother) mo in
      let same =
        sym (join_chunks-split_seq k)
        ∙ ap join_chunks (ek ∙ sym eo)
        ∙ join_chunks-split_seq other in
      subst (λ t. bytes_eq k t ≡ true) same (bytes_eq_refl k)),
)

-- On two texts that `validate` accepts, `Intersects` answers true exactly when a concrete key, a
-- list of names, matches both.
pub intersects-Meet :
    (k other : Bytes)
    → IsValid k
    → IsValid other
    → (intersects k other ≡ true) ↔ Meet (split_seq k) (split_seq other)
unfolding intersects
intersects-Meet k other hk ho =
    elim (Bool-cases (not (has_wildcard k) && not (has_wildcard other))) [
      | inl e ↦ rw (e) (plain_intersects k other hk ho (ground arith) (ground arith))
      | inr e ↦ rw (e) (wild_intersects k other hk ho)
    ]
