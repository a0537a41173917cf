-- ===== src/KeyExpr/Complete.antt =====
-- intersect.go on lists of chunks: two canonical expressions with a common key intersect.
use zenoh_go_client.Prelude.{
  ℕ, zero, suc, ◌+◌, ◌<◌, ◌≡◌, refl, sym, ◌∙◌, Bool, true, false, List, [], ◌∷◌, length, ◌⊎◌, inl,
  inr, bytes_eq, bytes_eq_refl, subst, arith, Bool-cases,
}
use zenoh_go_client.Codec.Types.{Bytes}
use zenoh_go_client.KeyExpr.{is_double, is_single, single_chunk_intersect}
use zenoh_go_client.KeyExpr.Matches.{
  Matches, done, one, stop, absorb, IsCanonical, IsCanonical-tail, after_double, Matches-nil,
}
use zenoh_go_client.KeyExpr.Intersects.{chunks_intersect, double_branch, double_less}

abbrev Common : List Bytes → List Bytes → Type 0
Common as' bs = (k : List Bytes) × Matches as' k × Matches bs k

-- Chunks that match one name intersect.
pub same_name :
    (ca cb x : Bytes)
    → (ca ≡ x) ⊎ (is_single ca ≡ true)
    → (cb ≡ x) ⊎ (is_single cb ≡ true)
    → single_chunk_intersect ca cb ≡ true
unfolding single_chunk_intersect
same_name ca cb x (inl e) (inl e') =
    let same = subst (λ c. bytes_eq ca c ≡ true) (e ∙ sym e') (bytes_eq_refl ca) in ground arith
same_name ca cb x (inl e) (inr s) = ground arith
same_name ca cb x (inr s) fb = ground arith

single_step :
    {ca cb : Bytes} {ra rb k : List Bytes}
    → is_double ca ≡ false
    → is_double cb ≡ false
    → Matches (ca ∷ ra) k
    → Matches (cb ∷ rb) k
    → (single_chunk_intersect ca cb ≡ true) × Common ra rb
single_step {ca} {cb} {k = x ∷ k} n m (one _ fa ma) (one _ fb mb) =
    (same_name ca cb x fa fb, (k, ma, mb))
single_step n m (stop d ma) mb = absurd (ground arith)
single_step n m (absorb x d ma) mb = absurd (ground arith)
single_step n m (one _ _ _) (stop d mb) = absurd (ground arith)
single_step n m (one _ _ _) (absorb _ d mb) = absurd (ground arith)

double_nil :
    (ca : Bytes) (ra : List Bytes)
    → is_double ca ≡ true
    → IsCanonical (ca ∷ ra)
    → Matches (ca ∷ ra) []
    → ra ≡ []
double_nil ca ra d can (stop d' m) = after_double ca ra d can m

below_double_true :
    (ca : Bytes) (ra : List Bytes) (cb : Bytes) (rb : List Bytes) (end_a end_b : Bool)
    → is_double ca ≡ true
    → IsCanonical (ca ∷ ra)
    → (Common ra (cb ∷ rb) → end_a ≡ true)
    → (Common (ca ∷ ra) rb → end_b ≡ true)
    → Common (ca ∷ ra) (cb ∷ rb)
    → double_branch ra rb end_a end_b ≡ true
below_double_true ca [] cb rb end_a end_b d can fa fb m = refl
below_double_true ca (da ∷ ra) cb [] end_a end_b d can fa fb (k, ma, mb) =
    elim (double_less d ma mb) [
      | inl c ↦ fa c
      | inr ([], na, done) ↦ absurd (let e = double_nil ca (da ∷ ra) d can na in ground arith)
      | inr (x ∷ l, na, m) ↦ elim m [ ]
    ]
below_double_true ca (da ∷ ra) cb (db ∷ rb) true end_b d can fa fb (k, ma, mb) = refl
below_double_true ca (da ∷ ra) cb (db ∷ rb) false end_b d can fa fb (k, ma, mb) =
    elim (double_less d ma mb) [ inl c ↦ absurd (let e = fa c in ground arith) | inr c ↦ fb c ]

-- On fuel above the number of chunks, the loop answers true where a key is common.
pub chunks_intersect-Common :
    (f : ℕ) (as' bs : List Bytes)
    → length as' + length bs < f
    → IsCanonical as'
    → IsCanonical bs
    → Common as' bs
    → chunks_intersect f as' bs ≡ true
unfolding chunks_intersect
chunks_intersect-Common zero as' bs lt cana canb m = absurd (ground arith)
chunks_intersect-Common (suc f) [] bs lt cana canb ([], done, mb) = Matches-nil bs canb mb
chunks_intersect-Common (suc f) [] bs lt cana canb (x ∷ k, ma, mb) = elim ma [ ]
chunks_intersect-Common (suc f) (ca ∷ ra) [] lt cana canb (x ∷ k, ma, mb) = elim mb [ ]
chunks_intersect-Common (suc f) (ca ∷ ra) [] lt cana canb ([], ma, done) =
    Matches-nil (ca ∷ ra) cana ma
chunks_intersect-Common (suc f) (ca ∷ ra) (cb ∷ rb) lt cana canb (k, ma, mb) =
    let can_ra = IsCanonical-tail ca ra cana in
    let can_rb = IsCanonical-tail cb rb canb in
    let end_a : Common ra (cb ∷ rb) → _ =
      λ c. chunks_intersect-Common f ra (cb ∷ rb) (omega arith) can_ra canb c in
    let end_b : Common (ca ∷ ra) rb → _ =
      λ c. chunks_intersect-Common f (ca ∷ ra) rb (omega arith) cana can_rb c in
    let both : Common ra rb → _ =
      λ c. chunks_intersect-Common f ra rb (omega arith) can_ra can_rb c in
    elim (Bool-cases (is_double ca)) [
      | inl d ↦
          let t = below_double_true ca ra cb rb _ _ d cana end_a end_b (k, ma, mb) in ground arith
      | inr n ↦ elim (Bool-cases (is_double cb)) [
        | inl d ↦
            let t =
              below_double_true cb rb ca ra _ _ d canb (λ (k, x, y). end_b (k, y, x))
                (λ (k, x, y). end_a (k, y, x)) (k, mb, ma) in
            ground arith
        | inr m ↦ let (t, rest) = single_step n m ma mb in let u = both rest in ground arith
      ]
    ]
