-- ===== src/KeyExpr/Intersects.antt =====
-- intersect.go on lists of chunks: the text version does the same, and an intersection has a key.
use zenoh_go_client.Prelude.{
  ℕ, zero, suc, ◌≡◌, refl, Bool, true, false, ◌||◌, List, [], ◌∷◌, All, ◌⊎◌, inl, inr, bytes_eq,
  bytes_eq→eq, subst, if◌then◌else◌, arith, Bool-cases,
}
use zenoh_go_client.Codec.Types.{Bytes}
use zenoh_go_client.KeyExpr.{is_double, is_single, single_chunk_intersect, chunk_intersect}
use zenoh_go_client.KeyExpr.Text.{contains_star, contains, join_chunks}
use zenoh_go_client.KeyExpr.Chunks.{
  IsChunk, split_chunk-join_chunks, is_empty-join_chunks, is_double-join_chunks,
}
use zenoh_go_client.KeyExpr.Matches.{
  Matches, done, one, stop, absorb, is_nil, is_double_alone, double-Matches,
}

unfoldable pub chunks_intersect : ℕ → List Bytes → List Bytes → Bool
chunks_intersect zero as' bs = false
chunks_intersect (suc fuel) [] bs = is_nil bs || is_double_alone bs
chunks_intersect (suc fuel) (ca ∷ ra) [] = is_double_alone (ca ∷ ra)
chunks_intersect (suc fuel) (ca ∷ ra) (cb ∷ rb) =
    let end_a = chunks_intersect fuel ra (cb ∷ rb) in
    let end_b = chunks_intersect fuel (ca ∷ ra) rb in
    let both = chunks_intersect fuel ra rb in
    if is_double ca
    then (if is_nil ra then true else if is_nil rb then end_a else if end_a then true else end_b)
    else if is_double cb
    then (if is_nil rb then true else if is_nil ra then end_b else if end_b then true else end_a)
    else if single_chunk_intersect ca cb
    then both
    else false

-- The text version, on joined chunks, runs as the version on chunks.
pub chunk_intersect-join_chunks :
    (f : ℕ) (as' bs : List Bytes)
    → All IsChunk as'
    → All IsChunk bs
    → chunk_intersect f (join_chunks as') (join_chunks bs) ≡ chunks_intersect f as' bs
unfolding chunk_intersect chunks_intersect
chunk_intersect-join_chunks zero as' bs ha hb = refl
chunk_intersect-join_chunks (suc f) [] bs ha hb =
    unfold join_chunks in rw (is_empty-join_chunks bs hb, is_double-join_chunks bs) refl
chunk_intersect-join_chunks (suc f) (ca ∷ ra) [] ha hb =
    unfold join_chunks in
    rw (is_empty-join_chunks (ca ∷ ra) ha, is_double-join_chunks (ca ∷ ra)) (ground arith)
chunk_intersect-join_chunks (suc f) (ca ∷ ra) (cb ∷ rb) (ha, has) (hb, hbs) =
    rw
      (
        split_chunk-join_chunks ca ra ha.1,
        split_chunk-join_chunks cb rb hb.1,
        is_empty-join_chunks (ca ∷ ra) (ha, has),
        is_empty-join_chunks (cb ∷ rb) (hb, hbs),
        is_empty-join_chunks ra has,
        is_empty-join_chunks rb hbs,
        chunk_intersect-join_chunks f ra (cb ∷ rb) has (hb, hbs),
        chunk_intersect-join_chunks f (ca ∷ ra) rb (ha, has) hbs,
        chunk_intersect-join_chunks f ra rb has hbs,
      )
      refl

-- A chunk of a concrete key.
abbrev pub IsName : Bytes → Type 0
IsName x = IsChunk x × (contains_star x ≡ false)

-- A chunk of a valid key expression: `**`, `*` or a name.
abbrev pub IsPart : Bytes → Type 0
IsPart c = IsChunk c × ((is_double c ≡ true) ⊎ ((is_single c ≡ true) ⊎ (contains_star c ≡ false)))

abbrev pub Meet : List Bytes → List Bytes → Type 0
Meet as' bs = (k : List Bytes) × All IsName k × (Matches as' k × Matches bs k)

abbrev some_name : Bytes
some_name = b'x' ∷ []

-- A chunk that is not `**` matches some name.
pub named :
    (c : Bytes)
    → IsPart c
    → is_double c ≡ false
    → (x : Bytes) × IsName x × ((c ≡ x) ⊎ (is_single c ≡ true))
unfolding contains_star contains
named c (hc, kind) n = elim (Bool-cases (is_single c)) [
  | inl s ↦ (some_name, ((refl, (refl, tt)), refl), inr s)
  | inr s ↦ elim kind [
    | inl d ↦ absurd (ground arith)
    | inr (inl t) ↦ absurd (ground arith)
    | inr (inr star) ↦ (c, (hc, star), inl refl)
  ]
]

-- A pattern matches some key.
pub matched : (cs : List Bytes) → All IsPart cs → (k : List Bytes) × All IsName k × Matches cs k
matched [] h = ([], tt, done)
matched (c ∷ cs) (hc, h) =
    let (k, names, m) = matched cs h in
    elim (Bool-cases (is_double c)) [
      | inl d ↦ (k, names, stop d m)
      | inr n ↦ let (x, name, e) = named c hc n in (x ∷ k, (name, names), one n e m)
    ]

-- One more chunk of the other side below a `**`.
pub double_more :
    (ca : Bytes) (ra : List Bytes) (cb : Bytes) (rb : List Bytes)
    → is_double ca ≡ true
    → IsPart cb
    → Meet (ca ∷ ra) rb
    → Meet (ca ∷ ra) (cb ∷ rb)
double_more ca ra cb rb h hb (k, names, (ma, mb)) = elim (Bool-cases (is_double cb)) [
  | inl d ↦ (k, names, (ma, stop d mb))
  | inr n ↦ let (x, name, e) = named cb hb n in (x ∷ k, (name, names), (absorb x h ma, one n e mb))
]

-- Below a `**`, a common key leaves a common key when one side drops its first chunk.
pub double_less :
    {ca : Bytes} {ra : List Bytes} {cb : Bytes} {rb : List Bytes} {k : List Bytes}
    → is_double ca ≡ true
    → Matches (ca ∷ ra) k
    → Matches (cb ∷ rb) k
    → ((l : List Bytes) × Matches ra l × Matches (cb ∷ rb) l)
      ⊎ ((l : List Bytes) × Matches (ca ∷ ra) l × Matches rb l)
double_less h (one n e ma) mb = absurd (ground arith)
double_less {k = k} h (stop d ma) mb = inl (k, ma, mb)
double_less h (absorb x d ma) (one n e mb) = inr (_, ma, mb)
double_less h (absorb x d ma) (stop d' mb) = inr (_, absorb x d ma, mb)
double_less h (absorb x d ma) (absorb _ d' mb) = double_less h ma mb

pub Meet-sym : {as' bs : List Bytes} → Meet as' bs → Meet bs as'
Meet-sym (k, names, (ma, mb)) = (k, names, (mb, ma))

-- Two chunks that are not `**` and intersect match one name.
pub single-Meet :
    (ca : Bytes) (ra : List Bytes) (cb : Bytes) (rb : List Bytes)
    → IsPart ca
    → IsPart cb
    → is_double ca ≡ false
    → is_double cb ≡ false
    → single_chunk_intersect ca cb ≡ true
    → Meet ra rb
    → Meet (ca ∷ ra) (cb ∷ rb)
unfolding single_chunk_intersect
single-Meet ca ra cb rb ha hb na nb e (k, names, (ma, mb)) = elim (Bool-cases (bytes_eq ca cb)) [
  | inl same ↦
      let (x, name, fa) = named ca ha na in
      (
        x ∷ k,
        (name, names),
        (
          one na fa ma,
          one nb (subst (λ c. (c ≡ x) ⊎ (is_single c ≡ true)) (bytes_eq→eq ca cb same) fa) mb,
        ),
      )
  | inr differ ↦ elim (Bool-cases (is_single ca)) [
    | inl s ↦
        let (x, name, fb) = named cb hb nb in
        (x ∷ k, (name, names), (one na (inr s) ma, one nb fb mb))
    | inr s ↦
        let (x, name, fa) = named ca ha na in
        (x ∷ k, (name, names), (one na fa ma, one nb (inr (ground arith)) mb))
  ]
]

-- The branch of a `**` on one side, as the code decides it.
abbrev pub double_branch : List Bytes → List Bytes → Bool → Bool → Bool
double_branch ra rb end_a end_b =
    if is_nil ra then true else if is_nil rb then end_a else if end_a then true else end_b

pub below_double :
    (ca : Bytes) (ra : List Bytes) (cb : Bytes) (rb : List Bytes) (end_a end_b : Bool)
    → is_double ca ≡ true
    → IsPart cb
    → All IsPart rb
    → (end_a ≡ true → Meet ra (cb ∷ rb))
    → (end_b ≡ true → Meet (ca ∷ ra) rb)
    → double_branch ra rb end_a end_b ≡ true
    → Meet (ca ∷ ra) (cb ∷ rb)
below_double ca [] cb rb end_a end_b d hb hbs fa fb e =
    let (k, names, m) = matched (cb ∷ rb) (hb, hbs) in (k, names, (double-Matches ca k d, m))
below_double ca (da ∷ ra) cb [] end_a end_b d hb hbs fa fb e =
    let (k, names, (ma, mb)) = fa e in (k, names, (stop d ma, mb))
below_double ca (da ∷ ra) cb (db ∷ rb) true end_b d hb hbs fa fb e =
    let (k, names, (ma, mb)) = fa refl in (k, names, (stop d ma, mb))
below_double ca (da ∷ ra) cb (db ∷ rb) false end_b d hb hbs fa fb e =
    double_more ca (da ∷ ra) cb (db ∷ rb) d hb (fb e)

-- When the loop on chunks answers true, a key stands in both.
pub chunks_intersect-Meet :
    (f : ℕ) (as' bs : List Bytes)
    → All IsPart as'
    → All IsPart bs
    → chunks_intersect f as' bs ≡ true
    → Meet as' bs
unfolding chunks_intersect
chunks_intersect-Meet zero as' bs ha hb e = absurd (ground arith)
chunks_intersect-Meet (suc f) [] [] ha hb e = ([], tt, (done, done))
chunks_intersect-Meet (suc f) [] (cb ∷ []) ha hb e = ([], tt, (done, stop e done))
chunks_intersect-Meet (suc f) [] (cb ∷ db ∷ rb) ha hb e = absurd (ground arith)
chunks_intersect-Meet (suc f) (ca ∷ []) [] ha hb e = ([], tt, (stop e done, done))
chunks_intersect-Meet (suc f) (ca ∷ da ∷ ra) [] ha hb e = absurd (ground arith)
chunks_intersect-Meet (suc f) (ca ∷ ra) (cb ∷ rb) (ha, has) (hb, hbs) e =
    elim (Bool-cases (is_double ca)) [
      | inl d ↦
          below_double ca ra cb rb _ _ d hb hbs
            (λ t. chunks_intersect-Meet f ra (cb ∷ rb) has (hb, hbs) t)
            (λ t. chunks_intersect-Meet f (ca ∷ ra) rb (ha, has) hbs t) (ground arith)
      | inr n ↦ elim (Bool-cases (is_double cb)) [
        | inl d ↦ Meet-sym (
            below_double cb rb ca ra _ _ d ha has
              (λ t. Meet-sym (chunks_intersect-Meet f (ca ∷ ra) rb (ha, has) hbs t))
              (λ t. Meet-sym (chunks_intersect-Meet f ra (cb ∷ rb) has (hb, hbs) t)) (ground arith))
        | inr m ↦ elim (Bool-cases (single_chunk_intersect ca cb)) [
          | inl t ↦
              single-Meet ca ra cb rb ha hb n m t
                (chunks_intersect-Meet f ra rb has hbs (ground arith))
          | inr t ↦ absurd (ground arith)
        ]
      ]
    ]
