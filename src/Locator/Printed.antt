-- ===== src/Locator/Printed.antt =====
-- internal/locator/locator.go: the text of a parsed locator.
use zenoh_go_client.Prelude.{
  ℕ, ◌≡◌, refl, sym, ap, ◌∙◌, Bool, true, false, not, List, [], ◌∷◌, ◌++◌, length, Option, none,
  some, ◌==◌, if◌then◌else◌, Option-cases, Bool-cases, subst, inl, inr, arith,
}
use zenoh_go_client.Codec.Types.{Bytes}
use zenoh_go_client.Locator.{
  cut_at, or_whole, Located, located, rejected, Locator, is_network, known_schemes, parse_kv,
  locator_text, attach, validate_host_port, check_locator, parse_locator,
}

-- A cut of a text: the parts with the separator between them, and none in the first.
abbrev IsCut : ℕ → Bytes → Option (Bytes × Bytes) → Type 0
IsCut sep s none = Unit
IsCut sep s (some (a, b)) = (s ≡ a ++ (sep ∷ b)) × (cut_at sep a ≡ none)

cut_at-IsCut : (sep : ℕ) (s : Bytes) → IsCut sep s (cut_at sep s)
unfolding cut_at
cut_at-IsCut sep [] = tt
cut_at-IsCut sep (c ∷ s) = elim (Bool-cases (c == sep)) [
  | inl h ↦ rw (h) (ground arith, refl)
  | inr h ↦ elim (Option-cases (cut_at sep s)) [
    | inl n ↦ rw (h, n) tt
    | inr ((x, y), found) ↦
        let (split, no_sep) = subst (IsCut sep s) found (cut_at-IsCut sep s) in
        rw (h, found) (ap (λ (r : Bytes). c ∷ r) split, rw (h, no_sep) refl)
  ]
]

cut_at-front : (sep : ℕ) (s : Bytes) → cut_at sep (or_whole s (cut_at sep s)).0 ≡ none
cut_at-front sep s = elim (Option-cases (cut_at sep s)) [
  | inl n ↦ rw (n) n
  | inr ((a, b), found) ↦ rw (found) (subst (IsCut sep s) found (cut_at-IsCut sep s)).1
]

abbrev parts : Located Locator → Located (Bytes × Bytes)
parts (rejected e) = rejected e
parts (located l) = located (l.scheme, l.address)

attach-located :
    (kv : Option (List (Bytes × Bytes))) (r : Located (Bytes × Bytes)) (l : Locator)
    → attach kv r ≡ located l
    → r ≡ located (l.scheme, l.address)
attach-located kv (rejected e) l h = cc
attach-located kv (located (s, a)) l h = ap parts h

-- A check hands out what it is given, if anything.
abbrev Keeps : Bytes × Bytes → Located (Bytes × Bytes) → Type 0
Keeps p (rejected e) = Unit
Keeps p (located q) = some p ≡ some q

Keeps-if :
    (p : Bytes × Bytes) (b : Bool) (x y : Located (Bytes × Bytes))
    → Keeps p x
    → Keeps p y
    → Keeps p (if b then x else y)
Keeps-if p true x y h h' = h
Keeps-if p false x y h h' = h'

module _ (split_host_port : Bytes → Option (Bytes × Bytes)) where
  check_locator-Keeps : (s a : Bytes) → Keeps (s, a) (check_locator split_host_port (some (s, a)))
  unfolding check_locator
  check_locator-Keeps s a =
      Keeps-if (s, a) (not (known_schemes s)) _ _ tt
        (Keeps-if (s, a) (length a == 0) _ _ tt
          (Keeps-if (s, a) (is_network s) _ _
            (elim (Option-cases (validate_host_port split_host_port a)) [
              | inl e ↦ rw (e) refl
              | inr (x, e) ↦ rw (e) tt
            ])
            refl))

  check_locator-located :
      (x : Option (Bytes × Bytes)) (p : Bytes × Bytes)
      → check_locator split_host_port x ≡ located p
      → x ≡ some p
  unfolding check_locator
  check_locator-located none p h = cc
  check_locator-located (some (s, a)) p h = subst (Keeps (s, a)) h (check_locator-Keeps s a)

  parse_locator-plain :
      (t : Bytes) (l : Locator)
      → cut_at b'?' t ≡ none
      → check_locator split_host_port (cut_at b'/' t) ≡ located (l.scheme, l.address)
      → parse_locator split_host_port t ≡ located (record l { metadata = none })
  unfolding parse_locator parse_kv
  parse_locator-plain t l whole checked = rw (whole, checked) refl

  -- The text of a locator that was parsed is parsed to that locator without its metadata.
  pub parse_locator-locator_text :
      (s : Bytes) (l : Locator)
      → parse_locator split_host_port s ≡ located l
      → parse_locator split_host_port (locator_text l) ≡ located (record l { metadata = none })
  unfolding parse_locator locator_text
  parse_locator-locator_text s l h =
      let (rest, meta) = or_whole s (cut_at b'?' s) in
      let checked =
        attach-located (parse_kv meta) (check_locator split_host_port (cut_at b'/' rest)) l h in
      let found = check_locator-located (cut_at b'/' rest) (l.scheme, l.address) checked in
      let (same, no_slash) = subst (IsCut b'/' rest) found (cut_at-IsCut b'/' rest) in
      ap (parse_locator split_host_port) (sym same)
      ∙ parse_locator-plain rest l (cut_at-front b'?' s) checked
