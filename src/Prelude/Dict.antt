-- ===== src/Prelude/Dict.antt =====
-- Go's maps with a string as the key, as association lists. The order of the elements stands for the
-- order in which a `range` loop visits them.
use Prim.Native.Nat.{ℕ}
use mathlib.Core.Path.{◌≡◌, refl, sym, ap, ◌∙◌}
use mathlib.Core.Logic.{◌⊎◌, inl, inr}
use mathlib.Core.Bool.{Bool, true, false}
use mathlib.Core.Option.{Option, none, some}
use mathlib.Core.List.{List, [], ◌∷◌}
use native.Mathlib.Omega.{arith}
use zenoh_go_client.Prelude.Tests.{if◌then◌else◌, Bool-cases, bytes_eq, bytes_eq→eq}

pub bytes_eq_comm : (a b : List ℕ) → bytes_eq a b ≡ bytes_eq b a
unfolding bytes_eq
bytes_eq_comm [] [] = refl
bytes_eq_comm [] (b ∷ bs) = refl
bytes_eq_comm (a ∷ as') [] = refl
bytes_eq_comm (a ∷ as') (b ∷ bs) = ground (arith, bytes_eq_comm as' bs)

bytes_eq-apart :
    (i k k' : List ℕ) → bytes_eq k k' ≡ false → bytes_eq i k' ≡ true → bytes_eq i k ≡ false
bytes_eq-apart i k k' e e' = elim (Bool-cases (bytes_eq i k)) [
  | inl h ↦
      let swapped : bytes_eq i k' ≡ bytes_eq k k' = ap (λ j. bytes_eq j k') (bytes_eq→eq i k h) in
      absurd (cc)
  | inr h ↦ h
]

module _ {ℓ} {V : Type ℓ} where
  unfoldable pub find : List ℕ → List (List ℕ × V) → Option V
  find k [] = none
  find k ((k', v) ∷ m) = let rest = find k m in if bytes_eq k k' then some v else rest

  -- `m[k] = v`
  unfoldable pub store : List ℕ → V → List (List ℕ × V) → List (List ℕ × V)
  store k v [] = (k, v) ∷ []
  store k v ((k', v') ∷ m) =
      let rest = store k v m in if bytes_eq k k' then (k, v) ∷ m else (k', v') ∷ rest

  -- `delete(m, k)`
  unfoldable pub erase : List ℕ → List (List ℕ × V) → List (List ℕ × V)
  erase k [] = []
  erase k ((k', v') ∷ m) = let rest = erase k m in if bytes_eq k k' then rest else (k', v') ∷ rest

  pub find-store :
      (i k : List ℕ) (v : V) (m : List (List ℕ × V))
      → find i (store k v m) ≡ (if bytes_eq i k then some v else find i m)
  unfolding find store
  find-store i k v [] = refl
  find-store i k v ((k', v') ∷ m) =
      let rest = find-store i k v m in
      elim (Bool-cases (bytes_eq k k')) [
        | inl e ↦
            let moved : bytes_eq i k' ≡ bytes_eq i k = ap (bytes_eq i) (sym (bytes_eq→eq k k' e)) in
            rw (e, moved) (ground arith)
        | inr e ↦ elim (Bool-cases (bytes_eq i k')) [
          | inl e' ↦
              let apart : bytes_eq i k ≡ false = bytes_eq-apart i k k' e e' in
              rw (e, e', apart) refl
          | inr e' ↦ rw (e, e') rest
        ]
      ]

  pub find-erase :
      (i k : List ℕ) (m : List (List ℕ × V))
      → find i (erase k m) ≡ (if bytes_eq i k then none else find i m)
  unfolding find erase
  find-erase i k [] = ground arith
  find-erase i k ((k', v') ∷ m) =
      let rest = find-erase i k m in
      elim (Bool-cases (bytes_eq k k')) [
        | inl e ↦
            let moved : bytes_eq i k' ≡ bytes_eq i k = ap (bytes_eq i) (sym (bytes_eq→eq k k' e)) in
            rw (e, moved, rest) (ground arith)
        | inr e ↦ elim (Bool-cases (bytes_eq i k')) [
          | inl e' ↦
              let apart : bytes_eq i k ≡ false = bytes_eq-apart i k k' e e' in
              rw (e, e', apart) refl
          | inr e' ↦ rw (e, e') rest
        ]
      ]

  -- No key stands twice.
  abbrev pub IsDict : List (List ℕ × V) → Type ℓ
  IsDict [] = Unit
  IsDict ((k, v) ∷ m) = (find k m ≡ none) × IsDict m

  pub IsDict-store : (k : List ℕ) (v : V) (m : List (List ℕ × V)) → IsDict m → IsDict (store k v m)
  unfolding store find
  IsDict-store k v [] h = (refl, tt)
  IsDict-store k v ((k', v') ∷ m) (new, h) = elim (Bool-cases (bytes_eq k k')) [
    | inl e ↦ let same : k ≡ k' = bytes_eq→eq k k' e in rw (e) (ap (λ i. find i m) same ∙ new, h)
    | inr e ↦ rw (e) (find-store k' k v m ∙ rw (bytes_eq_comm k' k, e) new, IsDict-store k v m h)
  ]

  pub IsDict-erase : (k : List ℕ) (m : List (List ℕ × V)) → IsDict m → IsDict (erase k m)
  unfolding erase find
  IsDict-erase k [] h = tt
  IsDict-erase k ((k', v') ∷ m) (new, h) = elim (Bool-cases (bytes_eq k k')) [
    | inl e ↦ rw (e) (IsDict-erase k m h)
    | inr e ↦ rw (e) (find-erase k' k m ∙ rw (bytes_eq_comm k' k, e) new, IsDict-erase k m h)
  ]

module _ {ℓ} {V : Type ℓ} where
  -- What is found after a store is what was stored, or was there before.
  pub store-cases :
      (i k : List ℕ) (v w : V) (m : List (List ℕ × V))
      → find i (store k v m) ≡ some w
      → ((i ≡ k) × (v ≡ w)) ⊎ (find i m ≡ some w)
  store-cases i k v w m h =
      let by = sym (find-store i k v m) ∙ h in
      elim (Bool-cases (bytes_eq i k)) [
        | inl e ↦
            inl (bytes_eq→eq i k e, some-injective (sym (ap (chosen (some v) (find i m)) e) ∙ by))
        | inr e ↦ inr (sym (ap (chosen (some v) (find i m)) e) ∙ by)
      ]
    where
      chosen : Option V → Option V → Bool → Option V
      chosen x y b = if b then x else y

      some-injective : {a b : V} → some a ≡ some b → a ≡ b
      some-injective e = cc

  pub erase-found :
      (i k : List ℕ) (w : V) (m : List (List ℕ × V))
      → find i (erase k m) ≡ some w
      → find i m ≡ some w
  erase-found i k w m h =
      let by = sym (find-erase i k m) ∙ h in
      elim (Bool-cases (bytes_eq i k)) [
        | inl e ↦ absurd (cc)
        | inr e ↦ sym (ap (λ b. if b then none else find i m) e) ∙ by
      ]
