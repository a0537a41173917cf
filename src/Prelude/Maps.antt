-- ===== src/Prelude/Maps.antt =====
-- Go's maps with a number as the key, as association lists, and its sets, as lists with an equality
-- test. The order of the elements stands for the order in which a `range` loop visits them.
use Prim.Native.Nat.{ℕ}
use mathlib.Core.Path.{subst, ◌≡◌, refl, sym, ap, ◌∙◌}
use mathlib.Core.Logic.{inl, inr}
use mathlib.Core.Bool.{Bool, true, false, not, ◌&&◌, ◌||◌}
use mathlib.Core.Option.{Option, none, some}
use mathlib.Core.List.{List, [], ◌∷◌}
use native.Mathlib.Omega.{arith}
use zenoh_go_client.Prelude.Tests.{◌==◌, if◌then◌else◌, Bool-cases, ==_iff}

module _ {ℓ} {A : Type ℓ} (eq : A → A → Bool) where
  unfoldable pub member : A → List A → Bool
  member a [] = false
  member a (b ∷ bs) = eq a b || member a bs

  unfoldable pub remove : A → List A → List A
  remove a [] = []
  remove a (b ∷ bs) = let rest = remove a bs in if eq a b then rest else b ∷ rest

  -- No two elements are equal by the test.
  abbrev pub IsDistinct : List A → Type 0
  IsDistinct [] = Unit
  IsDistinct (a ∷ as') = (member a as' ≡ false) × IsDistinct as'

  -- The test decides equality.
  pub record IsTest : Type ℓ where
    pub same : (a : A) → eq a a ≡ true
    pub sound : (a b : A) → eq a b ≡ true → a ≡ b

  eq_comm : (t : IsTest) (a b : A) → eq a b ≡ eq b a
  eq_comm t a b = elim (Bool-cases (eq a b)) [
    | inl e ↦ e ∙ sym (ap (λ x. eq x a) (sym (t.sound a b e)) ∙ t.same a)
    | inr e ↦ elim (Bool-cases (eq b a)) [
      | inl e' ↦ absurd (true≢false (sym (t.same a) ∙ ap (eq a) (sym (t.sound b a e')) ∙ e))
      | inr e' ↦ e ∙ sym e'
    ]
  ]
    where
      true≢false : true ≡ false → ⊥
      true≢false h = cc

  -- Removing an element takes it out, and no other.
  pub member-remove :
      (t : IsTest) (a b : A) (as' : List A)
      → member a (remove b as') ≡ (not (eq b a) && member a as')
  unfolding member remove
  member-remove t a b [] = ground arith
  member-remove t a b (c ∷ cs) =
      let rest = member-remove t a b cs in
      elim (Bool-cases (eq b c)) [
        | inl e ↦
            let moved : eq a c ≡ eq b a = ap (eq a) (sym (t.sound b c e)) ∙ eq_comm t a b in
            rw (e, moved, rest) (ground arith)
        | inr e ↦ elim (Bool-cases (eq b a)) [
          | inl e' ↦
              let moved : eq a c ≡ false = ap (λ x. eq x c) (sym (t.sound b a e')) ∙ e in
              rw (e, moved, rest, e') refl
          | inr e' ↦ rw (e, rest, e') refl
        ]
      ]

  pub IsDistinct-remove :
      (t : IsTest) (b : A) (as' : List A) → IsDistinct as' → IsDistinct (remove b as')
  unfolding remove
  IsDistinct-remove t b [] d = tt
  IsDistinct-remove t b (c ∷ cs) (new, d) =
      let rest = IsDistinct-remove t b cs d in
      elim (Bool-cases (eq b c)) [
        | inl e ↦ rw (e) rest
        | inr e ↦
            let gone = member-remove t c b cs in rw (e) ((rw (gone, new) (ground arith)), rest)
      ]

==_IsTest : IsTest ◌==◌
==_IsTest = record { same = λ a. ground arith; sound = λ a b h. (==_iff a b).0 h }

module _ {ℓ} {V : Type ℓ} where
  unfoldable pub lookup : ℕ → List (ℕ × V) → Option V
  lookup k [] = none
  lookup k ((k', v) ∷ m) = if k == k' then some v else lookup k m

  -- `m[k] = v`
  unfoldable pub put : ℕ → V → List (ℕ × V) → List (ℕ × V)
  put k v [] = (k, v) ∷ []
  put k v ((k', v') ∷ m) = let rest = put k v m in if k == k' then (k, v) ∷ m else (k', v') ∷ rest

  -- `delete(m, k)`
  unfoldable pub delete : ℕ → List (ℕ × V) → List (ℕ × V)
  delete k [] = []
  delete k ((k', v') ∷ m) = let rest = delete k m in if k == k' then rest else (k', v') ∷ rest

  abbrev pub Values {κ} : (V → Type κ) → List (ℕ × V) → Type κ
  Values P [] = Unit
  Values P ((k, v) ∷ m) = P v × Values P m

  pub lookup-put :
      (i k : ℕ) (v : V) (m : List (ℕ × V))
      → lookup i (put k v m) ≡ (if i == k then some v else lookup i m)
  unfolding lookup put
  lookup-put i k v [] = refl
  lookup-put i k v ((k', v') ∷ m) = ground (arith, lookup-put i k v m)

  pub lookup-delete :
      (i k : ℕ) (m : List (ℕ × V)) → lookup i (delete k m) ≡ (if i == k then none else lookup i m)
  unfolding lookup delete
  lookup-delete i k [] = ground arith
  lookup-delete i k ((k', v') ∷ m) = ground (arith, lookup-delete i k m)

  pub Values-lookup {κ} :
      (P : V → Type κ) (k : ℕ) (m : List (ℕ × V)) (v : V) → Values P m → lookup k m ≡ some v → P v
  unfolding lookup
  Values-lookup P k [] v hs e = cc
  Values-lookup P k ((k', v') ∷ m) v (h, hs) e = elim (Bool-cases (k == k')) [
    | inl t ↦ let found : v' ≡ v = ground arith in subst P found h
    | inr t ↦ Values-lookup P k m v hs (ground arith)
  ]

  pub Values-put {κ} :
      (P : V → Type κ) (k : ℕ) (v : V) (m : List (ℕ × V)) → P v → Values P m → Values P (put k v m)
  unfolding put
  Values-put P k v [] p hs = (p, tt)
  Values-put P k v ((k', v') ∷ m) p (h, hs) = elim (Bool-cases (k == k')) [
    | inl t ↦ rw (t) (p, hs)
    | inr t ↦ rw (t) (h, Values-put P k v m p hs)
  ]

  pub Values-delete {κ} :
      (P : V → Type κ) (k : ℕ) (m : List (ℕ × V)) → Values P m → Values P (delete k m)
  unfolding delete
  Values-delete P k [] hs = tt
  Values-delete P k ((k', v') ∷ m) (h, hs) = elim (Bool-cases (k == k')) [
    | inl t ↦ rw (t) (Values-delete P k m hs)
    | inr t ↦ rw (t) (h, Values-delete P k m hs)
  ]

  -- No key stands twice.
  abbrev pub IsMap : List (ℕ × V) → Type ℓ
  IsMap [] = Unit
  IsMap ((k, v) ∷ m) = (lookup k m ≡ none) × IsMap m

  pub IsMap-put : (k : ℕ) (v : V) (m : List (ℕ × V)) → IsMap m → IsMap (put k v m)
  unfolding put lookup
  IsMap-put k v [] h = (refl, tt)
  IsMap-put k v ((k', v') ∷ m) (new, h) = elim (Bool-cases (k == k')) [
    | inl e ↦ let same : k ≡ k' = ground arith in rw (e) (ap (λ (i : ℕ). lookup i m) same ∙ new, h)
    | inr e ↦
        let apart : (k' == k) ≡ false = ground arith in
        rw (e) (lookup-put k' k v m ∙ rw (apart) new, IsMap-put k v m h)
  ]

  pub IsMap-delete : (k : ℕ) (m : List (ℕ × V)) → IsMap m → IsMap (delete k m)
  unfolding delete
  IsMap-delete k [] h = tt
  IsMap-delete k ((k', v') ∷ m) (new, h) = elim (Bool-cases (k == k')) [
    | inl e ↦ rw (e) (IsMap-delete k m h)
    | inr e ↦
        let apart : (k' == k) ≡ false = ground arith in
        rw (e) (lookup-delete k' k m ∙ rw (apart) new, IsMap-delete k m h)
  ]
