-- ===== src/KeyExpr/Matches.antt =====
-- The meaning of a key expression: the concrete keys, lists of chunks, that it matches.
use zenoh_go_client.Prelude.{◌≡◌, refl, Bool, true, false, ◌||◌, List, [], ◌∷◌, ◌⊎◌, arith}
use zenoh_go_client.Codec.Types.{Bytes}
use zenoh_go_client.KeyExpr.{is_double, is_single}

-- `*` stands for one chunk, `**` for any number of chunks, any other chunk for itself.
pub data Matches : List Bytes → List Bytes → Type 0 where
  done : Matches [] []
  one :
      {c x : Bytes} {p k : List Bytes}
      → is_double c ≡ false
      → (c ≡ x) ⊎ (is_single c ≡ true)
      → Matches p k
      → Matches (c ∷ p) (x ∷ k)
  stop : {c : Bytes} {p k : List Bytes} → is_double c ≡ true → Matches p k → Matches (c ∷ p) k
  absorb :
      {c : Bytes} (x : Bytes) {p k : List Bytes}
      → is_double c ≡ true
      → Matches (c ∷ p) k
      → Matches (c ∷ p) (x ∷ k)

-- No `**` stands in front of `**` or `*`.
abbrev pub IsCanonical : List Bytes → Type 0
IsCanonical [] = Unit {0}
IsCanonical (c ∷ []) = Unit {0}
IsCanonical (c ∷ d ∷ cs) =
    (is_double c ≡ true → (is_double d ≡ false) × (is_single d ≡ false)) × IsCanonical (d ∷ cs)

pub IsCanonical-tail : (c : Bytes) (cs : List Bytes) → IsCanonical (c ∷ cs) → IsCanonical cs
IsCanonical-tail c [] h = tt
IsCanonical-tail c (d ∷ cs) h = h.1

-- Below a `**` no canonical expression is left that matches the empty key.
pub after_double :
    (c : Bytes) (cs : List Bytes)
    → is_double c ≡ true
    → IsCanonical (c ∷ cs)
    → Matches cs []
    → cs ≡ []
after_double c [] h can m = refl
after_double c (d ∷ cs) h can (stop h' m) = let (not_double, _) = can.0 h in cc

-- Whether a list of chunks is `**` alone or nothing: what matches the empty key.
abbrev pub is_double_alone : List Bytes → Bool
is_double_alone [] = false
is_double_alone (c ∷ []) = is_double c
is_double_alone (c ∷ d ∷ cs) = false

abbrev pub is_nil : List Bytes → Bool
is_nil [] = true
is_nil (c ∷ cs) = false

pub Matches-nil :
    (cs : List Bytes) → IsCanonical cs → Matches cs [] → (is_nil cs || is_double_alone cs) ≡ true
Matches-nil [] can m = refl
Matches-nil (c ∷ []) can (stop h m) = h
Matches-nil (c ∷ d ∷ cs) can (stop h m) =
    let e = after_double c (d ∷ cs) h can m in absurd (ground arith)

-- `**` alone matches every key.
pub double-Matches : (c : Bytes) (k : List Bytes) → is_double c ≡ true → Matches (c ∷ []) k
double-Matches c [] h = stop h done
double-Matches c (x ∷ k) h = absorb x h (double-Matches c k h)
