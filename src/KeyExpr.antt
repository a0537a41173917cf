-- ===== src/KeyExpr.antt =====
-- internal/keyexpr: key expressions, `/`-separated chunks with the wildcards `*` and `**`. A Go string is
-- the list of its bytes.
pub mod Text
pub mod Chunks
pub mod Matches
pub mod Intersects
pub mod Complete
pub mod Intersection
pub mod Inclusion
pub mod Canonical
use zenoh_go_client.Prelude.{
  ℕ, zero, suc, ◌+◌, Bool, true, false, not, ◌&&◌, ◌||◌, List, [], ◌∷◌, ◌++◌, length, ◌==◌,
  bytes_eq, if◌then◌else◌,
}
use mathlib.Core.List.{reverse}
use zenoh_go_client.Codec.Types.{Bytes}
use zenoh_go_client.KeyExpr.Text.{
  delimiter, single_wild, double_wild, is_empty, has_prefix_slash, has_suffix_slash, contains_star,
  contains_forbidden, split_seq, split_chunk, join_chunks,
}

pub data KeyError : Type 0 where
  empty leading_slash trailing_slash forbidden_character : KeyError
  empty_chunk invalid_chunk double_after_double single_after_double no_chunks : KeyError

pub data Checked {ℓ} (A : Type ℓ) : Type ℓ where
  ok : A → Checked A
  err : KeyError → Checked A

infixl 5 ◌>>=◌
abbrev pub ◌>>=◌ {ℓ κ} : {A : Type ℓ} {B : Type κ} → Checked A → (A → Checked B) → Checked B
ok a >>= f = f a
err e >>= f = err e

abbrev pub is_double : Bytes → Bool
is_double c = bytes_eq c double_wild

abbrev pub is_single : Bytes → Bool
is_single c = bytes_eq c single_wild

-- The loop of `validate` over the chunks, with the chunk before.
unfoldable pub validate_chunks : Bytes → List Bytes → Checked (Unit {0})
validate_chunks prev [] = ok tt
validate_chunks prev (c ∷ cs) =
    let rest = validate_chunks c cs in
    if is_empty c
    then err empty_chunk
    else if contains_star c && (not (is_single c) && not (is_double c))
    then err invalid_chunk
    else if is_double prev && is_double c
    then err double_after_double
    else if is_double prev && is_single c
    then err single_after_double
    else rest

unfoldable pub validate : Bytes → Checked (Unit {0})
validate s =
    if is_empty s
    then err empty
    else if has_prefix_slash s
    then err leading_slash
    else if has_suffix_slash s
    then err trailing_slash
    else if contains_forbidden s
    then err forbidden_character
    else validate_chunks [] (split_seq s)

-- `New`: the key expression is the text itself.
unfoldable pub new : Bytes → Checked Bytes
new s = validate s >>= λ _. ok s

-- The inner loop of `canonize` on fuel, over the slice with its last chunk first.
unfoldable pub settle : ℕ → List Bytes → List Bytes
settle (suc fuel) (last ∷ prev ∷ below) =
    let dropped = settle fuel (prev ∷ below) in
    let swapped = settle fuel (double_wild ∷ single_wild ∷ below) in
    if is_double last && is_double prev
    then dropped
    else if is_single last && is_double prev
    then swapped
    else last ∷ prev ∷ below
settle _ compact = compact

-- The outer loop. A round of the inner loop drops a chunk or is the last but one, so the fuel is enough.
unfoldable pub compact_loop : List Bytes → List Bytes → List Bytes
compact_loop compact [] = compact
compact_loop compact (c ∷ cs) =
    compact_loop (if is_empty c then compact else settle (length compact + 2) (c ∷ compact)) cs

unfoldable pub canonize : Bytes → Checked Bytes
canonize s =
    if is_empty s
    then err empty
    else let compact = compact_loop [] (split_seq s) in
      if not_nil compact then ok (join_chunks (reverse compact)) else err no_chunks
  where
    not_nil : List Bytes → Bool
    not_nil [] = false
    not_nil (c ∷ cs) = true

unfoldable pub autocanonize : Bytes → Checked Bytes
autocanonize s = canonize s >>= new

-- join.go
unfoldable pub join : Bytes → Bytes → Checked Bytes
join k suffix =
    if is_empty k then autocanonize suffix else autocanonize ((k ++ (delimiter ∷ [])) ++ suffix)

unfoldable pub concat : Bytes → Bytes → Checked Bytes
concat k suffix = if is_empty suffix then ok k else autocanonize (k ++ suffix)

-- include.go
unfoldable pub chunk_includes : Bytes → Bytes → Bool
chunk_includes lchunk rchunk = if bytes_eq lchunk rchunk then true else is_single lchunk

-- The loop of `ltrIncludes` and its recursive calls, on fuel.
unfoldable pub ltr_includes : ℕ → Bytes → Bytes → Bool
ltr_includes zero left right = false
ltr_includes (suc fuel) left right =
    let (lchunk, lrest) = split_chunk left in
    let (rchunk, rrest) = split_chunk right in
    let stop = ltr_includes fuel lrest right in
    let absorb = ltr_includes fuel left rrest in
    let both = ltr_includes fuel lrest rrest in
    if is_double lchunk
    then (if is_empty lrest
        then true
        else if stop
        then true
        else if is_empty rrest
        then false
        else absorb)
    else if is_empty rchunk || is_double rchunk
    then false
    else if not (chunk_includes lchunk rchunk)
    then false
    else if is_empty lrest
    then is_empty rrest
    else both

-- Each round and each call drops a byte of one side at least.
unfoldable pub includes : Bytes → Bytes → Bool
includes k other =
    if bytes_eq k other then true else ltr_includes (length k + length other + 1) k other

-- intersect.go
unfoldable pub single_chunk_intersect : Bytes → Bytes → Bool
single_chunk_intersect a b = if bytes_eq a b then true else is_single a || is_single b

-- `a == "" || a == doubleWild`
abbrev pub finished : Bytes → Bool
finished a = is_empty a || is_double a

-- The loop of `chunkIntersect` and its recursive calls, on fuel.
unfoldable pub chunk_intersect : ℕ → Bytes → Bytes → Bool
chunk_intersect zero a b = false
chunk_intersect (suc fuel) a b =
    let (ca, ra) = split_chunk a in
    let (cb, rb) = split_chunk b in
    let end_a = chunk_intersect fuel ra b in
    let end_b = chunk_intersect fuel a rb in
    let both = chunk_intersect fuel ra rb in
    if is_empty a || is_empty b
    then finished a && finished b
    else if is_double ca
    then (if is_empty ra
        then true
        else if is_empty rb
        then end_a
        else if end_a
        then true
        else end_b)
    else if is_double cb
    then (if is_empty rb
        then true
        else if is_empty ra
        then end_b
        else if end_b
        then true
        else end_a)
    else if single_chunk_intersect ca cb
    then both
    else false

unfoldable pub has_wildcard : Bytes → Bool
has_wildcard s = contains_star s

unfoldable pub intersects : Bytes → Bytes → Bool
intersects k other =
    if not (has_wildcard k) && not (has_wildcard other)
    then bytes_eq k other
    else chunk_intersect (length k + length other + 1) k other
