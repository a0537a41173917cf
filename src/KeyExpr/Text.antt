-- ===== src/KeyExpr/Text.antt =====
-- What internal/keyexpr uses of Go's strings package: Cut, SplitSeq, Join, the prefix, suffix and
-- containment tests.
use zenoh_go_client.Prelude.{ℕ, Bool, true, false, ◌||◌, List, [], ◌∷◌, ◌++◌, ◌==◌, if◌then◌else◌}
use zenoh_go_client.Codec.Types.{Bytes}

abbrev pub delimiter : ℕ
delimiter = b'/'

abbrev pub single_wild : Bytes
single_wild = b'*' ∷ []

abbrev pub double_wild : Bytes
double_wild = b'*' ∷ b'*' ∷ []

abbrev pub is_empty : Bytes → Bool
is_empty [] = true
is_empty (b ∷ s) = false

unfoldable pub has_prefix_slash : Bytes → Bool
has_prefix_slash [] = false
has_prefix_slash (b ∷ s) = b == delimiter

unfoldable pub has_suffix_slash : Bytes → Bool
has_suffix_slash [] = false
has_suffix_slash (b ∷ []) = b == delimiter
has_suffix_slash (b ∷ c ∷ s) = has_suffix_slash (c ∷ s)

unfoldable pub contains : ℕ → Bytes → Bool
contains c [] = false
contains c (b ∷ s) = b == c || contains c s

unfoldable pub contains_star : Bytes → Bool
contains_star s = contains b'*' s

-- `strings.ContainsAny(s, "#?$")`
unfoldable pub contains_forbidden : Bytes → Bool
contains_forbidden s = contains b'#' s || (contains b'?' s || contains b'$' s)

unfoldable pub put_front : ℕ → List Bytes → List Bytes
put_front b [] = (b ∷ []) ∷ []
put_front b (c ∷ cs) = (b ∷ c) ∷ cs

-- `strings.SplitSeq(s, "/")`: one chunk more than there are slashes.
unfoldable pub split_seq : Bytes → List Bytes
split_seq [] = [] ∷ []
split_seq (b ∷ s) = let rest = split_seq s in if b == delimiter then [] ∷ rest else put_front b rest

-- `strings.Cut(s, "/")` without its third result: the first chunk and what follows the slash.
unfoldable pub split_chunk : Bytes → Bytes × Bytes
split_chunk [] = ([], [])
split_chunk (b ∷ s) =
    let (first, rest) = split_chunk s in if b == delimiter then ([], s) else (b ∷ first, rest)

-- `strings.Join(chunks, "/")`
unfoldable pub join_chunks : List Bytes → Bytes
join_chunks [] = []
join_chunks (c ∷ []) = c
join_chunks (c ∷ d ∷ cs) = c ++ delimiter ∷ join_chunks (d ∷ cs)
