-- ===== src/Examples/KeyExpr.antt =====
-- internal/keyexpr: runs, and each theorem at an input.
use zenoh_go_client.Prelude.{inl, ◌≡◌, refl, ◌↔◌, true, false, [], ◌∷◌, bytes_eq}
use zenoh_go_client.Codec.Types.{Bytes}
use zenoh_go_client.KeyExpr.{
  validate, validate_chunks, intersects, includes, ltr_includes, chunk_includes, canonize,
  compact_loop, settle,
}
use zenoh_go_client.KeyExpr.Text.{
  has_prefix_slash, has_suffix_slash, contains_forbidden, contains, contains_star, split_seq,
  put_front, join_chunks, split_chunk,
}
use zenoh_go_client.KeyExpr.Matches.{Matches, done, one}
use zenoh_go_client.KeyExpr.Inclusion.{includes-Matches}
use zenoh_go_client.KeyExpr.Intersects.{Meet}
use zenoh_go_client.KeyExpr.Intersection.{intersects-Meet}
use zenoh_go_client.KeyExpr.Canonical.{IsValid, join_chunks-split_seq}

-- `a/*` and `**/b`
abbrev left : Bytes
left = b'a' ∷ b'/' ∷ b'*' ∷ []

abbrev right : Bytes
right = b'*' ∷ b'*' ∷ b'/' ∷ b'b' ∷ []

program : Unit {0}
unfolding validate validate_chunks has_prefix_slash has_suffix_slash contains_forbidden contains
    contains_star split_seq put_front join_chunks bytes_eq includes ltr_includes chunk_includes
    canonize compact_loop settle
program = tt

left-IsValid : IsValid left
unfolding program
left-IsValid = refl

right-IsValid : IsValid right
unfolding program
right-IsValid = refl

intersects-Meet_example : (intersects left right ≡ true) ↔ Meet (split_seq left) (split_seq right)
intersects-Meet_example = intersects-Meet left right left-IsValid right-IsValid

join_chunks-split_seq_example : join_chunks (split_seq left) ≡ left
join_chunks-split_seq_example = join_chunks-split_seq left

-- `Includes` is incomplete: `*/**` matches every key of one chunk or more, so all that `**/a` matches.
includes_incomplete :
    includes (b'*' ∷ b'/' ∷ b'*' ∷ b'*' ∷ []) (b'*' ∷ b'*' ∷ b'/' ∷ b'a' ∷ []) ≡ false
unfolding program split_chunk
includes_incomplete = refl

-- `a/b`, a key of `a/*`
abbrev plain : Bytes
plain = b'a' ∷ b'/' ∷ b'b' ∷ []

plain-IsValid : IsValid plain
unfolding program
plain-IsValid = refl

covers_plain : includes left plain ≡ true
unfolding program split_chunk
covers_plain = refl

plain-Matches : Matches (split_seq plain) ((b'a' ∷ []) ∷ (b'b' ∷ []) ∷ [])
unfolding split_seq put_front bytes_eq
plain-Matches = one refl (inl refl) (one refl (inl refl) done)

includes-Matches_example : Matches (split_seq left) ((b'a' ∷ []) ∷ (b'b' ∷ []) ∷ [])
includes-Matches_example =
    includes-Matches left plain ((b'a' ∷ []) ∷ (b'b' ∷ []) ∷ []) left-IsValid plain-IsValid
      covers_plain plain-Matches
