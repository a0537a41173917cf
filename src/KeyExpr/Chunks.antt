-- ===== src/KeyExpr/Chunks.antt =====
-- A key expression as the list of its chunks: cutting and joining.
use zenoh_go_client.Prelude.{◌≡◌, refl, false, List, [], ◌∷◌, ◌++◌, All, ◌==◌, bytes_eq, arith}
use zenoh_go_client.Codec.Types.{Bytes}
use zenoh_go_client.KeyExpr.{is_double}
use zenoh_go_client.KeyExpr.Matches.{is_nil, is_double_alone}
use zenoh_go_client.KeyExpr.Text.{delimiter, is_empty, split_chunk, join_chunks}

abbrev pub NoSlash : Bytes → Type 0
NoSlash c = All (λ b. (b == delimiter) ≡ false) c

-- A chunk of a valid key expression.
abbrev pub IsChunk : Bytes → Type 0
IsChunk c = (is_empty c ≡ false) × NoSlash c

split_chunk-slash : (c t : Bytes) → NoSlash c → split_chunk (c ++ delimiter ∷ t) ≡ (c, t)
unfolding split_chunk
split_chunk-slash [] t h = refl
split_chunk-slash (b ∷ c) t (hb, h) = rw (hb, split_chunk-slash c t h)

split_chunk_whole : (c : Bytes) → NoSlash c → split_chunk c ≡ (c, [])
unfolding split_chunk
split_chunk_whole [] h = refl
split_chunk_whole (b ∷ c) (hb, h) = rw (hb, split_chunk_whole c h)

pub split_chunk-join_chunks :
    (c : Bytes) (cs : List Bytes)
    → NoSlash c
    → split_chunk (join_chunks (c ∷ cs)) ≡ (c, join_chunks cs)
unfolding join_chunks
split_chunk-join_chunks c [] h = split_chunk_whole c h
split_chunk-join_chunks c (d ∷ cs) h = split_chunk-slash c (join_chunks (d ∷ cs)) h

pub is_empty-join_chunks :
    (cs : List Bytes) → All IsChunk cs → is_empty (join_chunks cs) ≡ is_nil cs
unfolding join_chunks
is_empty-join_chunks [] h = refl
is_empty-join_chunks (c ∷ []) (hc, h) = hc.0
is_empty-join_chunks ([] ∷ d ∷ cs) (hc, h) = refl
is_empty-join_chunks ((b ∷ c) ∷ d ∷ cs) (hc, h) = refl

with_slash : (c t : Bytes) → is_double (c ++ delimiter ∷ t) ≡ false
unfolding bytes_eq
with_slash [] t = refl
with_slash (a ∷ []) t = ground arith
with_slash (a ∷ b ∷ []) t = ground arith
with_slash (a ∷ b ∷ d ∷ c) t = ground arith

pub is_double-join_chunks : (cs : List Bytes) → is_double (join_chunks cs) ≡ is_double_alone cs
unfolding join_chunks
is_double-join_chunks [] = unfold bytes_eq in refl
is_double-join_chunks (c ∷ []) = refl
is_double-join_chunks (c ∷ d ∷ cs) = with_slash c (join_chunks (d ∷ cs))
