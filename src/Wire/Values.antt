-- ===== src/Wire/Values.antt =====
-- internal/wire/timestamp.go, encoding.go and wireexpr.go: the values inside messages.
use zenoh_go_client.Prelude.{
  ℕ, ◌+◌, ◌*◌, ◌/◌, ◌%◌, ◌^◌, ◌≤◌, ◌<◌, ◌≡◌, refl, Bool, true, false, not, [], ◌∷◌, length, bit_and,
  bit_or, ltb, ◌==◌, if◌then◌else◌, arith,
}
use zenoh_go_client.Prelude.Bits.{and_mask, or_high_low}
use zenoh_go_client.Codec.Types.{
  Bytes, zid_len_out_of_range, encoding_id_too_big, Parser, ◌>>=◌, pure, Encoder, ◌>>◌, refuse,
  when, optional,
}
use zenoh_go_client.Codec.Carries.{
  Carries, Carries->>, Carries-last, Carries-optional, Carries-guard,
}
use zenoh_go_client.Codec.Buffer.{append_bytes}
use zenoh_go_client.Codec.Vle.{
  encode_z64, encode_z32, encode_z16, encode_z8, decode_z64, decode_z32, decode_z16, decode_z8,
}
use zenoh_go_client.Codec.Vle.RoundTrip.{
  encode_z64-Carries, encode_z32-Carries, encode_z16-Carries, encode_z8-Carries,
}
use zenoh_go_client.Codec.Primitives.{
  valid_utf8, encode_string_z8, encode_string_z16, decode_string_z8, decode_string_z16,
}
use zenoh_go_client.Codec.Primitives.Laws.{
  append_bytes-Carries, encode_string_z8-Carries, encode_string_z16-Carries,
}
use zenoh_go_client.Wire.Zid.{ZenohId, is_valid, decode_zid_bytes}

pub record Timestamp : Type 0 where
  pub ntp64 : ℕ
  pub zid : ZenohId

-- `uint8(t.ZID.Len())` is exact behind the guard.
unfoldable pub encode_timestamp : Timestamp → Encoder
encode_timestamp t =
    if not (is_valid t.zid)
    then refuse zid_len_out_of_range
    else (encode_z64 t.ntp64 >> (encode_z8 (length t.zid.bytes) >> append_bytes t.zid.bytes))

unfoldable pub decode_timestamp : Parser Timestamp
decode_timestamp = do
  ntp ← decode_z64
  zid_len ← decode_z8
  zid ← decode_zid_bytes zid_len
  pure (record { ntp64 = ntp; zid = zid })

pub record IsTimestamp (t : Timestamp) : Type 0 where
  pub time_fits : t.ntp64 < 2 ^ 64
  pub zid_some : 1 ≤ length t.zid.bytes
  pub zid_fits : length t.zid.bytes ≤ 16

-- A timestamp with a 64-bit time and a Zenoh ID of 1 to 16 bytes is read back.
pub encode_timestamp-Carries :
    (t : Timestamp) → IsTimestamp t → Carries (encode_timestamp t) decode_timestamp t
unfolding encode_timestamp decode_timestamp decode_zid_bytes is_valid
encode_timestamp-Carries t v =
    Carries-guard (not (is_valid t.zid)) zid_len_out_of_range (ground arith) (
      Carries->> _ (encode_z64-Carries t.ntp64 v.time_fits) (
        Carries->> _ (encode_z8-Carries (length t.zid.bytes) (let h = v.zid_fits in omega arith))
          (Carries-last _ (Carries-last _ (append_bytes-Carries t.zid.bytes)))))

abbrev pub max_encoding_id : ℕ
max_encoding_id = 0x7FFFFFFF

pub record Encoding : Type 0 where
  pub id : ℕ
  pub schema : Bytes

-- `s != ""`
abbrev pub some_bytes : Bytes → Bool
some_bytes [] = false
some_bytes (b ∷ bs) = true

-- `e.ID << 1` in a uint32, and the schema flag.
unfoldable pub id_and_s : Encoding → ℕ
id_and_s e =
    let shifted = e.id * 2 % 2 ^ 32 in if some_bytes e.schema then bit_or shifted 1 else shifted

unfoldable pub encode_encoding : Encoding → Encoder
encode_encoding e =
    if ltb max_encoding_id e.id
    then refuse encoding_id_too_big
    else (encode_z32 (id_and_s e) >> when (some_bytes e.schema) (encode_string_z8 e.schema))

unfoldable pub decode_encoding : Parser Encoding
decode_encoding = do
  v ← decode_z32
  s ← optional (bit_and v 1 == 1) [] decode_string_z8
  pure (record { id = v / 2; schema = s })

pub record WireExpr : Type 0 where
  pub scope : ℕ
  pub suffix : Bytes
  pub mapping : Bool

abbrev pub named : WireExpr → Bool
named k = some_bytes k.suffix

unfoldable pub encode_scope : WireExpr → Encoder
encode_scope k = encode_z16 k.scope >> when (named k) (encode_string_z16 k.suffix)

unfoldable pub decode_wire_expr : Bool → Bool → Parser WireExpr
decode_wire_expr is_named mapping = do
  scope ← decode_z16
  s ← optional is_named [] decode_string_z16
  pure (record { scope = scope; suffix = s; mapping = mapping })

-- A text that may be empty, which a header flag tells.
pub suffix-Carries :
    (s : Bytes)
    → valid_utf8 s ≡ true
    → length s < 2 ^ 16
    → Carries
        (when (some_bytes s) (encode_string_z16 s))
        (optional (some_bytes s) [] decode_string_z16)
        s
suffix-Carries [] valid h = Carries-optional false (λ on. cc) (λ off. refl)
suffix-Carries (b ∷ s) valid h =
    Carries-optional true (λ on. encode_string_z16-Carries (b ∷ s) valid h) (λ off. cc)

schema-Carries :
    (s : Bytes)
    → valid_utf8 s ≡ true
    → length s < 2 ^ 8
    → Carries
        (when (some_bytes s) (encode_string_z8 s))
        (optional (some_bytes s) [] decode_string_z8)
        s
schema-Carries [] valid h = Carries-optional false (λ on. cc) (λ off. refl)
schema-Carries (b ∷ s) valid h =
    Carries-optional true (λ on. encode_string_z8-Carries (b ∷ s) valid h) (λ off. cc)

pub record IsWireExpr (k : WireExpr) : Type 0 where
  pub scope_fits : k.scope < 2 ^ 16
  pub suffix_text : valid_utf8 k.suffix ≡ true
  pub suffix_fits : length k.suffix < 2 ^ 16

-- A key expression reference that fits the wire is read back, with the flags that the enclosing
-- header holds.
pub encode_scope-Carries :
    (k : WireExpr)
    → IsWireExpr k
    → Carries (encode_scope k) (decode_wire_expr (named k) k.mapping) k
unfolding encode_scope decode_wire_expr
encode_scope-Carries k v =
    Carries->> _ (encode_z16-Carries k.scope v.scope_fits)
      (Carries-last _ (suffix-Carries k.suffix v.suffix_text v.suffix_fits))

pub record IsEncoding (e : Encoding) : Type 0 where
  pub id_fits : e.id ≤ max_encoding_id
  pub schema_text : valid_utf8 e.schema ≡ true
  pub schema_fits : length e.schema < 2 ^ 8

-- The schema flag and the ID, read back off the combined number.
id_and_s-parts :
    (e : Encoding)
    → e.id ≤ max_encoding_id
    → (id_and_s e < 2 ^ 32)
      × (id_and_s e / 2 ≡ e.id)
      × ((bit_and (id_and_s e) 1 == 1) ≡ some_bytes e.schema)
unfolding id_and_s
id_and_s-parts e h =
    ground (arith, or_high_low 1 e.id 1, and_mask 1 (e.id * 2), and_mask 1 (e.id * 2 + 1))

encoding-tail :
    (e : Encoding) (v : ℕ) (flag : Bool)
    → IsEncoding e
    → v / 2 ≡ e.id
    → flag ≡ some_bytes e.schema
    → Carries
        (when (some_bytes e.schema) (encode_string_z8 e.schema))
        (optional flag [] decode_string_z8 >>= λ s. pure (record { id = v / 2; schema = s }))
        e
encoding-tail e v flag ok_enc half same =
    rw (half, same) (Carries-last _ (schema-Carries e.schema ok_enc.schema_text ok_enc.schema_fits))

-- An encoding with a known identifier range and a valid schema is read back.
pub encode_encoding-Carries :
    (e : Encoding) → IsEncoding e → Carries (encode_encoding e) decode_encoding e
unfolding encode_encoding decode_encoding
encode_encoding-Carries e v =
    let parts = id_and_s-parts e v.id_fits in
    Carries-guard (ltb max_encoding_id e.id) encoding_id_too_big (ground arith) (
      Carries->> _ (encode_z32-Carries (id_and_s e) parts.0)
        (encoding-tail e (id_and_s e) (bit_and (id_and_s e) 1 == 1) v parts.1 parts.2))
