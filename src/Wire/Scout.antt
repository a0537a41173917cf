-- ===== src/Wire/Scout.antt =====
-- internal/wire/scout.go: SCOUT and HELLO.
pub mod RoundTrip
use zenoh_go_client.Prelude.{
  ℕ, zero, suc, ◌+◌, ◌-◌, ◌*◌, ◌/◌, ◌%◌, ◌^◌, Bool, true, false, not, List, [], ◌∷◌, length, ltb,
  ◌==◌, bit_and, bit_or, if◌then◌else◌,
}
use zenoh_go_client.Codec.Types.{
  Bytes, matcher_out_of_range, too_many_locators, Parser, ◌>>=◌, pure, Encoder, ◌>>◌, refuse, when,
  optional, skip,
}
use zenoh_go_client.Codec.Buffer.{read_byte, append_byte}
use zenoh_go_client.Codec.Vle.{encode_z8, decode_z8}
use zenoh_go_client.Codec.Primitives.{encode_string_z8, decode_string_z8}
use zenoh_go_client.Codec.Header.{Header, encode_header, has_bit}
use zenoh_go_client.Codec.Ext.{Extension, encode_extensions, decode_extensions, non_empty}
use zenoh_go_client.Wire.Ids.{id_scout_scout, id_scout_hello}
use zenoh_go_client.Wire.Frame.{expect_id}
use zenoh_go_client.Wire.Zid.{
  ZenohId, is_valid, encode_packed_zid_byte, decode_packed_zid_byte, encode_zid_bytes,
  decode_zid_bytes,
}

-- The roles, and the bits of a matcher.
abbrev pub what_am_i_client : ℕ
what_am_i_client = 2

abbrev pub matcher_router : ℕ
matcher_router = 2 ^ 0

abbrev pub matcher_peer : ℕ
matcher_peer = 2 ^ 1

abbrev pub matcher_client : ℕ
matcher_client = 2 ^ 2

abbrev pub matcher_any : ℕ
matcher_any = bit_or (bit_or matcher_router matcher_peer) matcher_client

-- The shift is in a uint8.
unfoldable pub matches : ℕ → ℕ → Bool
matches m role = if ltb what_am_i_client role then false else has_bit m (2 ^ role % 256)

pub record Scout : Type 0 where
  pub version : ℕ
  pub matcher : ℕ
  pub zid : ZenohId
  pub extensions : List Extension

abbrev pub no_zid : ZenohId
no_zid = record { bytes = [] }

-- `m.Matcher & ^MatcherAny`, the complement taken in a uint8.
unfoldable pub stray_bits : ℕ → Bool
stray_bits matcher = has_bit matcher (0xFF - matcher_any)

-- WHAT, the `I` flag, and the length of the identifier less one in the high half.
unfoldable pub packed_scout : ℕ → Bool → ℕ → ℕ
packed_scout matcher has_zid zid_len =
    let what = bit_and matcher matcher_any in
    if has_zid then bit_or (bit_or what (2 ^ 3)) ((zid_len - 1) * 2 ^ 4 % 256) else what

unfoldable pub encode_scout : Scout → Encoder
encode_scout m =
    let z = non_empty m.extensions in
    let has_zid = is_valid m.zid in
    let zid_len = length m.zid.bytes in
    if stray_bits m.matcher
    then refuse matcher_out_of_range
    else (encode_header (record { id = id_scout_scout; f1 = false; f2 = false; z = z })
        >> (append_byte m.version
            >> (append_byte (packed_scout m.matcher has_zid zid_len)
                >> (when has_zid (encode_zid_bytes m.zid zid_len)
                    >> when z (encode_extensions m.extensions)))))

unfoldable pub decode_scout : Header → Parser Scout
decode_scout h = expect_id id_scout_scout h do
  version ← read_byte
  packed ← read_byte
  zid ←
      optional (has_bit packed (2 ^ 3)) no_zid
        (decode_zid_bytes (bit_and (packed / 2 ^ 4) 0x0F + 1))
  exts ← optional h.z [] decode_extensions
  pure (record { version = version; matcher = bit_and packed 7; zid = zid; extensions = exts })

pub record Hello : Type 0 where
  pub version : ℕ
  pub what_am_i : ℕ
  pub zid : ZenohId
  pub locators : List Bytes
  pub extensions : List Extension

abbrev pub some_locators : List Bytes → Bool
some_locators [] = false
some_locators (l ∷ ls) = true

-- The two loops over the locators.
unfoldable pub encode_each : List Bytes → Encoder
encode_each [] = skip
encode_each (l ∷ ls) = encode_string_z8 l >> encode_each ls

unfoldable pub decode_each : ℕ → Parser (List Bytes)
decode_each zero = pure []
decode_each (suc n) = do l ← decode_string_z8; ls ← decode_each n; pure (l ∷ ls)

unfoldable pub encode_locators : List Bytes → Encoder
encode_locators ls =
    if ltb 0xFF (length ls)
    then refuse too_many_locators
    else (encode_z8 (length ls) >> encode_each ls)

unfoldable pub decode_locators : Parser (List Bytes)
decode_locators = do n ← decode_z8; decode_each n

unfoldable pub encode_hello : Hello → Encoder
encode_hello m =
    let z = non_empty m.extensions in
    let zid_len = length m.zid.bytes in
    encode_header (record { id = id_scout_hello; f1 = some_locators m.locators; f2 = false; z = z })
    >> (append_byte m.version
        >> (encode_packed_zid_byte zid_len m.what_am_i
            >> (encode_zid_bytes m.zid zid_len
                >> (when (some_locators m.locators) (encode_locators m.locators)
                    >> when z (encode_extensions m.extensions)))))

unfoldable pub decode_hello : Header → Parser Hello
decode_hello h = expect_id id_scout_hello h do
  version ← read_byte
  packed ← decode_packed_zid_byte
  zid ← decode_zid_bytes packed.0
  ls ← optional h.f1 [] decode_locators
  exts ← optional h.z [] decode_extensions
  pure (record {
    version = version;
    what_am_i = packed.1;
    zid = zid;
    locators = ls;
    extensions = exts;
  })
