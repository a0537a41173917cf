-- ===== src/Wire/Scout/RoundTrip.antt =====
-- scout.go: the packed byte of a SCOUT, and that both messages are read back.
use zenoh_go_client.Prelude.{
  ℕ, zero, suc, ◌+◌, ◌-◌, ◌/◌, ◌%◌, ◌^◌, ◌≤◌, ◌<◌, ◌≡◌, inl, inr, refl, subst, ap, ◌∙◌, Bool, true,
  false, not, ◌&&◌, List, [], ◌∷◌, length, All, arith, ltb, leb, ◌==◌, bit_and, Bool-cases,
}
use zenoh_go_client.Prelude.Bits.{all_below, all_below-at, table}
use zenoh_go_client.Codec.Types.{
  failed, refuse, matcher_out_of_range, too_many_locators, Bytes, when, optional,
}
use zenoh_go_client.Codec.Carries.{
  Carries, Carries->>, Carries-last, Carries-optional, Carries-guard, Carries-skip,
}
use zenoh_go_client.Codec.Vle.RoundTrip.{encode_z8-Carries}
use zenoh_go_client.Codec.Primitives.{valid_utf8}
use zenoh_go_client.Codec.Primitives.Laws.{append_byte-Carries, encode_string_z8-Carries}
use zenoh_go_client.Codec.Header.{has_bit}
use zenoh_go_client.Codec.Header.Laws.{encode_header-Carries}
use zenoh_go_client.Codec.Ext.{set_more}
use zenoh_go_client.Codec.Ext.HeaderByte.{IsExt}
use zenoh_go_client.Codec.Ext.Chain.{extensions-Carries}
use zenoh_go_client.Wire.Frame.{after_header}
use zenoh_go_client.Wire.Zid.{
  ZenohId, is_valid, encode_zid_bytes, decode_zid_bytes, encode_packed_zid_byte-Carries,
  encode_zid_bytes-Carries,
}
use zenoh_go_client.Wire.Scout.{
  matches, Scout, no_zid, stray_bits, packed_scout, encode_scout, decode_scout, Hello,
  some_locators, encode_each, decode_each, encode_locators, decode_locators, encode_hello,
  decode_hello,
}

-- A matcher of three bits has no stray ones.
stray_bits-small : (m : ℕ) → m < 8 → stray_bits m ≡ false
unfolding all_below stray_bits
stray_bits-small m h = ground (arith, all_below-at 8 (λ m. not (stray_bits m)) m refl h)

-- What a packed byte with an identifier holds, by its matcher and its length less one.
abbrev packed_test : ℕ → ℕ → Bool
packed_test m n =
    let packed = packed_scout m true (n + 1) in
    bit_and packed 7 == m && (has_bit packed (2 ^ 3) && (bit_and (packed / 2 ^ 4) 0x0F == n))

packed_tests : all_below 16 (λ n. all_below 8 (λ m. packed_test m n)) ≡ true
unfolding all_below packed_scout
packed_tests = refl

record Packed (m zid_len : ℕ) : Type 0 where
  what : bit_and (packed_scout m true zid_len) 7 ≡ m
  flag : has_bit (packed_scout m true zid_len) (2 ^ 3) ≡ true
  len : bit_and (packed_scout m true zid_len / 2 ^ 4) 0x0F + 1 ≡ zid_len

bits-Packed : (m n : ℕ) → m < 8 → n < 16 → Packed m (n + 1)
bits-Packed m n hm hn =
    let row = all_below-at 16 (λ n. all_below 8 (λ m. packed_test m n)) n packed_tests hn in
    let cell = all_below-at 8 (λ m. packed_test m n) m row hm in
    record { what = ground arith; flag = ground arith; len = ground arith }

len-Packed : (m zid_len : ℕ) → m < 8 → 1 ≤ zid_len → zid_len ≤ 16 → Packed m zid_len
len-Packed m zid_len hm lo hi =
    subst (Packed m) (omega arith) (bits-Packed m (zid_len - 1) hm (omega arith))

bare_what : (m : ℕ) → m < 8 → bit_and (packed_scout m false 0) 7 ≡ m
unfolding all_below packed_scout
bare_what = table 8 _ _ refl

bare_flag : (m zid_len : ℕ) → m < 8 → has_bit (packed_scout m false zid_len) (2 ^ 3) ≡ false
unfolding all_below packed_scout
bare_flag m zid_len h =
    ground (arith, all_below-at 8 (λ m. not (has_bit (packed_scout m false 0) (2 ^ 3))) m refl h)

-- An identifier is absent, or has a length from 1 to 16.
abbrev pub IsScoutZid : ZenohId → Type 0
IsScoutZid z = length z.bytes ≤ 16

valid_bounds : (z : ZenohId) → is_valid z ≡ true → (1 ≤ length z.bytes) × (length z.bytes ≤ 16)
unfolding is_valid
valid_bounds z h = (ground arith, ground arith)

absent_zid : (z : ZenohId) → IsScoutZid z → is_valid z ≡ false → no_zid ≡ z
unfolding is_valid
absent_zid z h off = ap (λ (b : Bytes). record { bytes = b }) (nil z.bytes h off)
  where
    nil : (b : Bytes) → length b ≤ 16 → (leb 1 (length b) && leb (length b) 16) ≡ false → [] ≡ b
    nil [] h off = refl
    nil (x ∷ b) h off = absurd (ground arith)

-- The packed byte of a SCOUT, with an identifier or without.
what_of :
    (m : ℕ) (z : ZenohId) → m < 8 → bit_and (packed_scout m (is_valid z) (length z.bytes)) 7 ≡ m
what_of m z hm = elim (Bool-cases (is_valid z)) [
  | inl e ↦ let b = valid_bounds z e in rw (e) ((len-Packed m (length z.bytes) hm b.0 b.1).what)
  | inr e ↦ rw (e) (unfold packed_scout in bare_what m hm)
]

flag_of :
    (m : ℕ) (z : ZenohId)
    → m < 8
    → has_bit (packed_scout m (is_valid z) (length z.bytes)) (2 ^ 3) ≡ is_valid z
flag_of m z hm = elim (Bool-cases (is_valid z)) [
  | inl e ↦ let b = valid_bounds z e in rw (e) ((len-Packed m (length z.bytes) hm b.0 b.1).flag)
  | inr e ↦ rw (e) (bare_flag m (length z.bytes) hm)
]

-- Every SCOUT with a matcher of three bits and an identifier of at most 16 bytes, whose extensions
-- fit the wire, is read back, with an identifier and without.
pub encode_scout-Carries :
    (m : Scout)
    → m.matcher < 8
    → IsScoutZid m.zid
    → All IsExt m.extensions
    → Carries
        (encode_scout m)
        (after_header decode_scout)
        (record m { extensions = set_more m.extensions })
unfolding encode_scout decode_scout
encode_scout-Carries m hm hz hs =
    Carries-guard (stray_bits m.matcher) matcher_out_of_range (stray_bits-small m.matcher hm) (
      Carries->> _ (encode_header-Carries _ (omega arith)) (
        Carries->> _ (append_byte-Carries m.version) (
          Carries->> _ (append_byte-Carries _) (
            rw (flag_of m.matcher m.zid hm, what_of m.matcher m.zid hm)
              (Carries->> _
                (Carries-optional (is_valid m.zid) (λ on. zid_tail on)
                  (λ off. absent_zid m.zid hz off))
                (Carries-last _ (extensions-Carries m.extensions hs)))))))
  where
    zid_tail :
        is_valid m.zid ≡ true
        → Carries
            (encode_zid_bytes m.zid (length m.zid.bytes))
            (decode_zid_bytes (
              bit_and (packed_scout m.matcher (is_valid m.zid) (length m.zid.bytes) / 2 ^ 4) 0x0F
              + 1))
            m.zid
    zid_tail on =
        let b = valid_bounds m.zid on in
        rw (on, (len-Packed m.matcher (length m.zid.bytes) hm b.0 b.1).len)
          (encode_zid_bytes-Carries m.zid)

-- The loops over the locators: as many are read as the count says.
pub encode_each-Carries :
    (ls : List Bytes)
    → All (λ l. (valid_utf8 l ≡ true) × (length l < 2 ^ 8)) ls
    → Carries (encode_each ls) (decode_each (length ls)) ls
unfolding encode_each decode_each
encode_each-Carries [] hs = Carries-skip []
encode_each-Carries (l ∷ ls) ((text, fits), hs) =
    Carries->> _ (encode_string_z8-Carries l text fits) (Carries-last _ (encode_each-Carries ls hs))

locators-Carries :
    (ls : List Bytes)
    → length ls < 2 ^ 8
    → All (λ l. (valid_utf8 l ≡ true) × (length l < 2 ^ 8)) ls
    → Carries (encode_locators ls) decode_locators ls
unfolding encode_locators decode_locators
locators-Carries ls h hs =
    Carries-guard (ltb 0xFF (length ls)) too_many_locators (ground arith)
      (Carries->> _ (encode_z8-Carries (length ls) h) (encode_each-Carries ls hs))

some_locators-Carries :
    (ls : List Bytes)
    → length ls < 2 ^ 8
    → All (λ l. (valid_utf8 l ≡ true) × (length l < 2 ^ 8)) ls
    → Carries
        (when (some_locators ls) (encode_locators ls))
        (optional (some_locators ls) [] decode_locators)
        ls
some_locators-Carries [] h hs = Carries-optional false (λ on. cc) (λ off. refl)
some_locators-Carries (l ∷ ls) h hs =
    Carries-optional true (λ on. locators-Carries (l ∷ ls) h hs) (λ off. cc)

-- Every HELLO whose parts fit the wire is read back, with its locators in order.
pub encode_hello-Carries :
    (m : Hello)
    → m.what_am_i < 4
    → 1 ≤ length m.zid.bytes
    → length m.zid.bytes ≤ 16
    → length m.locators < 2 ^ 8
    → All (λ l. (valid_utf8 l ≡ true) × (length l < 2 ^ 8)) m.locators
    → All IsExt m.extensions
    → Carries
        (encode_hello m)
        (after_header decode_hello)
        (record m { extensions = set_more m.extensions })
unfolding encode_hello decode_hello
encode_hello-Carries m hw lo hi hl ls hs = Carries->> _ (encode_header-Carries _ (omega arith)) (
    Carries->> _ (append_byte-Carries m.version) (
      Carries->> _ (encode_packed_zid_byte-Carries (length m.zid.bytes) m.what_am_i lo hi hw) (
        Carries->> _ (encode_zid_bytes-Carries m.zid) (
          Carries->> _ (some_locators-Carries m.locators hl ls)
            (Carries-last _ (extensions-Carries m.extensions hs))))))

abbrev agrees : Bool → Bool → Bool
agrees true b = b
agrees false b = not b

agrees→eq : (a b : Bool) → agrees a b ≡ true → a ≡ b
agrees→eq true true h = refl
agrees→eq true false h = cc
agrees→eq false true h = cc
agrees→eq false false h = refl

-- A matcher has a stray bit exactly where it is above seven.
pub stray_bits_lem : (m : ℕ) → m < 256 → stray_bits m ≡ ltb 7 m
unfolding all_below stray_bits
stray_bits_lem m h =
    agrees→eq _ _ (all_below-at 256 (λ m. agrees (stray_bits m) (ltb 7 m)) m refl h)

-- The bit of a role, for each of the three roles.
role_bit : (role m : ℕ) → role ≤ 2 → m < 8 → matches m role ≡ (m / 2 ^ role % 2 == 1)
unfolding all_below matches
role_bit zero m lo h =
    agrees→eq _ _ (all_below-at 8 (λ m. agrees (matches m 0) (m / 2 ^ 0 % 2 == 1)) m refl h)
role_bit (suc zero) m lo h =
    agrees→eq _ _ (all_below-at 8 (λ m. agrees (matches m 1) (m / 2 ^ 1 % 2 == 1)) m refl h)
role_bit (suc (suc zero)) m lo h =
    agrees→eq _ _ (all_below-at 8 (λ m. agrees (matches m 2) (m / 2 ^ 2 % 2 == 1)) m refl h)
role_bit (suc (suc (suc r))) m lo h = absurd (omega arith)

-- A role of at most two is in a matcher exactly where its bit is set; no other role is in any.
pub matches_lem : (m role : ℕ) → m < 8 → matches m role ≡ (leb role 2 && m / 2 ^ role % 2 == 1)
matches_lem m role h = elim (Bool-cases (leb role 2)) [
  | inl e ↦ rw (e) (role_bit role m (ground arith) h)
  | inr e ↦ rw (e) (unfold matches in ground arith)
]

-- A SCOUT whose matcher, a byte, is above seven is refused, and nothing is written.
pub encode_scout-refuses :
    (m : Scout) (w : Bytes)
    → m.matcher < 256
    → 7 < m.matcher
    → encode_scout m w ≡ failed matcher_out_of_range w
unfolding encode_scout refuse
encode_scout-refuses m w byte above =
    let e : stray_bits m.matcher ≡ true = stray_bits_lem m.matcher byte ∙ ground arith in
    rw (e) refl
