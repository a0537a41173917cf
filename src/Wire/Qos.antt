-- ===== src/Wire/Qos.antt =====
-- internal/wire/qos.go: the quality-of-service byte of messages and lanes.
use zenoh_go_client.Prelude.{ℕ, ◌+◌, ◌*◌, ◌/◌, ◌%◌, ◌<◌, ◌≡◌, refl, Bool, bit_and, leb, arith}
use zenoh_go_client.Prelude.Bits.{all_below, table, and_mask, or_disjoint}
use zenoh_go_client.Codec.Header.{or_if, has_bit}
use zenoh_go_client.Codec.Header.Laws.{digit, and_0x20}

abbrev pub ext_id_qos : ℕ
ext_id_qos = 1

abbrev pub qos_priority_data : ℕ
qos_priority_data = 5

abbrev pub qos_priority_background : ℕ
qos_priority_background = 7

unfoldable pub priority_is_valid : ℕ → Bool
priority_is_valid p = leb p qos_priority_background

pub record Qos : Type 0 where
  pub priority : ℕ
  pub dont_drop : Bool
  pub express : Bool
  pub dont_drop_first : Bool

unfoldable pub encode_qos_z64 : Qos → ℕ
encode_qos_z64 q =
    or_if q.dont_drop_first 32 (or_if q.express 16 (or_if q.dont_drop 8 (bit_and q.priority 7)))

unfoldable pub decode_qos_z64 : ℕ → Qos
decode_qos_z64 v =
    let b = bit_and v 0xFF % 256 in
    record {
      priority = bit_and b 7;
      dont_drop = has_bit b 8;
      express = has_bit b 16;
      dont_drop_first = has_bit b 32;
    }

and_0x08 : (b : ℕ) → b < 256 → bit_and b 0x08 ≡ b / 8 % 2 * 8
unfolding all_below
and_0x08 = table 256 _ _ refl

and_0x10 : (b : ℕ) → b < 256 → bit_and b 0x10 ≡ b / 16 % 2 * 16
unfolding all_below
and_0x10 = table 256 _ _ refl

abbrev qos_sum : Qos → ℕ
qos_sum q = q.priority + digit q.dont_drop * 8 + digit q.express * 16 + digit q.dont_drop_first * 32

pub encode_qos_z64-sum : (q : Qos) → q.priority < 8 → encode_qos_z64 q ≡ qos_sum q
unfolding encode_qos_z64 digit
encode_qos_z64-sum q h = ground (
  arith,
  and_mask 3 q.priority,
  or_disjoint 3 q.priority 1,
  or_disjoint 4 q.priority 1,
  or_disjoint 4 (q.priority + 8) 1,
  or_disjoint 5 q.priority 1,
  or_disjoint 5 (q.priority + 8) 1,
  or_disjoint 5 (q.priority + 16) 1,
  or_disjoint 5 (q.priority + 24) 1,
)

-- Every quality of service with a three-bit priority survives the byte, which stays below 64.
pub decode_qos_z64-encode_qos_z64 :
    (q : Qos) → q.priority < 8 → (decode_qos_z64 (encode_qos_z64 q) ≡ q) × (encode_qos_z64 q < 64)
unfolding decode_qos_z64 digit
decode_qos_z64-encode_qos_z64 q h = rw (encode_qos_z64-sum q h) (
  ground (
    arith,
    and_mask 8 (qos_sum q),
    and_mask 3 (qos_sum q),
    and_0x08 (qos_sum q),
    and_0x10 (qos_sum q),
    and_0x20 (qos_sum q),
  ),
  ground arith,
)
