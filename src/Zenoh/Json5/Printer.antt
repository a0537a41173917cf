-- ===== src/Zenoh/Json5/Printer.antt =====
-- A printer of values without floats, as the reference that the parser of zenoh/json5.go is held against.
use zenoh_go_client.Prelude.{
  ℕ, zero, suc, ◌+◌, ◌/◌, ◌%◌, ◌^◌, ◌<◌, ◌≡◌, Bool, true, false, ◌||◌, [], ◌∷◌, ◌++◌, ◌==◌, ltb,
  bytes_eq, if◌then◌else◌,
}
use zenoh_go_client.Codec.Types.{Bytes}
use zenoh_go_client.Zenoh.Json5.{
  ℤ, pos, negsuc, Json, null, bool, int, float, string, array, object, Items, no_items, item,
  Fields, no_fields, field,
}
use zenoh_go_client.Zenoh.Json5.Lexical.{true_text, false_text, null_text}
use zenoh_go_client.Zenoh.Json5.Parser.{set_field, append_item}

abbrev pub needs_escape : ℕ → Bool
needs_escape c = c == b'"' || c == b'\\'

unfoldable pub escaped : Bytes → Bytes
escaped [] = []
escaped (c ∷ s) = let rest = escaped s in if needs_escape c then b'\\' ∷ c ∷ rest else c ∷ rest

-- In double quotes, with what follows.
abbrev pub quoted : Bytes → Bytes → Bytes
quoted s rest = b'"' ∷ (escaped s ++ (b'"' ∷ rest))

-- The decimal digits of a number, in front of some bytes.
unfoldable pub digits_loop : ℕ → ℕ → Bytes → Bytes
digits_loop zero n back = back
digits_loop (suc fuel) n back =
    let more = digits_loop fuel (n / 10) ((b'0' + n % 10) ∷ back) in
    if ltb n 10 then (b'0' + n) ∷ back else more

unfoldable pub digits : ℕ → Bytes
digits n = digits_loop (suc n) n []

abbrev pub print_int : ℤ → Bytes
print_int (pos n) = digits n
print_int (negsuc n) = b'-' ∷ digits (suc n)

abbrev pub IsInt64 : ℤ → Type 0
IsInt64 (pos n) = n < 2 ^ 63
IsInt64 (negsuc n) = n < 2 ^ 63

module _ {F : Type 0} where
  -- Each prints in front of `rest`; the tails follow an element.
  unfoldable mutual
    pub print_value : Json F → Bytes → Bytes
    print_value null rest = null_text ++ rest
    print_value (bool true) rest = true_text ++ rest
    print_value (bool false) rest = false_text ++ rest
    print_value (int n) rest = print_int n ++ rest
    print_value (float x) rest = rest
    print_value (string s) rest = quoted s rest
    print_value (array no_items) rest = b'[' ∷ b']' ∷ rest
    print_value (array (item v vs)) rest = b'[' ∷ print_value v (print_items vs rest)
    print_value (object no_fields) rest = b'{' ∷ b'}' ∷ rest
    print_value (object (field k v fs)) rest =
        b'{' ∷ quoted k (b':' ∷ print_value v (print_fields fs rest))

    pub print_items : Items F → Bytes → Bytes
    print_items no_items rest = b']' ∷ rest
    print_items (item v vs) rest = b',' ∷ print_value v (print_items vs rest)

    pub print_fields : Fields F → Bytes → Bytes
    print_fields no_fields rest = b'}' ∷ rest
    print_fields (field k v fs) rest = b',' ∷ quoted k (b':' ∷ print_value v (print_fields fs rest))

  -- The fields entered one after the other.
  unfoldable pub set_all : Fields F → Fields F → Fields F
  set_all out no_fields = out
  set_all out (field k v fs) = set_all (set_field k v out) fs

  unfoldable pub append_all : Items F → Items F → Items F
  append_all out no_items = out
  append_all out (item v vs) = append_all (append_item out v) vs

  -- No field has this key.
  abbrev pub IsFresh : Bytes → Fields F → Type 0
  IsFresh k no_fields = Unit
  IsFresh k (field k' v fs) = (bytes_eq k k' ≡ false) × IsFresh k fs

  abbrev pub AreDistinct : Fields F → Type 0
  AreDistinct no_fields = Unit
  AreDistinct (field k v fs) = IsFresh k fs × AreDistinct fs

  -- No float, integers of 64 bits, and objects whose keys are distinct.
  mutual
    pub data IsPrintable : Json F → Type 0 where
      is_null : IsPrintable null
      is_bool : (b : Bool) → IsPrintable (bool b)
      is_int : (n : ℤ) → IsInt64 n → IsPrintable (int n)
      is_string : (s : Bytes) → IsPrintable (string s)
      is_array : (vs : Items F) → AreItems vs → IsPrintable (array vs)
      is_object : (fs : Fields F) → AreDistinct fs → AreFields fs → IsPrintable (object fs)

    pub data AreItems : Items F → Type 0 where
      items_end : AreItems no_items
      items_more : (v : Json F) (vs : Items F) → IsPrintable v → AreItems vs → AreItems (item v vs)

    pub data AreFields : Fields F → Type 0 where
      fields_end : AreFields no_fields
      fields_more :
          (k : Bytes) (v : Json F) (fs : Fields F)
          → IsPrintable v
          → AreFields fs
          → AreFields (field k v fs)
