-- ===== src/Zenoh/Json5/Heads.antt =====
-- zenoh/json5.go: how a printed value starts, and that it adds to the text behind it.
use zenoh_go_client.Prelude.{
  ℕ, suc, ◌+◌, ◌≤◌, ◌<◌, ◌≡◌, refl, sym, ap, ◌∙◌, true, false, [], ◌∷◌, ◌++◌, length, length-append,
  All, ◌==◌, arith,
}
use zenoh_go_client.Codec.Types.{Bytes}
use zenoh_go_client.Zenoh.Json5.{
  pos, negsuc, Json, Items, no_items, item, Fields, no_fields, field, skip, is_space, peek,
}
use zenoh_go_client.Zenoh.Json5.Lexical.{is_digit}
use zenoh_go_client.Zenoh.Json5.Printer.{
  escaped, quoted, digits, print_value, print_items, print_fields, IsPrintable, is_null, is_bool,
  is_int, is_string, is_array, is_object, AreItems, items_more, AreFields, fields_more,
}
use zenoh_go_client.Zenoh.Json5.Printed.{skip-solid, digits-all, digits-some}

-- A text that starts with a byte that is neither skipped nor a closing bracket.
pub record Head (s : Bytes) : Type 0 where
  pub first : ℕ
  pub back : Bytes
  pub split : s ≡ first ∷ back
  pub no_space : is_space first ≡ false
  pub no_comment : (first == b'/') ≡ false
  pub no_bracket : (first == b']') ≡ false

digits-Head : (n : ℕ) (rest : Bytes) → Head (digits n ++ rest)
digits-Head n rest = go (digits n) (digits-all n) (digits-some n)
  where
    go : (ds : Bytes) → All (λ c. is_digit c ≡ true) ds → 1 ≤ length ds → Head (ds ++ rest)
    go [] hs some_there = absurd (omega arith)
    go (d ∷ ds) (h, hs) some_there = record {
      first = d;
      back = ds ++ rest;
      split = refl;
      no_space = ground arith;
      no_comment = ground arith;
      no_bracket = ground arith;
    }

abbrev head_at :
    (c : ℕ) (r : Bytes)
    → is_space c ≡ false
    → (c == b'/') ≡ false
    → (c == b']') ≡ false
    → Head (c ∷ r)
head_at c r s k b = record {
  first = c;
  back = r;
  split = refl;
  no_space = s;
  no_comment = k;
  no_bracket = b;
}

pub skip-Head : (s : Bytes) → Head s → skip s ≡ s
skip-Head s h = ap skip h.split ∙ skip-solid h.first h.back h.no_space h.no_comment ∙ sym h.split

pub peek-Head : (s : Bytes) → Head s → (peek s == b']') ≡ false
peek-Head s h = ap (λ x. peek x == b']') h.split ∙ h.no_bracket

pub length-quoted : (s rest : Bytes) → length rest + 2 ≤ length (quoted s rest)
length-quoted s rest = omega (arith, length-append (escaped s) (b'"' ∷ rest))

module _ {F : Type 0} where
  pub print_value-Head : (v : Json F) (rest : Bytes) → IsPrintable v → Head (print_value v rest)
  unfolding print_value
  print_value-Head _ rest is_null = head_at b'n' _ refl refl refl
  print_value-Head _ rest (is_bool true) = head_at b't' _ refl refl refl
  print_value-Head _ rest (is_bool false) = head_at b'f' _ refl refl refl
  print_value-Head _ rest (is_int (pos n) h) = digits-Head n rest
  print_value-Head _ rest (is_int (negsuc n) h) = head_at b'-' _ refl refl refl
  print_value-Head _ rest (is_string s) = head_at b'"' _ refl refl refl
  print_value-Head _ rest (is_array no_items h) = head_at b'[' _ refl refl refl
  print_value-Head _ rest (is_array (item v vs) h) = head_at b'[' _ refl refl refl
  print_value-Head _ rest (is_object no_fields e h) = head_at b'{' _ refl refl refl
  print_value-Head _ rest (is_object (field k v fs) e h) = head_at b'{' _ refl refl refl

  -- Printing adds to the text behind.
  mutual
    unfolding print_value

    pub length-print_value :
        (v : Json F) (rest : Bytes) → IsPrintable v → length rest < length (print_value v rest)
    length-print_value _ rest is_null = omega arith
    length-print_value _ rest (is_bool true) = omega arith
    length-print_value _ rest (is_bool false) = omega arith
    length-print_value _ rest (is_int (pos n) h) =
        omega (arith, digits-some n, length-append (digits n) rest)
    length-print_value _ rest (is_int (negsuc n) h) =
        omega (arith, length-append (digits (suc n)) rest)
    length-print_value _ rest (is_string s) = omega (arith, length-quoted s rest)
    length-print_value _ rest (is_array no_items h) = omega arith
    length-print_value _ rest (is_array (item v vs) (items_more _ _ p ps)) =
        omega (arith, length-print_value v (print_items vs rest) p, length-print_items vs rest ps)
    length-print_value _ rest (is_object no_fields e h) = omega arith
    length-print_value _ rest (is_object (field k v fs) e (fields_more _ _ _ p ps)) = omega (
      arith,
      length-quoted k (b':' ∷ print_value v (print_fields fs rest)),
      length-print_value v (print_fields fs rest) p,
      length-print_fields fs rest ps,
    )

    pub length-print_items :
        (vs : Items F) (rest : Bytes) → AreItems vs → length rest < length (print_items vs rest)
    length-print_items no_items rest h = omega arith
    length-print_items (item v vs) rest (items_more _ _ p ps) =
        omega (arith, length-print_value v (print_items vs rest) p, length-print_items vs rest ps)

    pub length-print_fields :
        (fs : Fields F) (rest : Bytes) → AreFields fs → length rest < length (print_fields fs rest)
    length-print_fields no_fields rest h = omega arith
    length-print_fields (field k v fs) rest (fields_more _ _ _ p ps) = omega (
      arith,
      length-quoted k (b':' ∷ print_value v (print_fields fs rest)),
      length-print_value v (print_fields fs rest) p,
      length-print_fields fs rest ps,
    )
