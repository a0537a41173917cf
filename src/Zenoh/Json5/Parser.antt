-- ===== src/Zenoh/Json5/Parser.antt =====
-- zenoh/json5.go: the recursive descent. Each call takes a unit of fuel; five for each byte of the text and
-- five more are given.
use zenoh_go_client.Prelude.{
  ℕ, zero, suc, ◌+◌, ◌*◌, Bool, not, ◌||◌, [], ◌∷◌, length, drop, Option, ◌==◌, bytes_eq,
  if◌then◌else◌,
}
use zenoh_go_client.Codec.Types.{Bytes}
use zenoh_go_client.Zenoh.Json5.{
  Json, array, object, string, Items, no_items, item, Fields, no_fields, field, trailing_input,
  end_of_input, unexpected_character, expected_colon, expected_comma_or_brace,
  expected_comma_or_bracket, Parsed, parsed, spent, bind, refuse, peek, skip,
}
use zenoh_go_client.Zenoh.Json5.Lexical.{
  Unicode, is_digit, is_sign, is_quote, parse_string, parse_number, parse_bool, parse_null,
  parse_key,
}

module _ {F : Type 0} where
  -- `out[key] = val`
  unfoldable pub set_field : Bytes → Json F → Fields F → Fields F
  set_field k v no_fields = field k v no_fields
  set_field k v (field k' v' fs) =
      let rest = set_field k v fs in if bytes_eq k k' then field k v fs else field k' v' rest

  -- `append(out, v)`
  unfoldable pub append_item : Items F → Json F → Items F
  append_item no_items v = item v no_items
  append_item (item w ws) v = item w (append_item ws v)

  -- The value as a value of another kind.
  abbrev pub wrap {ℓ} : {A : Type ℓ} → (A → Json F) → Parsed A → Parsed (Json F)
  wrap f p = bind p λ a r. parsed (f a) r

abbrev pub finish {ℓ} : {A : Type ℓ} → A → Bytes → Parsed A
finish v [] = parsed v []
finish v (c ∷ r) = refuse trailing_input (c ∷ r)

abbrev pub enough : Bytes → ℕ
enough s = 5 * length s + 5

abbrev pub starts_number : ℕ → Bool
starts_number c = (is_sign c || c == b'.') || is_digit c

module _ {F : Type 0} (parse_float : Bytes → Option F) (u : Unicode) where
  unfoldable mutual
    pub parse_value : ℕ → Bytes → Parsed (Json F)
    parse_value zero s = spent
    parse_value (suc f) [] = refuse end_of_input []
    parse_value (suc f) (c ∷ r) =
        let members = wrap object (parse_object f (skip r)) in
        let elements = wrap array (parse_array f (skip r)) in
        if c == b'{'
        then members
        else if c == b'['
        then elements
        else if is_quote c
        then wrap string (parse_string (c ∷ r))
        else if c == b't' || c == b'f'
        then parse_bool (c ∷ r)
        else if c == b'n'
        then parse_null (c ∷ r)
        else if starts_number c
        then parse_number parse_float (c ∷ r)
        else refuse unexpected_character (c ∷ r)

    -- Behind the brace and what is skipped after it.
    pub parse_object : ℕ → Bytes → Parsed (Fields F)
    parse_object zero s = spent
    parse_object (suc f) s =
        let more = parse_members f s no_fields in
        if peek s == b'}' then parsed no_fields (drop 1 s) else more

    -- A round of the loop: what follows a key, its colon and its value.
    pub parse_members : ℕ → Bytes → Fields F → Parsed (Fields F)
    parse_members zero s out = spent
    parse_members (suc f) s out = bind (parse_key u (skip s)) λ key r. after_key f key (skip r) out

    pub after_key : ℕ → Bytes → Bytes → Fields F → Parsed (Fields F)
    after_key zero key s out = spent
    after_key (suc f) key s out =
        let more =
          bind (parse_value f (skip (drop 1 s)))
            λ v r. after_member f (skip r) (set_field key v out) in
        if not (peek s == b':') then refuse expected_colon s else more

    pub after_member : ℕ → Bytes → Fields F → Parsed (Fields F)
    after_member zero s out = spent
    after_member (suc f) s out =
        let next = skip (drop 1 s) in
        let more = parse_members f next out in
        if peek s == b','
        then (if peek next == b'}' then parsed out (drop 1 next) else more)
        else if peek s == b'}'
        then parsed out (drop 1 s)
        else refuse expected_comma_or_brace s

    pub parse_array : ℕ → Bytes → Parsed (Items F)
    parse_array zero s = spent
    parse_array (suc f) s =
        let more = parse_elements f s no_items in
        if peek s == b']' then parsed no_items (drop 1 s) else more

    pub parse_elements : ℕ → Bytes → Items F → Parsed (Items F)
    parse_elements zero s out = spent
    parse_elements (suc f) s out =
        bind (parse_value f (skip s)) λ v r. after_element f (skip r) (append_item out v)

    pub after_element : ℕ → Bytes → Items F → Parsed (Items F)
    after_element zero s out = spent
    after_element (suc f) s out =
        let next = skip (drop 1 s) in
        let more = parse_elements f next out in
        if peek s == b','
        then (if peek next == b']' then parsed out (drop 1 next) else more)
        else if peek s == b']'
        then parsed out (drop 1 s)
        else refuse expected_comma_or_bracket s

  unfoldable pub parse_json5 : Bytes → Parsed (Json F)
  parse_json5 src = bind (parse_value (enough src) (skip src)) λ v r. finish v (skip r)
