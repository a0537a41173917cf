-- ===== src/Zenoh/Json5/Steps.antt =====
-- zenoh/json5.go: what one function of the parser does on a printed value.
use zenoh_go_client.Prelude.{
  ℕ, suc, ◌≤◌, ◌≡◌, refl, sym, ap, ◌∙◌, true, false, ◌||◌, [], ◌∷◌, ◌++◌, length, All, Option, ◌==◌,
  arith,
}
use zenoh_go_client.Codec.Types.{Bytes}
use zenoh_go_client.Zenoh.Json5.{
  ℤ, pos, negsuc, Json, null, bool, int, string, array, object, Items, no_items, item, Fields,
  no_fields, field, parsed,
}
use zenoh_go_client.Zenoh.Json5.Lexical.{
  Unicode, is_digit, is_quote, parse_number, parse_bool, parse_null, parse_key, null_text,
  true_text, false_text,
}
use zenoh_go_client.Zenoh.Json5.Parser.{
  set_field, append_item, parse_value, parse_members, after_member, parse_elements, after_element,
  starts_number,
}
use zenoh_go_client.Zenoh.Json5.Printer.{
  escaped, quoted, digits, print_int, print_value, print_items, print_fields, append_all, IsInt64,
}
use zenoh_go_client.Zenoh.Json5.Printed.{
  Stops, skip-solid, skip-Stops, parse_string-quoted, digits-all, digits-some,
  parse_number-print_int,
}
use zenoh_go_client.Zenoh.Json5.Heads.{Head, skip-Head, peek-Head}

module _ {F : Type 0} where
  append_items : Items F → Items F → Items F
  append_items no_items vs = vs
  append_items (item w ws) vs = item w (append_items ws vs)

  append_items-append_item :
      (out : Items F) (v : Json F) (vs : Items F)
      → append_items (append_item out v) vs ≡ append_items out (item v vs)
  unfolding append_item append_items
  append_items-append_item no_items v vs = refl
  append_items-append_item (item w ws) v vs = ap (item w) (append_items-append_item ws v vs)

  append_items-no_items : (ws : Items F) → append_items ws no_items ≡ ws
  unfolding append_items
  append_items-no_items no_items = refl
  append_items-no_items (item w ws) = ap (item w) (append_items-no_items ws)

  append_all-append_items : (out vs : Items F) → append_all out vs ≡ append_items out vs
  unfolding append_all
  append_all-append_items out no_items = sym (append_items-no_items out)
  append_all-append_items out (item v vs) =
      append_all-append_items (append_item out v) vs ∙ append_items-append_item out v vs

  pub append_all-item : (v : Json F) (vs : Items F) → append_all (item v no_items) vs ≡ item v vs
  unfolding append_items
  append_all-item v vs = append_all-append_items (item v no_items) vs

  pub print_items-Stops : (vs : Items F) (rest : Bytes) → Stops (print_items vs rest)
  unfolding print_value
  print_items-Stops no_items rest = refl
  print_items-Stops (item v vs) rest = refl

  pub print_fields-Stops : (fs : Fields F) (rest : Bytes) → Stops (print_fields fs rest)
  unfolding print_value
  print_fields-Stops no_fields rest = refl
  print_fields-Stops (field k v fs) rest = refl

module _ {F : Type 0} (pf : Bytes → Option F) (u : Unicode) where
  -- One element behind what is read already, and the rest of the array.
  pub elements-step :
      (f : ℕ) (s back rest : Bytes) (out : Items F) (v : Json F) (xs : Items F)
      → Head s
      → parse_value pf u f s ≡ parsed v back
      → Stops back
      → after_element pf u f back (append_item out v) ≡ parsed xs rest
      → parse_elements pf u (suc f) s out ≡ parsed xs rest
  unfolding parse_value
  elements-step f s back rest out v xs h value stops later =
      rw (skip-Head s h, value, skip-Stops back stops) later

  parse_key-quoted : (k rest : Bytes) → parse_key u (quoted k rest) ≡ parsed k rest
  unfolding parse_key
  parse_key-quoted k rest = parse_string-quoted k rest

  -- One field.
  pub members-step :
      (f : ℕ) (k s back rest : Bytes) (out : Fields F) (v : Json F) (xs : Fields F)
      → Head s
      → parse_value pf u f s ≡ parsed v back
      → Stops back
      → after_member pf u f back (set_field k v out) ≡ parsed xs rest
      → parse_members pf u (suc (suc f)) (quoted k (b':' ∷ s)) out ≡ parsed xs rest
  unfolding parse_value
  members-step f k s back rest out v xs h value stops later =
      let at_quote = skip-solid b'"' (escaped k ++ (b'"' ∷ (b':' ∷ s))) refl refl in
      let at_colon = skip-solid b':' s refl refl in
      rw
        (
          at_quote,
          parse_key-quoted k (b':' ∷ s),
          at_colon,
          skip-Head s h,
          value,
          skip-Stops back stops,
        )
        later

  pub array-step :
      (f : ℕ) (s rest : Bytes) (xs : Items F)
      → Head s
      → parse_elements pf u f s no_items ≡ parsed xs rest
      → parse_value pf u (suc (suc f)) (b'[' ∷ s) ≡ parsed (array xs) rest
  unfolding parse_value
  array-step f s rest xs h read = rw (skip-Head s h, peek-Head s h, read) refl

  pub object-step :
      (f : ℕ) (s rest : Bytes) (xs : Fields F)
      → parse_members pf u f (b'"' ∷ s) no_fields ≡ parsed xs rest
      → parse_value pf u (suc (suc f)) (b'{' ∷ b'"' ∷ s) ≡ parsed (object xs) rest
  unfolding parse_value
  object-step f s rest xs read = rw (skip-solid b'"' s refl refl, read) refl

  pub items-step :
      (f : ℕ) (s rest : Bytes) (out xs : Items F)
      → Head s
      → parse_elements pf u f s out ≡ parsed xs rest
      → after_element pf u (suc f) (b',' ∷ s) out ≡ parsed xs rest
  unfolding parse_value
  items-step f s rest out xs h read = rw (skip-Head s h, peek-Head s h, read) refl

  pub fields-step :
      (f : ℕ) (s rest : Bytes) (out xs : Fields F)
      → parse_members pf u f (b'"' ∷ s) out ≡ parsed xs rest
      → after_member pf u (suc f) (b',' ∷ b'"' ∷ s) out ≡ parsed xs rest
  unfolding parse_value
  fields-step f s rest out xs read = rw (skip-solid b'"' s refl refl, read) refl

  pub number-step :
      (f : ℕ) (n : ℤ) (rest : Bytes)
      → IsInt64 n
      → Stops rest
      → parse_value pf u (suc f) (print_int n ++ rest) ≡ parsed (int n) rest
  unfolding parse_value
  number-step f (negsuc n) rest fits stops = parse_number-print_int pf (negsuc n) rest fits stops
  number-step f (pos n) rest fits stops =
      go (digits n) (digits-all n) (digits-some n)
        (parse_number-print_int pf (pos n) rest fits stops)
    where
      go :
          (ds : Bytes)
          → All (λ c. is_digit c ≡ true) ds
          → 1 ≤ length ds
          → parse_number pf (ds ++ rest) ≡ parsed (int (pos n)) rest
          → parse_value pf u (suc f) (ds ++ rest) ≡ parsed (int (pos n)) rest
      go [] hs some_there read = absurd (omega arith)
      go (d ∷ ds) (h, hs) some_there read =
          let a : (d == b'{') ≡ false = ground arith in
          let b : (d == b'[') ≡ false = ground arith in
          let c : is_quote d ≡ false = ground arith in
          let t : (d == b't' || d == b'f') ≡ false = ground arith in
          let n' : (d == b'n') ≡ false = ground arith in
          let num : starts_number d ≡ true = ground arith in rw (a, b, c, t, n', num) read

  pub null_reads :
      (f : ℕ) (rest : Bytes) → parse_value pf u (suc f) (null_text ++ rest) ≡ parsed null rest
  unfolding parse_value parse_null
  null_reads f rest = refl

  pub true_reads :
      (f : ℕ) (rest : Bytes)
      → parse_value pf u (suc f) (true_text ++ rest) ≡ parsed (bool true) rest
  unfolding parse_value parse_bool
  true_reads f rest = refl

  pub false_reads :
      (f : ℕ) (rest : Bytes)
      → parse_value pf u (suc f) (false_text ++ rest) ≡ parsed (bool false) rest
  unfolding parse_value parse_bool
  false_reads f rest = refl

  pub string_reads :
      (f : ℕ) (s rest : Bytes) → parse_value pf u (suc f) (quoted s rest) ≡ parsed (string s) rest
  unfolding parse_value
  string_reads f s rest = rw (parse_string-quoted s rest) refl

  pub no_items_read :
      (f : ℕ) (rest : Bytes)
      → parse_value pf u (suc (suc f)) (b'[' ∷ b']' ∷ rest) ≡ parsed (array no_items) rest
  unfolding parse_value
  no_items_read f rest = rw (skip-solid b']' rest refl refl) refl

  pub no_fields_read :
      (f : ℕ) (rest : Bytes)
      → parse_value pf u (suc (suc f)) (b'{' ∷ b'}' ∷ rest) ≡ parsed (object no_fields) rest
  unfolding parse_value
  no_fields_read f rest = rw (skip-solid b'}' rest refl refl) refl

  pub items_end_read :
      (f : ℕ) (rest : Bytes) (out : Items F)
      → after_element pf u (suc f) (b']' ∷ rest) out ≡ parsed out rest
  unfolding parse_value
  items_end_read f rest out = refl

  pub fields_end_read :
      (f : ℕ) (rest : Bytes) (out : Fields F)
      → after_member pf u (suc f) (b'}' ∷ rest) out ≡ parsed out rest
  unfolding parse_value
  fields_end_read f rest out = refl
