-- ===== src/Zenoh/Json5/RoundTrip.antt =====
-- zenoh/json5.go: a printed value is read back.
use zenoh_go_client.Prelude.{
  ℕ, zero, suc, ◌*◌, ◌<◌, ◌≡◌, refl, ap, ◌∙◌, true, false, [], ◌∷◌, ◌++◌, length, Option, arith,
}
use zenoh_go_client.Codec.Types.{Bytes}
use zenoh_go_client.Zenoh.Json5.{
  Json, Items, no_items, item, Fields, no_fields, field, parsed, skip, skip_in,
}
use zenoh_go_client.Zenoh.Json5.Lexical.{Unicode}
use zenoh_go_client.Zenoh.Json5.Parser.{
  set_field, append_item, parse_value, after_member, after_element, enough, parse_json5,
}
use zenoh_go_client.Zenoh.Json5.Printer.{
  escaped, print_value, print_items, print_fields, set_all, append_all, IsPrintable, is_null,
  is_bool, is_int, is_string, is_array, is_object, AreItems, items_end, items_more, AreFields,
  fields_end, fields_more,
}
use zenoh_go_client.Zenoh.Json5.Printed.{Stops}
use zenoh_go_client.Zenoh.Json5.Heads.{
  print_value-Head, skip-Head, length-quoted, length-print_value, length-print_items,
  length-print_fields,
}
use zenoh_go_client.Zenoh.Json5.Entered.{set_all-AreDistinct}
use zenoh_go_client.Zenoh.Json5.Steps.{
  append_all-item, elements-step, members-step, print_items-Stops, print_fields-Stops, array-step,
  object-step, items-step, fields-step, number-step, null_reads, true_reads, false_reads,
  string_reads, no_items_read, no_fields_read, items_end_read, fields_end_read,
}

module _ {F : Type 0} (pf : Bytes → Option F) (u : Unicode) where
  mutual
    unfolding print_value set_all append_all append_item

    value-reads :
        (v : Json F) (rest : Bytes)
        → Stops rest
        → (f : ℕ) → IsPrintable v
        → 5 * length (print_value v rest) < f
        → parse_value pf u f (print_value v rest) ≡ parsed v rest
    value-reads v rest stops zero p h = absurd (omega (arith, length-print_value v rest p))
    value-reads v rest stops (suc zero) p h = absurd (omega (arith, length-print_value v rest p))
    value-reads v rest stops (suc (suc zero)) p h =
        absurd (omega (arith, length-print_value v rest p))
    value-reads v rest stops (suc (suc (suc zero))) p h =
        absurd (omega (arith, length-print_value v rest p))
    value-reads _ rest stops (suc (suc (suc (suc f)))) is_null h =
        null_reads pf u (suc (suc (suc f))) rest
    value-reads _ rest stops (suc (suc (suc (suc f)))) (is_bool true) h =
        true_reads pf u (suc (suc (suc f))) rest
    value-reads _ rest stops (suc (suc (suc (suc f)))) (is_bool false) h =
        false_reads pf u (suc (suc (suc f))) rest
    value-reads _ rest stops (suc (suc (suc (suc f)))) (is_int n fits) h =
        number-step pf u (suc (suc (suc f))) n rest fits stops
    value-reads _ rest stops (suc (suc (suc (suc f)))) (is_string s) h =
        string_reads pf u (suc (suc (suc f))) s rest
    value-reads _ rest stops (suc (suc (suc (suc f)))) (is_array no_items p) h =
        no_items_read pf u (suc (suc f)) rest
    value-reads _ rest stops (suc (suc (suc (suc f)))) (is_array (item v vs) (items_more _ _ p ps))
          h =
        let back = print_items vs rest in
        let head = print_value-Head v back p in
        array-step pf u (suc (suc f)) (print_value v back) rest (item v vs) head (
          elements-step pf u (suc f) (print_value v back) back rest no_items v (item v vs) head
            (value-reads v back (print_items-Stops vs rest) (suc f) p (omega arith))
            (print_items-Stops vs rest)
            (items-reads vs rest (item v no_items) (suc f) ps
                (omega (arith, length-print_value v back p))
              ∙ ap (λ xs. parsed xs rest) (append_all-item v vs)))
    value-reads _ rest stops (suc (suc (suc (suc f)))) (is_object no_fields e p) h =
        no_fields_read pf u (suc (suc f)) rest
    value-reads _ rest stops (suc (suc (suc (suc f))))
          (is_object (field k v fs) e (fields_more _ _ _ p ps)) h =
        let back = print_fields fs rest in
        let head = print_value-Head v back p in
        let longer = length-quoted k (b':' ∷ print_value v back) in
        object-step pf u (suc (suc f)) (escaped k ++ (b'"' ∷ (b':' ∷ print_value v back))) rest
          (field k v fs)
          (members-step pf u f k (print_value v back) back rest no_fields v (field k v fs) head
            (value-reads v back (print_fields-Stops fs rest) f p (omega (arith, longer)))
            (print_fields-Stops fs rest)
            (fields-reads fs rest (set_field k v no_fields) f ps
                (omega (arith, longer, length-print_value v back p))
              ∙ ap (λ xs. parsed xs rest) (set_all-AreDistinct (field k v fs) e)))

    items-reads :
        (vs : Items F) (rest : Bytes) (out : Items F) (f : ℕ)
        → AreItems vs
        → 5 * length (print_items vs rest) < f
        → after_element pf u f (print_items vs rest) out ≡ parsed (append_all out vs) rest
    items-reads vs rest out zero p h = absurd (omega (arith, length-print_items vs rest p))
    items-reads vs rest out (suc zero) p h = absurd (omega (arith, length-print_items vs rest p))
    items-reads vs rest out (suc (suc zero)) p h =
        absurd (omega (arith, length-print_items vs rest p))
    items-reads vs rest out (suc (suc (suc zero))) p h =
        absurd (omega (arith, length-print_items vs rest p))
    items-reads _ rest out (suc (suc (suc (suc f)))) items_end h =
        items_end_read pf u (suc (suc (suc f))) rest out
    items-reads _ rest out (suc (suc (suc (suc f)))) (items_more v vs p ps) h =
        let back = print_items vs rest in
        let head = print_value-Head v back p in
        items-step pf u (suc (suc (suc f))) (print_value v back) rest out _ head (
          elements-step pf u (suc (suc f)) (print_value v back) back rest out v _ head
            (value-reads v back (print_items-Stops vs rest) (suc (suc f)) p (omega arith))
            (print_items-Stops vs rest)
            (items-reads vs rest (append_item out v) (suc (suc f)) ps
              (omega (arith, length-print_value v back p))))

    fields-reads :
        (fs : Fields F) (rest : Bytes) (out : Fields F) (f : ℕ)
        → AreFields fs
        → 5 * length (print_fields fs rest) < f
        → after_member pf u f (print_fields fs rest) out ≡ parsed (set_all out fs) rest
    fields-reads fs rest out zero p h = absurd (omega (arith, length-print_fields fs rest p))
    fields-reads fs rest out (suc zero) p h = absurd (omega (arith, length-print_fields fs rest p))
    fields-reads fs rest out (suc (suc zero)) p h =
        absurd (omega (arith, length-print_fields fs rest p))
    fields-reads fs rest out (suc (suc (suc zero))) p h =
        absurd (omega (arith, length-print_fields fs rest p))
    fields-reads _ rest out (suc (suc (suc (suc f)))) fields_end h =
        fields_end_read pf u (suc (suc (suc f))) rest out
    fields-reads _ rest out (suc (suc (suc (suc f)))) (fields_more k v fs p ps) h =
        let back = print_fields fs rest in
        let head = print_value-Head v back p in
        let longer = length-quoted k (b':' ∷ print_value v back) in
        fields-step pf u (suc (suc (suc f))) (escaped k ++ (b'"' ∷ (b':' ∷ print_value v back)))
          rest out _
          (members-step pf u (suc f) k (print_value v back) back rest out v _ head
            (value-reads v back (print_fields-Stops fs rest) (suc f) p (omega (arith, longer)))
            (print_fields-Stops fs rest)
            (fields-reads fs rest (set_field k v out) (suc f) ps
              (omega (arith, longer, length-print_value v back p))))

  -- The text that a printer of compact JSON gives of a value without floats, with 64-bit integers
  -- and with objects whose keys are distinct, is parsed to that value, and nothing of it is left.
  pub parse_json5-print_value :
      (v : Json F) → IsPrintable v → parse_json5 pf u (print_value v []) ≡ parsed v []
  unfolding parse_json5 skip skip_in
  parse_json5-print_value v p =
      let s = print_value v [] in
      rw (skip-Head s (print_value-Head v [] p), value-reads v [] tt (enough s) p (omega arith))
        refl
