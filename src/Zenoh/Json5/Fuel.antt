-- ===== src/Zenoh/Json5/Fuel.antt =====
-- zenoh/json5.go: the parser ends on every text.
use zenoh_go_client.Prelude.{
  ℕ, zero, suc, ◌+◌, ◌*◌, ◌<◌, ◌≢◌, not, ◌||◌, [], ◌∷◌, length, drop, length-drop, Option, ◌==◌,
  arith,
}
use zenoh_go_client.Codec.Types.{Bytes}
use zenoh_go_client.Zenoh.Json5.{
  skip, Json, object, array, string, Items, no_items, Fields, no_fields, Parsed, spent, peek,
}
use zenoh_go_client.Zenoh.Json5.Lexical.{Unicode, is_quote}
use zenoh_go_client.Zenoh.Json5.Parser.{
  set_field, append_item, parse_value, parse_object, parse_members, after_key, after_member,
  parse_array, parse_elements, after_element, finish, starts_number, enough, parse_json5,
}
-- The parser ended within its fuel, and what it leaves is shorter than `n`.
use zenoh_go_client.Zenoh.Json5.Ends.{
  Ends, Ends-bind, leaves, refuses, Ends-if, Ends-when, Ends-more, length-skip, parse_string-Ends,
  parse_key-Ends, parse_number-Ends, parse_bool-Ends, parse_null-Ends, length-behind, wrap-Ends,
}

module _ {F : Type 0} (pf : Bytes → Option F) (u : Unicode) where
  mutual
    unfolding parse_value

    value-Ends : (f : ℕ) (s : Bytes) → 5 * length s < f → Ends (length s) (parse_value pf u f s)
    value-Ends zero s h = absurd (omega arith)
    value-Ends (suc f) [] h = refuses
    value-Ends (suc f) (c ∷ r) h =
        let kept = length-skip r in
        Ends-if (c == b'{')
          (wrap-Ends object (omega (arith, kept)) (object-Ends f (skip r) (omega (arith, kept))))
          (Ends-if (c == b'[')
            (wrap-Ends array (omega (arith, kept)) (array-Ends f (skip r) (omega (arith, kept))))
            (Ends-if (is_quote c) (wrap-Ends string (omega arith) (parse_string-Ends c r)) (
              Ends-if (c == b't' || c == b'f') (parse_bool-Ends c r) (
                Ends-if (c == b'n') (parse_null-Ends c r)
                  (Ends-if (starts_number c) (parse_number-Ends pf (c ∷ r)) refuses)))))

    object-Ends :
        (f : ℕ) (s : Bytes) → 5 * length s + 3 < f → Ends (suc (length s)) (parse_object pf u f s)
    object-Ends zero s h = absurd (omega arith)
    object-Ends (suc f) s h =
        Ends-when (peek s == b'}') (λ e. leaves (omega (arith, length-drop 1 s)))
          (λ e. members-Ends f s no_fields (omega arith))

    members-Ends :
        (f : ℕ) (s : Bytes) (out : Fields F)
        → 5 * length s + 2 < f
        → Ends (suc (length s)) (parse_members pf u f s out)
    members-Ends zero s out h = absurd (omega arith)
    members-Ends (suc f) s out h = Ends-bind (parse_key-Ends u (skip s)) λ key r l.
        Ends-more (omega (arith, length-skip s, length-skip r))
          (after_key-Ends f key (skip r) out (omega (arith, length-skip s, length-skip r)))

    after_key-Ends :
        (f : ℕ) (key s : Bytes) (out : Fields F)
        → 5 * length s + 1 < f
        → Ends (suc (length s)) (after_key pf u f key s out)
    after_key-Ends zero key s out h = absurd (omega arith)
    after_key-Ends (suc f) key s out h =
        Ends-when (not (peek s == b':')) (λ e. refuses)
          λ e.
            let behind = length-behind s b':' (ground arith) (omega arith) in
            let kept = length-skip (drop 1 s) in
            Ends-bind (value-Ends f (skip (drop 1 s)) (omega arith)) λ v r l.
              Ends-more (omega (arith, length-skip r))
                (after_member-Ends f (skip r) (set_field key v out) (omega (arith, length-skip r)))

    after_member-Ends :
        (f : ℕ) (s : Bytes) (out : Fields F)
        → 5 * length s + 1 < f
        → Ends (suc (length s)) (after_member pf u f s out)
    after_member-Ends zero s out h = absurd (omega arith)
    after_member-Ends (suc f) s out h =
        let next = skip (drop 1 s) in
        let kept = length-skip (drop 1 s) in
        let cut = length-drop 1 s in
        Ends-when (peek s == b',')
          (λ e.
            let behind = length-behind s b',' e (omega arith) in
            Ends-if (peek next == b'}') (leaves (omega (arith, kept, cut, length-drop 1 next)))
              (Ends-more (omega arith) (members-Ends f next out (omega arith))))
          (λ e. Ends-if (peek s == b'}') (leaves (omega (arith, cut))) refuses)

    array-Ends :
        (f : ℕ) (s : Bytes) → 5 * length s + 3 < f → Ends (suc (length s)) (parse_array pf u f s)
    array-Ends zero s h = absurd (omega arith)
    array-Ends (suc f) s h =
        Ends-when (peek s == b']') (λ e. leaves (omega (arith, length-drop 1 s)))
          (λ e. elements-Ends f s no_items (omega arith))

    elements-Ends :
        (f : ℕ) (s : Bytes) (out : Items F)
        → 5 * length s + 2 < f
        → Ends (suc (length s)) (parse_elements pf u f s out)
    elements-Ends zero s out h = absurd (omega arith)
    elements-Ends (suc f) s out h =
        let kept = length-skip s in
        Ends-bind (value-Ends f (skip s) (omega arith)) λ v r l.
          Ends-more (omega (arith, length-skip r))
            (after_element-Ends f (skip r) (append_item out v) (omega (arith, length-skip r)))

    after_element-Ends :
        (f : ℕ) (s : Bytes) (out : Items F)
        → 5 * length s + 1 < f
        → Ends (suc (length s)) (after_element pf u f s out)
    after_element-Ends zero s out h = absurd (omega arith)
    after_element-Ends (suc f) s out h =
        let next = skip (drop 1 s) in
        let kept = length-skip (drop 1 s) in
        let cut = length-drop 1 s in
        Ends-when (peek s == b',')
          (λ e.
            let behind = length-behind s b',' e (omega arith) in
            Ends-if (peek next == b']') (leaves (omega (arith, kept, cut, length-drop 1 next)))
              (Ends-more (omega arith) (elements-Ends f next out (omega arith))))
          (λ e. Ends-if (peek s == b']') (leaves (omega (arith, cut))) refuses)

  Ends-spent : {A : Type 0} {n : ℕ} {p : Parsed A} → Ends n p → p ≢ spent
  Ends-spent (leaves h) = cc
  Ends-spent refuses = cc

  -- The parser ends on every text: its fuel, five rounds for a byte and five more, is enough.
  pub parse_json5-ends : (src : Bytes) → parse_json5 pf u src ≢ spent
  unfolding parse_json5
  parse_json5-ends src = Ends-spent (
      Ends-bind {m = suc (length src)}
        (value-Ends (enough src) (skip src) (omega (arith, length-skip src)))
        λ v r l. finish-Ends v (skip r))
    where
      finish-Ends : (v : Json F) (r : Bytes) → Ends (suc (length src)) (finish v r)
      finish-Ends v [] = leaves (omega arith)
      finish-Ends v (c ∷ r) = refuses
