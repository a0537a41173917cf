-- ===== src/Zenoh/Config/Nesting.antt =====
-- zenoh/config.go: `InsertJSON5` at a path, and the document that holds the value below the path's keys.
use zenoh_go_client.Prelude.{
  ◌≡◌, refl, not, if◌then◌else◌, inl, inr, subst, bytes_eq→eq, ap, sym, ◌∙◌, Bool, true, false,
  List, [], ◌∷◌, ◌++◌, Option, none, some, bytes_eq, Bool-cases, append-nil, append_assoc,
}
use zenoh_go_client.Prelude.Dict.{bytes_eq_comm}
use zenoh_go_client.Codec.Types.{Bytes}
use zenoh_go_client.Zenoh.Json5.{
  Json, null, bool, int, float, string, array, object, no_fields, field,
}
use zenoh_go_client.Zenoh.Config.{Config, ConfigError, Read, read, unknown_key, Floats}
use zenoh_go_client.Zenoh.Config.Keys.{
  key_mode, key_id, key_connect, key_scouting, key_listen, Node, leaf, subtree, Handlers, child,
  navigate, is_unknown, go_on, walk, leaf_string, set_mode, field_of,
}
use zenoh_go_client.Zenoh.Config.Insert.{
  listen_handlers, connect_handlers, scouting_handlers, mode_then, apply_key, apply_fields,
  apply_config,
}

module _ {F : Type 0} where
  -- A value below keys: one object with one field for each key.
  unfoldable pub nest : List Bytes → Json F → Json F
  nest [] v = v
  nest (k ∷ ks) v = object (field k (nest ks v) no_fields)

  -- The error of a result is not that of an unknown key.
  abbrev pub is_known : Config F × Option ConfigError → Bool
  is_known (c, none) = true
  is_known (c, some e) = not (is_unknown e)

  navigate-none : (ks : List Bytes) → navigate {F = F} none ks ≡ none
  unfolding navigate
  navigate-none [] = refl
  navigate-none (k ∷ ks) = navigate-none ks

  navigate-append :
      (n : Option (Node F)) (p : List Bytes) (k : Bytes) (ks : List Bytes)
      → navigate n (p ++ (k ∷ ks)) ≡ navigate (child (navigate n p) k) ks
  unfolding navigate
  navigate-append n [] k ks = refl
  navigate-append n (x ∷ p) k ks = navigate-append (child n x) p k ks

  walk-lost :
      (tree : Handlers F) (c : Config F) (b : Bytes) (p : List Bytes) (v : Json F)
      → navigate (some (subtree tree)) p ≡ none
      → walk tree c (b ∷ p) v ≡ (c, some (unknown_key (b ∷ p)))
  unfolding walk
  walk-lost tree c b p null e = rw (e) refl
  walk-lost tree c b p (bool x) e = rw (e) refl
  walk-lost tree c b p (int x) e = rw (e) refl
  walk-lost tree c b p (float x) e = rw (e) refl
  walk-lost tree c b p (string x) e = rw (e) refl
  walk-lost tree c b p (array x) e = rw (e) refl
  walk-lost tree c b p (object x) e = rw (e) refl

  go_on-known :
      (r : Config F × Option ConfigError) → is_known r ≡ true → go_on r (λ c. (c, none)) ≡ r
  go_on-known (c, none) e = refl
  go_on-known (c, some err) e = elim (Bool-cases (is_unknown err)) [
    | inl i ↦ absurd (apart (ap not (sym i) ∙ e))
    | inr i ↦ rw (i) refl
  ]
    where
      apart : false ≡ true → ⊥
      apart h = cc

  lost-known :
      (c : Config F) (p : List Bytes) (r : Config F × Option ConfigError)
      → r ≡ (c, some (unknown_key p))
      → is_known r ≡ true
      → ⊥
  lost-known c p r e h = apart (ap is_known (sym e) ∙ h)
    where
      apart : false ≡ true → ⊥
      apart h = cc

  walk-subtree :
      (tree : Handlers F) (c : Config F) (b : Bytes) (p : List Bytes) (k : Bytes) (w : Json F)
      (hs : Handlers F)
      → navigate (some (subtree tree)) p ≡ some (subtree hs)
      → walk tree c (b ∷ p) (object (field k w no_fields))
        ≡ go_on (walk tree c (b ∷ (p ++ (k ∷ []))) w) (λ c'. (c', none))
  unfolding walk
  walk-subtree tree c b p k w hs e = rw (e) refl

  walk-step :
      (tree : Handlers F) (c : Config F) (b : Bytes) (p : List Bytes) (k : Bytes) (ks : List Bytes)
      → (v w : Json F) → is_known (walk tree c (b ∷ (p ++ (k ∷ ks))) v) ≡ true
      → walk tree c (b ∷ (p ++ (k ∷ []))) w ≡ walk tree c (b ∷ (p ++ (k ∷ ks))) v
      → walk tree c (b ∷ p) (object (field k w no_fields)) ≡ walk tree c (b ∷ (p ++ (k ∷ ks))) v
  walk-step tree c b p k ks v w e deeper = at_node (navigate (some (subtree tree)) p) refl
    where
      full : List Bytes
      full = p ++ (k ∷ ks)

      stuck :
          (n : Option (Node F))
          → navigate (some (subtree tree)) p ≡ n
          → child n k ≡ none
          → walk tree c (b ∷ p) (object (field k w no_fields)) ≡ walk tree c (b ∷ full) v
      stuck n e' gone = absurd (
          lost-known c (b ∷ full) (walk tree c (b ∷ full) v)
            (walk-lost tree c b full v (
              navigate-append (some (subtree tree)) p k ks
              ∙ ap (λ m. navigate (child m k) ks) e'
              ∙ ap (λ m. navigate m ks) gone
              ∙ navigate-none ks))
            e)

      at_node :
          (n : Option (Node F))
          → navigate (some (subtree tree)) p ≡ n
          → walk tree c (b ∷ p) (object (field k w no_fields)) ≡ walk tree c (b ∷ full) v
      at_node none e' = stuck none e' refl
      at_node (some (leaf f)) e' = stuck (some (leaf f)) e' refl
      at_node (some (subtree hs)) e' =
          walk-subtree tree c b p k w hs e'
          ∙ ap (λ r. go_on r (λ c'. (c', none))) deeper
          ∙ go_on-known (walk tree c (b ∷ full) v) e

  walk-nest :
      (tree : Handlers F) (c : Config F) (b : Bytes) (p ks : List Bytes) (v : Json F)
      → is_known (walk tree c (b ∷ (p ++ ks)) v) ≡ true
      → walk tree c (b ∷ p) (nest ks v) ≡ walk tree c (b ∷ (p ++ ks)) v
  unfolding nest
  walk-nest tree c b p [] v e = rw (append-nil p) refl
  walk-nest tree c b p (k ∷ ks) v e =
      let assoc : (p ++ (k ∷ [])) ++ ks ≡ p ++ (k ∷ ks) = append_assoc p (k ∷ []) ks in
      let deeper : is_known (walk tree c (b ∷ ((p ++ (k ∷ [])) ++ ks)) v) ≡ true = rw (assoc) e in
      walk-step tree c b p k ks v (nest ks v) e
        (walk-nest tree c b (p ++ (k ∷ [])) ks v deeper ∙ ap (λ q. walk tree c (b ∷ q) v) assoc)

  leaf_string-nest :
      (k : Bytes) (ks : List Bytes) (v : Json F) (c : Config F) (f : Bytes → Read (Config F))
      → is_known (leaf_string (k ∷ ks) v c f) ≡ true
      → leaf_string (k ∷ []) (nest ks v) c f ≡ leaf_string (k ∷ ks) v c f
  unfolding leaf_string nest
  leaf_string-nest k [] v c f e = refl
  leaf_string-nest k (x ∷ ks) v c f e = absurd (lost-known c (k ∷ (x ∷ ks)) _ refl e)

  choose-nest :
      (t : Bool) {x x' y y' : Config F × Option ConfigError}
      → (is_known x ≡ true → x' ≡ x)
      → (is_known y ≡ true → y' ≡ y)
      → is_known (if t then x else y) ≡ true
      → (if t then x' else y') ≡ (if t then x else y)
  choose-nest true h h' e = h e
  choose-nest false h h' e = h' e

module _ {F : Type 0} (fl : Floats F) where
  apply_key-nest :
      (c : Config F) (k : Bytes) (ks : List Bytes) (v : Json F)
      → is_known (apply_key fl c (k ∷ ks) v) ≡ true
      → apply_key fl c (k ∷ []) (nest ks v) ≡ apply_key fl c (k ∷ ks) v
  unfolding apply_key
  apply_key-nest c k ks v =
      choose-nest (bytes_eq k key_mode) (leaf_string-nest k ks v c (set_mode c)) (
        choose-nest (bytes_eq k key_id)
          (leaf_string-nest k ks v c (λ s. read (record c { zid = s })))
          (choose-nest (bytes_eq k key_connect) (walk-nest (connect_handlers fl) c k [] ks v) (
            choose-nest (bytes_eq k key_listen) (walk-nest listen_handlers c k [] ks v) (
              choose-nest (bytes_eq k key_scouting) (walk-nest (scouting_handlers fl) c k [] ks v)
                (λ e. absurd (lost-known c (k ∷ ks) _ refl e))))))

  mode_then-end : (r : Config F × Option ConfigError) → mode_then r (λ c. (c, none)) ≡ r
  mode_then-end (c, none) = refl
  mode_then-end (c, some e) = refl

  apply_mode-nest :
      (c : Config F) (ks : List Bytes) (v : Json F)
      → is_known (apply_key fl c (key_mode ∷ ks) v) ≡ true
      → apply_config fl c (field key_mode (nest ks v) no_fields) ≡ apply_key fl c (key_mode ∷ ks) v
  unfolding apply_config apply_fields field_of bytes_eq
  apply_mode-nest c ks v e =
      rw (apply_key-nest c key_mode ks v e) (mode_then-end (apply_key fl c (key_mode ∷ ks) v))

  -- Where applying a value at a path of keys does not end in the error of an unknown key, applying
  -- the document that holds the value below these keys gives the same configuration and the same
  -- error.
  pub apply_config-nest :
      (c : Config F) (k : Bytes) (ks : List Bytes) (v : Json F)
      → is_known (apply_key fl c (k ∷ ks) v) ≡ true
      → apply_config fl c (field k (nest ks v) no_fields) ≡ apply_key fl c (k ∷ ks) v
  unfolding apply_config apply_fields field_of
  apply_config-nest c k ks v e =
      let same = apply_key-nest c k ks v e in
      elim (Bool-cases (bytes_eq key_mode k)) [
        | inl m ↦
            let id : k ≡ key_mode = bytes_eq→eq k key_mode (bytes_eq_comm k key_mode ∙ m) in
            subst
              (λ x.
                is_known (apply_key fl c (x ∷ ks) v) ≡ true
                → apply_config fl c (field x (nest ks v) no_fields) ≡ apply_key fl c (x ∷ ks) v)
              (sym id) (apply_mode-nest c ks v) e
        | inr m ↦
            let m' : bytes_eq k key_mode ≡ false = bytes_eq_comm k key_mode ∙ m in
            rw (m, m', same, go_on-known (apply_key fl c (k ∷ ks) v) e) refl
      ]
