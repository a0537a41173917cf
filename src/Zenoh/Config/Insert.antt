-- ===== src/Zenoh/Config/Insert.antt =====
-- zenoh/config.go: the handlers of the keys, and the entry points that take a document or one key.
use zenoh_go_client.Prelude.{
  ◌-◌, List, [], ◌∷◌, Option, none, some, bytes_eq, length, ◌==◌, if◌then◌else◌,
}
use zenoh_go_client.Codec.Types.{Bytes}
use zenoh_go_client.KeyExpr.Text.{split_seq}
use zenoh_go_client.Zenoh.Json5.{
  Json, bool, object, Fields, no_fields, field, Parsed, parsed, refused, spent, line_col,
}
use zenoh_go_client.Zenoh.Json5.Lexical.{Unicode}
use zenoh_go_client.Zenoh.Json5.Parser.{parse_json5}
use zenoh_go_client.Zenoh.Config.{
  multicast_auto, multicast_off, Config, new_config, ConfigError, unknown_key, empty_key_path,
  not_an_object, json_error, out_of_fuel, Read, read, wrong, then_read, Floats, as_string, as_bool,
  as_uint, as_float, as_string_slice, millis,
}
use zenoh_go_client.Zenoh.Config.Keys.{
  key_mode, key_id, key_connect, key_scouting, key_endpoints, key_retry, key_period_init_ms,
  key_period_max_ms, key_period_increase_factor, key_timeout, key_multicast, key_enabled,
  key_address, key_interface, key_ttl, key_listen, key_autoconnect, text_auto, leaf, subtree,
  Handlers, no_handlers, handler, go_on, walk, leaf_string, set_mode, field_of, parse_autoconnect,
}

module _ {F : Type 0} where
  unfoldable pub listen_handlers : Handlers F
  listen_handlers =
      handler key_endpoints
        (leaf λ c v p.
          then_read (as_string_slice v p) λ eps. read (record c { listen_endpoints = eps }))
        no_handlers

  -- The object form of `listen` is passed over.
  abbrev with_listen : Config F → Json F → Read (Config F)
  with_listen c (bool b) = read (record c { scouting = record c.scouting { multicast_listen = b } })
  with_listen c _ = read c

  abbrev pub mode_then :
      Config F × Option ConfigError
      → (Config F → Config F × Option ConfigError)
      → Config F × Option ConfigError
  mode_then (c, some e) k = (c, some e)
  mode_then (c, none) k = k c

  abbrev or_error : Config F × Option ConfigError → Read (Config F)
  or_error (c, none) = read c
  or_error (c, some e) = wrong e

  -- What the parser gives on a text.
  abbrev pub json_of : Bytes → Parsed (Json F) → Read (Json F)
  json_of src (parsed v r) = read v
  json_of src (refused e left) = wrong (json_error e (line_col src (length src - left)))
  json_of src spent = wrong out_of_fuel

abbrev first_of : List Bytes → Bytes
first_of [] = []
first_of (k ∷ ks) = k

module _ {F : Type 0} (fl : Floats F) where
  unfoldable pub connect_handlers : Handlers F
  connect_handlers =
      handler key_endpoints
        (leaf λ c v p. then_read (as_string_slice v p) λ eps. read (record c { endpoints = eps }))
        (handler key_retry (subtree retry) no_handlers)
    where
      retry : Handlers F
      retry =
          handler key_period_init_ms
            (leaf λ c v p.
              then_read (as_uint fl v p) λ ms. read (record c { reconnect_initial = millis ms }))
            (handler key_period_max_ms
              (leaf λ c v p.
                then_read (as_uint fl v p) λ ms. read (record c { reconnect_max = millis ms }))
              (handler key_period_increase_factor
                (leaf λ c v p.
                  then_read (as_float fl v p) λ x. read (record c { reconnect_factor = some x }))
                no_handlers))

  unfoldable pub scouting_handlers : Handlers F
  scouting_handlers =
      handler key_timeout
        (leaf λ c v p.
          then_read (as_uint fl v p)
            λ ms. read (record c { scouting = record c.scouting { timeout = millis ms } }))
        (handler key_multicast (subtree multicast) no_handlers)
    where
      multicast : Handlers F
      multicast =
          handler key_enabled
            (leaf λ c v p. then_read (as_bool v p) λ b. read (record c {
              scouting = record c.scouting {
                multicast_mode = if b then multicast_auto else multicast_off;
              };
            }))
            (handler key_address
              (leaf λ c v p.
                then_read (as_string v p)
                  λ s. read (record c { scouting = record c.scouting { multicast_address = s } }))
              (handler key_interface
                (leaf λ c v p. then_read (as_string v p) λ s. read (record c {
                  scouting = record c.scouting {
                    multicast_interface = if bytes_eq s text_auto then [] else s;
                  };
                }))
                (handler key_ttl
                  (leaf λ c v p.
                    then_read (as_uint fl v p)
                      λ n. read (record c { scouting = record c.scouting { multicast_ttl = n } }))
                  (handler key_listen (leaf λ c v p. with_listen c v) (
                    handler key_autoconnect
                      (leaf λ c v p.
                        then_read (parse_autoconnect c.mode v p)
                          λ mask. read (record c { autoconnect_mask = mask }))
                      no_handlers)))))

  unfoldable pub apply_key : Config F → List Bytes → Json F → Config F × Option ConfigError
  apply_key c path v =
      if bytes_eq (first_of path) key_mode
      then leaf_string path v c (set_mode c)
      else if bytes_eq (first_of path) key_id
      then leaf_string path v c (λ s. read (record c { zid = s }))
      else if bytes_eq (first_of path) key_connect
      then walk connect_handlers c path v
      else if bytes_eq (first_of path) key_listen
      then walk listen_handlers c path v
      else if bytes_eq (first_of path) key_scouting
      then walk scouting_handlers c path v
      else (c, some (unknown_key path))

  -- The loop over the keys but `mode`.
  unfoldable pub apply_fields : Config F → Fields F → Config F × Option ConfigError
  apply_fields c no_fields = (c, none)
  apply_fields c (field k v fs) =
      let next = go_on (apply_key c (k ∷ []) v) λ c'. apply_fields c' fs in
      let passed = apply_fields c fs in if bytes_eq k key_mode then passed else next

  -- `mode` comes first.
  unfoldable pub apply_config : Config F → Fields F → Config F × Option ConfigError
  apply_config c root = mode_then (apply_mode (field_of key_mode root)) λ c'. apply_fields c' root
    where
      apply_mode : Option (Json F) → Config F × Option ConfigError
      apply_mode none = (c, none)
      apply_mode (some v) = apply_key c (key_mode ∷ []) v

  abbrev of_root : Json F → Read (Config F)
  of_root (object fs) = or_error (apply_config new_config fs)
  of_root _ = wrong not_an_object

  module _ (parse_float : Bytes → Option F) (u : Unicode) where
    unfoldable pub new_config_from_string : Bytes → Read (Config F)
    new_config_from_string s = then_read (json_of s (parse_json5 parse_float u s)) of_root

    unfoldable pub insert_json5 : Config F → Bytes → Bytes → Config F × Option ConfigError
    insert_json5 c key_path json_value =
        with_value (json_of json_value (parse_json5 parse_float u json_value))
      where
        segs : List Bytes
        segs = split_seq key_path

        with_value : Read (Json F) → Config F × Option ConfigError
        with_value (wrong e) = (c, some e)
        with_value (read v) =
            if length (first_of segs) == 0 then (c, some empty_key_path) else apply_key c segs v
