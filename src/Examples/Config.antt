-- ===== src/Examples/Config.antt =====
-- zenoh/config.go: each theorem at an input.
use zenoh_go_client.Prelude.{ℕ, suc, ◌≡◌, refl, true, List, [], ◌∷◌, none, some, bytes_eq}
use zenoh_go_client.Codec.Types.{Bytes}
use zenoh_go_client.Zenoh.Json5.{ℤ, pos, negsuc, int, string, no_fields, field}
use zenoh_go_client.Zenoh.Config.{new_config, Floats, as_uint}
use zenoh_go_client.Zenoh.Config.Keys.{
  key_scouting, key_multicast, key_ttl, key_listen, navigate, walk,
}
use zenoh_go_client.Zenoh.Config.Insert.{scouting_handlers, apply_key, apply_config}
use zenoh_go_client.Zenoh.Config.Nesting.{nest, is_known, apply_config-nest}

-- Numbers in place of floats.
abbrev naturals : Floats ℕ
naturals = record { of_int = magnitude; to_uint = λ x. some x }
  where
    magnitude : ℤ → ℕ
    magnitude (pos n) = n
    magnitude (negsuc n) = suc n

abbrev ttl_path : List Bytes
ttl_path = key_multicast ∷ key_ttl ∷ []

ttl-known : is_known (apply_key naturals new_config (key_scouting ∷ ttl_path) (int (pos 7))) ≡ true
unfolding apply_key walk navigate scouting_handlers as_uint bytes_eq
ttl-known = refl

-- `scouting/multicast/ttl` and `{"scouting":{"multicast":{"ttl":7}}}`
apply_config-nest_example :
    apply_config naturals new_config (field key_scouting (nest ttl_path (int (pos 7))) no_fields)
    ≡ apply_key naturals new_config (key_scouting ∷ ttl_path) (int (pos 7))
apply_config-nest_example =
    apply_config-nest naturals new_config key_scouting ttl_path (int (pos 7)) ttl-known

-- A text at `scouting/multicast/listen` is passed over without an error.
listen_text :
    apply_key naturals new_config
      (key_scouting ∷ (key_multicast ∷ (key_listen ∷ [])))
      (string (b'x' ∷ []))
    ≡ (new_config, none)
unfolding apply_key walk navigate scouting_handlers bytes_eq
listen_text = refl
