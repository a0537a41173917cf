-- ===== src/Zenoh/Config/Keys.antt =====
-- zenoh/config.go: the recognised keys as a tree, and the walk down a document along it.
use zenoh_go_client.Prelude.{
  ℕ, suc, Bool, true, false, ◌||◌, List, [], ◌∷◌, ◌++◌, drop, Option, none, some, bytes_eq, bit_or,
  length, ◌==◌, if◌then◌else◌,
}
use zenoh_go_client.Codec.Types.{Bytes}
use zenoh_go_client.Zenoh.Json5.{
  Json, string, array, object, Items, no_items, item, Fields, no_fields, field,
}
use zenoh_go_client.Zenoh.Config.{
  SessionMode, mode_client, mode_peer, mode_router, Config, ConfigError, unknown_key,
  unknown_role_at, unknown_role_key, expected_string_at, expected_array, expected_array_or_object,
  expected_object, mode_not_supported, Read, read, wrong, then_read, as_string,
}

-- The names of the keys.
abbrev pub key_mode : Bytes
key_mode = b'm' ∷ b'o' ∷ b'd' ∷ b'e' ∷ []

abbrev pub key_id : Bytes
key_id = b'i' ∷ b'd' ∷ []

abbrev pub key_connect : Bytes
key_connect = b'c' ∷ b'o' ∷ b'n' ∷ b'n' ∷ b'e' ∷ b'c' ∷ b't' ∷ []

abbrev pub key_scouting : Bytes
key_scouting = b's' ∷ b'c' ∷ b'o' ∷ b'u' ∷ b't' ∷ b'i' ∷ b'n' ∷ b'g' ∷ []

abbrev pub key_endpoints : Bytes
key_endpoints = b'e' ∷ b'n' ∷ b'd' ∷ b'p' ∷ b'o' ∷ b'i' ∷ b'n' ∷ b't' ∷ b's' ∷ []

abbrev pub key_retry : Bytes
key_retry = b'r' ∷ b'e' ∷ b't' ∷ b'r' ∷ b'y' ∷ []

abbrev period : Bytes → Bytes
period rest = b'p' ∷ b'e' ∷ b'r' ∷ b'i' ∷ b'o' ∷ b'd' ∷ b'_' ∷ rest

abbrev pub key_period_init_ms : Bytes
key_period_init_ms = period (b'i' ∷ b'n' ∷ b'i' ∷ b't' ∷ b'_' ∷ b'm' ∷ b's' ∷ [])

abbrev pub key_period_max_ms : Bytes
key_period_max_ms = period (b'm' ∷ b'a' ∷ b'x' ∷ b'_' ∷ b'm' ∷ b's' ∷ [])

abbrev pub key_period_increase_factor : Bytes
key_period_increase_factor = period (
    b'i' ∷ b'n' ∷ b'c' ∷ b'r' ∷ b'e' ∷ b'a' ∷ b's' ∷ b'e' ∷ b'_' ∷ b'f' ∷ b'a' ∷ b'c' ∷ b't' ∷ b'o'
    ∷ b'r' ∷ [])

abbrev pub key_timeout : Bytes
key_timeout = b't' ∷ b'i' ∷ b'm' ∷ b'e' ∷ b'o' ∷ b'u' ∷ b't' ∷ []

abbrev pub key_multicast : Bytes
key_multicast = b'm' ∷ b'u' ∷ b'l' ∷ b't' ∷ b'i' ∷ b'c' ∷ b'a' ∷ b's' ∷ b't' ∷ []

abbrev pub key_enabled : Bytes
key_enabled = b'e' ∷ b'n' ∷ b'a' ∷ b'b' ∷ b'l' ∷ b'e' ∷ b'd' ∷ []

abbrev pub key_address : Bytes
key_address = b'a' ∷ b'd' ∷ b'd' ∷ b'r' ∷ b'e' ∷ b's' ∷ b's' ∷ []

abbrev pub key_interface : Bytes
key_interface = b'i' ∷ b'n' ∷ b't' ∷ b'e' ∷ b'r' ∷ b'f' ∷ b'a' ∷ b'c' ∷ b'e' ∷ []

abbrev pub key_ttl : Bytes
key_ttl = b't' ∷ b't' ∷ b'l' ∷ []

abbrev pub key_listen : Bytes
key_listen = b'l' ∷ b'i' ∷ b's' ∷ b't' ∷ b'e' ∷ b'n' ∷ []

abbrev pub key_autoconnect : Bytes
key_autoconnect = b'a' ∷ b'u' ∷ b't' ∷ b'o' ∷ b'c' ∷ b'o' ∷ b'n' ∷ b'n' ∷ b'e' ∷ b'c' ∷ b't' ∷ []

abbrev pub text_auto : Bytes
text_auto = b'a' ∷ b'u' ∷ b't' ∷ b'o' ∷ []

abbrev pub text_router : Bytes
text_router = b'r' ∷ b'o' ∷ b'u' ∷ b't' ∷ b'e' ∷ b'r' ∷ []

abbrev pub text_peer : Bytes
text_peer = b'p' ∷ b'e' ∷ b'e' ∷ b'r' ∷ []

abbrev pub text_client : Bytes
text_client = b'c' ∷ b'l' ∷ b'i' ∷ b'e' ∷ b'n' ∷ b't' ∷ []

-- `SessionMode.String`
unfoldable pub mode_text : SessionMode → Bytes
mode_text mode_client = text_client
mode_text mode_peer = text_peer
mode_text mode_router = text_router

-- `AsWhatAmI`
unfoldable pub as_what_am_i : SessionMode → ℕ
as_what_am_i mode_router = 0
as_what_am_i mode_peer = 1
as_what_am_i mode_client = 2

-- The handlers below a bucket: a coercion and a write, or a subtree by name.
mutual
  pub data Node (F : Type 0) : Type 0 where
    leaf : (Config F → Json F → List Bytes → Read (Config F)) → Node F
    subtree : Handlers F → Node F

  pub data Handlers (F : Type 0) : Type 0 where
    no_handlers : Handlers F
    handler : Bytes → Node F → Handlers F → Handlers F

module _ {F : Type 0} where
  abbrev pub handler_of : Bytes → Handlers F → Option (Node F)
  handler_of k no_handlers = none
  handler_of k (handler k' n hs) = if bytes_eq k k' then some n else handler_of k hs

  abbrev pub child : Option (Node F) → Bytes → Option (Node F)
  child none k = none
  child (some (leaf f)) k = none
  child (some (subtree hs)) k = handler_of k hs

  -- `node = sub[path[i]]` along the path.
  unfoldable pub navigate : Option (Node F) → List Bytes → Option (Node F)
  navigate n [] = n
  navigate n (k ∷ ks) = navigate (child n k) ks

  -- The configuration after a call, with its error; an error leaves what was written before.
  abbrev pub applied : Config F → Read (Config F) → Config F × Option ConfigError
  applied c (read c') = (c', none)
  applied c (wrong e) = (c, some e)

abbrev pub is_role : Bytes → Bool
is_role k = bytes_eq k text_router || (bytes_eq k text_peer || bytes_eq k text_client)

abbrev pub is_unknown : ConfigError → Bool
is_unknown (unknown_key p) = true
is_unknown _ = false

module _ {F : Type 0} where
  -- A child's result in the loop over an object: an unknown key is passed over.
  abbrev pub go_on :
      Config F × Option ConfigError
      → (Config F → Config F × Option ConfigError)
      → Config F × Option ConfigError
  go_on (c, none) k = k c
  go_on (c, some e) k = if is_unknown e then k c else (c, some e)

  -- What `walk` does at a node; `members` is the loop over an object's fields.
  abbrev at_node :
      Config F
      → List Bytes
      → Json F
      → Config F × Option ConfigError
      → Option (Node F)
      → Config F × Option ConfigError
  at_node c path v members none = (c, some (unknown_key path))
  at_node c path v members (some (leaf f)) = applied c (f c v path)
  at_node c path (object fs) members (some (subtree hs)) = members
  at_node c path _ members (some (subtree hs)) = (c, some (expected_object path))

  unfoldable mutual
    pub walk : Handlers F → Config F → List Bytes → Json F → Config F × Option ConfigError
    walk tree c path (object fs) =
        let members = walk_fields tree c path fs in
        at_node c path (object fs) members (navigate (some (subtree tree)) (drop 1 path))
    walk tree c path v = at_node c path v (c, none) (navigate (some (subtree tree)) (drop 1 path))

    pub walk_fields : Handlers F → Config F → List Bytes → Fields F → Config F × Option ConfigError
    walk_fields tree c path no_fields = (c, none)
    walk_fields tree c path (field k v fs) =
        go_on (walk tree c (path ++ (k ∷ [])) v) λ c'. walk_fields tree c' path fs

  -- `leafString`, and the coercions of the leaves.
  unfoldable pub leaf_string :
      List Bytes → Json F → Config F → (Bytes → Read (Config F)) → Config F × Option ConfigError
  leaf_string (k ∷ []) v c on_value = applied c (then_read (as_string v (k ∷ [])) on_value)
  leaf_string path v c on_value = (c, some (unknown_key path))

  unfoldable pub set_mode : Config F → Bytes → Read (Config F)
  set_mode c s =
      if length s == 0 || bytes_eq s text_client
      then read (record c { mode = mode_client })
      else if bytes_eq s text_peer
      then read (record c { mode = mode_peer })
      else if bytes_eq s text_router
      then read (record c { mode = mode_router })
      else wrong (mode_not_supported s)

  -- The roles of an array as a mask, by index.
  unfoldable pub roles_from : ℕ → ℕ → Items F → List Bytes → Read ℕ
  roles_from i mask no_items p = read mask
  roles_from i mask (item (string s) vs) p =
      let router = roles_from (suc i) (bit_or mask 1) vs p in
      let peer = roles_from (suc i) (bit_or mask 2) vs p in
      let client = roles_from (suc i) (bit_or mask 4) vs p in
      if bytes_eq s text_router
      then router
      else if bytes_eq s text_peer
      then peer
      else if bytes_eq s text_client
      then client
      else wrong (unknown_role_at p i)
  roles_from i mask (item _ vs) p = wrong (expected_string_at p i)

  unfoldable pub stray_role : Fields F → Option Bytes
  stray_role no_fields = none
  stray_role (field k v fs) = let rest = stray_role fs in if is_role k then rest else some k

  unfoldable pub field_of : Bytes → Fields F → Option (Json F)
  field_of k no_fields = none
  field_of k (field k' v fs) = let rest = field_of k fs in if bytes_eq k k' then some v else rest

  abbrev role_entry : Option (Json F) → List Bytes → Read ℕ
  role_entry none p = read 0
  role_entry (some (array vs)) p = roles_from 0 0 vs p
  role_entry (some _) p = wrong (expected_array p)

  abbrev by_role : SessionMode → Fields F → List Bytes → Option Bytes → Read ℕ
  by_role m fs p (some k) = wrong (unknown_role_key p k)
  by_role m fs p none = role_entry (field_of (mode_text m) fs) (p ++ (mode_text m ∷ []))

  unfoldable pub parse_autoconnect : SessionMode → Json F → List Bytes → Read ℕ
  parse_autoconnect m (array vs) p = roles_from 0 0 vs p
  parse_autoconnect m (object fs) p = by_role m fs p (stray_role fs)
  parse_autoconnect m _ p = wrong (expected_array_or_object p)
