-- ===== src/Zenoh/Config.antt =====
-- zenoh/config.go: the configuration, and the walk of a parsed document into it. A `%T` or a value in an
-- error's text is left out. Floats are a parameter, with the conversions that Go has for them; a duration is
-- a 64-bit word of nanoseconds. The order of the fields stands for the order in which `range` visits a map.
pub mod Keys
pub mod Insert
pub mod Nesting
use zenoh_go_client.Prelude.{
  ℕ, zero, suc, ◌+◌, ◌*◌, ◌%◌, ◌^◌, Bool, true, false, not, ◌&&◌, ◌||◌, List, [], ◌∷◌, ◌++◌, drop,
  Option, none, some, bytes_eq, bit_or, ◌==◌, if◌then◌else◌,
}
use zenoh_go_client.Codec.Types.{Bytes}
use zenoh_go_client.Zenoh.Json5.{
  ℤ, pos, negsuc, Json, null, bool, int, float, string, array, object, Items, no_items, item,
  Fields, no_fields, field, Json5Error,
}

pub data SessionMode : Type 0 where
  mode_client : SessionMode
  mode_peer : SessionMode
  mode_router : SessionMode

pub data MulticastMode : Type 0 where
  multicast_auto : MulticastMode
  multicast_off : MulticastMode

pub record ScoutingConfig : Type 0 where
  pub multicast_mode : MulticastMode
  pub multicast_address : Bytes
  pub multicast_interface : Bytes
  pub multicast_ttl : ℕ
  pub multicast_listen : Bool
  pub timeout : ℕ

pub record Config (F : Type 0) : Type 0 where
  pub mode : SessionMode
  pub endpoints : List Bytes
  pub listen_endpoints : List Bytes
  pub zid : Bytes
  pub reconnect_initial : ℕ
  pub reconnect_max : ℕ
  pub reconnect_factor : Option F
  pub scouting : ScoutingConfig
  pub autoconnect_mask : ℕ

-- `NewConfig`; no factor stands for the zero float.
abbrev pub new_config : {F : Type 0} → Config F
new_config = record {
  mode = mode_client;
  endpoints = [];
  listen_endpoints = [];
  zid = [];
  reconnect_initial = 0;
  reconnect_max = 0;
  reconnect_factor = none;
  scouting = record {
    multicast_mode = multicast_auto;
    multicast_address = [];
    multicast_interface = [];
    multicast_ttl = 0;
    multicast_listen = false;
    timeout = 0;
  };
  autoconnect_mask = 0;
}

unfoldable pub with_endpoint : {F : Type 0} → Config F → Bytes → Config F
with_endpoint c endpoint = record c { endpoints = c.endpoints ++ (endpoint ∷ []) }

pub data ConfigError : Type 0 where
  unknown_key : List Bytes → ConfigError
  expected_string expected_bool expected_number expected_array expected_object :
      List Bytes → ConfigError
  negative_number : List Bytes → ConfigError
  expected_string_at : List Bytes → ℕ → ConfigError
  unknown_role_at : List Bytes → ℕ → ConfigError
  unknown_role_key : List Bytes → Bytes → ConfigError
  expected_array_or_object : List Bytes → ConfigError
  mode_not_supported : Bytes → ConfigError
  empty_key_path : ConfigError
  not_an_object : ConfigError
  -- with the line and the column
  json_error : Json5Error → ℕ × ℕ → ConfigError
  -- the parser's fuel, which is enough
  out_of_fuel : ConfigError

pub data Read (A : Type 0) : Type 0 where
  read : A → Read A
  wrong : ConfigError → Read A

abbrev pub then_read : {A B : Type 0} → Read A → (A → Read B) → Read B
then_read (read a) k = k a
then_read (wrong e) k = wrong e

-- `float64(n)`, and a float as a uint64 where it is a whole number that is not negative.
pub record Floats (F : Type 0) : Type 0 where
  pub of_int : ℤ → F
  pub to_uint : F → Option ℕ

abbrev or_negative : List Bytes → Option ℕ → Read ℕ
or_negative p none = wrong (negative_number p)
or_negative p (some n) = read n

module _ {F : Type 0} where
  unfoldable pub as_string : Json F → List Bytes → Read Bytes
  as_string (string s) p = read s
  as_string _ p = wrong (expected_string p)

  unfoldable pub as_bool : Json F → List Bytes → Read Bool
  as_bool (bool b) p = read b
  as_bool _ p = wrong (expected_bool p)

  unfoldable pub as_uint : Floats F → Json F → List Bytes → Read ℕ
  as_uint fl (int (pos n)) p = read n
  as_uint fl (int (negsuc n)) p = wrong (negative_number p)
  as_uint fl (float x) p = or_negative p (fl.to_uint x)
  as_uint fl _ p = wrong (expected_number p)

  unfoldable pub as_float : Floats F → Json F → List Bytes → Read F
  as_float fl (int n) p = read (fl.of_int n)
  as_float fl (float x) p = read x
  as_float fl _ p = wrong (expected_number p)

  -- The loop over the array, by index.
  unfoldable pub strings_from : ℕ → Items F → List Bytes → Read (List Bytes)
  strings_from i no_items p = read []
  strings_from i (item (string s) vs) p =
      then_read (strings_from (suc i) vs p) λ rest. read (s ∷ rest)
  strings_from i (item _ vs) p = wrong (expected_string_at p i)

  unfoldable pub as_string_slice : Json F → List Bytes → Read (List Bytes)
  as_string_slice (array vs) p = strings_from 0 vs p
  as_string_slice _ p = wrong (expected_array p)

-- `time.Duration(ms) * time.Millisecond`
abbrev pub millis : ℕ → ℕ
millis ms = (ms * 1000000) % 2 ^ 64
