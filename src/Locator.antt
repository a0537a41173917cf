-- ===== src/Locator.antt =====
-- internal/locator/locator.go: locator strings. `net.SplitHostPort` is a parameter, none where it has an
-- error; metadata is none for a nil map.
pub mod Printed
use zenoh_go_client.Prelude.{
  ℕ, ◌+◌, ◌*◌, ◌^◌, Bool, true, false, not, ◌&&◌, ◌||◌, List, [], ◌∷◌, ◌++◌, length, Option, none,
  some, ◌==◌, ltb, leb, bytes_eq, if◌then◌else◌,
}
use zenoh_go_client.Prelude.Dict.{store}
use zenoh_go_client.Codec.Types.{Bytes}
use zenoh_go_client.Zenoh.Json5.Lexical.{decimal_value}

abbrev before : ℕ → Option (Bytes × Bytes) → Option (Bytes × Bytes)
before c none = none
before c (some (a, b)) = some (c ∷ a, b)

-- `strings.Cut`, none where the separator is not found.
unfoldable pub cut_at : ℕ → Bytes → Option (Bytes × Bytes)
cut_at sep [] = none
cut_at sep (c ∷ s) = let rest = cut_at sep s in if c == sep then some ([], s) else before c rest

-- Its first two results.
abbrev pub or_whole : Bytes → Option (Bytes × Bytes) → Bytes × Bytes
or_whole s none = (s, [])
or_whole s (some p) = p

-- `strings.SplitSeq`
abbrev add_front : ℕ → List Bytes → List Bytes
add_front c [] = (c ∷ []) ∷ []
add_front c (p ∷ ps) = (c ∷ p) ∷ ps

unfoldable pub split_at : ℕ → Bytes → List Bytes
split_at sep [] = [] ∷ []
split_at sep (c ∷ s) = let rest = split_at sep s in if c == sep then [] ∷ rest else add_front c rest

pub data LocatorError : Type 0 where
  missing_separator : LocatorError
  unknown_scheme : Bytes → LocatorError
  empty_address : LocatorError
  invalid_host_port : LocatorError
  empty_host : LocatorError
  invalid_port : Bytes → LocatorError
  port_zero : LocatorError

pub data Located (A : Type 0) : Type 0 where
  located : A → Located A
  rejected : LocatorError → Located A

pub record Locator : Type 0 where
  pub scheme : Bytes
  pub address : Bytes
  pub metadata : Option (List (Bytes × Bytes))

abbrev tcp : Bytes
tcp = b't' ∷ b'c' ∷ b'p' ∷ []

abbrev udp : Bytes
udp = b'u' ∷ b'd' ∷ b'p' ∷ []

abbrev tls : Bytes
tls = b't' ∷ b'l' ∷ b's' ∷ []

abbrev quic : Bytes
quic = b'q' ∷ b'u' ∷ b'i' ∷ b'c' ∷ []

abbrev ws : Bytes
ws = b'w' ∷ b's' ∷ []

abbrev wss : Bytes
wss = b'w' ∷ b's' ∷ b's' ∷ []

abbrev unixsock_stream : Bytes
unixsock_stream =
    b'u' ∷ b'n' ∷ b'i' ∷ b'x' ∷ b's' ∷ b'o' ∷ b'c' ∷ b'k' ∷ b'-' ∷ b's' ∷ b't' ∷ b'r' ∷ b'e' ∷ b'a'
    ∷ b'm' ∷ []

abbrev serial : Bytes
serial = b's' ∷ b'e' ∷ b'r' ∷ b'i' ∷ b'a' ∷ b'l' ∷ []

abbrev one_of : Bytes → List Bytes → Bool
one_of s [] = false
one_of s (x ∷ xs) = bytes_eq s x || one_of s xs

-- The schemes whose address is a host and a port.
unfoldable pub is_network : Bytes → Bool
is_network s = one_of s (tcp ∷ udp ∷ tls ∷ quic ∷ ws ∷ wss ∷ [])

unfoldable pub known_schemes : Bytes → Bool
known_schemes s = is_network s || one_of s (unixsock_stream ∷ serial ∷ [])

abbrev all_digits : Bytes → Bool
all_digits [] = true
all_digits (c ∷ s) = leb b'0' c && (leb c b'9' && all_digits s)

-- `strconv.ParseUint(s, 10, 16)`
unfoldable pub parse_port : Bytes → Option ℕ
parse_port s =
    if length s == 0 || not (all_digits s)
    then none
    else if ltb (decimal_value 0 s) (2 ^ 16)
    then some (decimal_value 0 s)
    else none

-- One pair of `parseKV`.
abbrev put_pair : Bytes → List (Bytes × Bytes) → Option (Bytes × Bytes) → List (Bytes × Bytes)
put_pair pair out none = store pair [] out
put_pair pair out (some (k, v)) = store k v out

unfoldable pub put_pairs : List Bytes → List (Bytes × Bytes) → List (Bytes × Bytes)
put_pairs [] out = out
put_pairs (pair ∷ pairs) out =
    let passed = put_pairs pairs out in
    let next = put_pairs pairs (put_pair pair out (cut_at b'=' pair)) in
    if length pair == 0 then passed else next

unfoldable pub parse_kv : Bytes → Option (List (Bytes × Bytes))
parse_kv s = if length s == 0 then none else some (put_pairs (split_at b';' s) [])

-- `Locator.String`
unfoldable pub locator_text : Locator → Bytes
locator_text l = l.scheme ++ (b'/' ∷ l.address)

abbrev pub attach : Option (List (Bytes × Bytes)) → Located (Bytes × Bytes) → Located Locator
attach kv (rejected e) = rejected e
attach kv (located (s, a)) = located (record { scheme = s; address = a; metadata = kv })

module _ (split_host_port : Bytes → Option (Bytes × Bytes)) where
  abbrev check_port : Bytes → Option ℕ → Option LocatorError
  check_port s none = some (invalid_port s)
  check_port s (some n) = if n == 0 then some port_zero else none

  unfoldable pub validate_host_port : Bytes → Option LocatorError
  validate_host_port addr = of_split (split_host_port addr)
    where
      of_split : Option (Bytes × Bytes) → Option LocatorError
      of_split none = some invalid_host_port
      of_split (some (host, port)) =
          if length host == 0 then some empty_host else check_port port (parse_port port)

  abbrev unless_error : Bytes × Bytes → Option LocatorError → Located (Bytes × Bytes)
  unless_error p none = located p
  unless_error p (some e) = rejected e

  -- The checks of `Parse` on what stands before `?`.
  unfoldable pub check_locator : Option (Bytes × Bytes) → Located (Bytes × Bytes)
  check_locator none = rejected missing_separator
  check_locator (some (scheme, address)) =
      if not (known_schemes scheme)
      then rejected (unknown_scheme scheme)
      else if length address == 0
      then rejected empty_address
      else if is_network scheme
      then unless_error (scheme, address) (validate_host_port address)
      else located (scheme, address)

  unfoldable pub parse_locator : Bytes → Located Locator
  parse_locator s =
      let (rest, meta) = or_whole s (cut_at b'?' s) in
      attach (parse_kv meta) (check_locator (cut_at b'/' rest))
