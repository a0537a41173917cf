-- ===== src/Zenoh/Json5/Lexical.antt =====
-- zenoh/json5.go: strings, keys, numbers and literals.
use zenoh_go_client.Prelude.{
  ℕ, zero, suc, ◌+◌, ◌-◌, ◌*◌, ◌/◌, ◌%◌, ◌^◌, Bool, true, false, not, ◌&&◌, ◌||◌, [], ◌∷◌, ◌++◌,
  length, take, drop, Option, none, some, ◌==◌, ltb, leb, if◌then◌else◌,
}
use zenoh_go_client.Codec.Types.{Bytes}
use zenoh_go_client.Zenoh.Json5.{
  ℤ, pos, negsuc, Json, null, bool, int, float, Json5Error, expected_key, unterminated_escape,
  truncated_u_escape, bad_u_escape, truncated_x_escape, bad_x_escape, unknown_escape,
  unterminated_string, invalid_literal, empty_hex, hex_range, empty_number, float_syntax,
  int_syntax, Parsed, parsed, spent, bind, refuse, peek,
}

abbrev pub is_digit : ℕ → Bool
is_digit c = leb b'0' c && leb c b'9'

-- `isHexDigit`
abbrev pub is_hex_digit : ℕ → Bool
is_hex_digit c = is_digit c || ((leb b'a' c && leb c b'f') || (leb b'A' c && leb c b'F'))

abbrev pub hex_digit : ℕ → ℕ
hex_digit c = if is_digit c then c - b'0' else if leb b'a' c then c - b'a' + 10 else c - b'A' + 10

-- `strconv.ParseUint(s, 16, ...)` on digits that fit: none on any other byte.
unfoldable pub hex_value : ℕ → Bytes → Option ℕ
hex_value v [] = some v
hex_value v (c ∷ r) =
    let rest = hex_value (v * 16 + hex_digit c) r in if is_hex_digit c then rest else none

-- `WriteRune`: a surrogate half is written as U+FFFD.
unfoldable pub encode_rune : ℕ → Bytes
encode_rune n =
    if ltb n 0x80
    then n ∷ []
    else if ltb n 0x800
    then (0xc0 + n / 64) ∷ (0x80 + n % 64) ∷ []
    else if leb 0xd800 n && leb n 0xdfff
    then 0xef ∷ 0xbf ∷ 0xbd ∷ []
    else (0xe0 + n / 4096) ∷ (0x80 + n / 64 % 64) ∷ (0x80 + n % 64) ∷ []

-- A `\u` or `\x` escape: what follows is read as it stands, and a bad one is refused before it.
unfoldable pub u_escape : Bytes → Parsed Bytes
u_escape (a ∷ b ∷ c ∷ d ∷ r) = with_value (hex_value 0 (a ∷ b ∷ c ∷ d ∷ []))
  where
    with_value : Option ℕ → Parsed Bytes
    with_value none = refuse bad_u_escape (a ∷ b ∷ c ∷ d ∷ r)
    with_value (some n) = parsed (encode_rune n) r
u_escape r = refuse truncated_u_escape r

unfoldable pub x_escape : Bytes → Parsed Bytes
x_escape (a ∷ b ∷ r) = with_value (hex_value 0 (a ∷ b ∷ []))
  where
    with_value : Option ℕ → Parsed Bytes
    with_value none = refuse bad_x_escape (a ∷ b ∷ r)
    with_value (some n) = parsed (n ∷ []) r
x_escape r = refuse truncated_x_escape r

-- The escapes of one byte; a newline is a line continuation.
unfoldable pub simple_escape : ℕ → Option Bytes
simple_escape e =
    if (e == b'"' || e == 39) || (e == b'\\' || e == b'/')
    then some (e ∷ [])
    else if e == b'n'
    then some (10 ∷ [])
    else if e == b't'
    then some (9 ∷ [])
    else if e == b'r'
    then some (13 ∷ [])
    else if e == b'b'
    then some (8 ∷ [])
    else if e == b'f'
    then some (12 ∷ [])
    else if e == b'0'
    then some (0 ∷ [])
    else if e == 10
    then some []
    else none

-- Behind the backslash: what is written, and the unread bytes.
unfoldable pub escape : Bytes → Parsed Bytes
escape [] = refuse unterminated_escape []
escape (e ∷ r) = by_table (simple_escape e)
  where
    by_table : Option Bytes → Parsed Bytes
    by_table (some out) = parsed out r
    by_table none =
        if e == b'u' then u_escape r else if e == b'x' then x_escape r else refuse unknown_escape r

-- Behind the opening quote, on fuel: every round takes a byte at least.
unfoldable pub string_loop : ℕ → ℕ → Bytes → Parsed Bytes
string_loop quote zero s = spent
string_loop quote (suc fuel) [] = refuse unterminated_string []
string_loop quote (suc fuel) (c ∷ r) =
    let escaped =
      bind (escape r)
        λ out r'. bind (string_loop quote fuel r') λ rest r''. parsed (out ++ rest) r'' in
    let plain = bind (string_loop quote fuel r) λ rest r'. parsed (c ∷ rest) r' in
    if c == quote then parsed [] r else if c == b'\\' then escaped else plain

-- `p.string()`, on its opening quote.
unfoldable pub parse_string : Bytes → Parsed Bytes
parse_string [] = spent
parse_string (quote ∷ r) = string_loop quote (suc (length r)) r

-- The longest prefix of such bytes, and what follows.
unfoldable pub span : (ℕ → Bool) → Bytes → Bytes × Bytes
span test [] = ([], [])
span test (c ∷ r) =
    let (front, back) = span test r in if test c then (c ∷ front, back) else ([], c ∷ r)

unfoldable pub decimal_value : ℕ → Bytes → ℕ
decimal_value v [] = v
decimal_value v (c ∷ r) = decimal_value (v * 10 + (c - b'0')) r

abbrev pub all_hex : ℕ → Bytes → ℕ
all_hex v ds = or_zero (hex_value v ds)
  where
    or_zero : Option ℕ → ℕ
    or_zero none = 0
    or_zero (some n) = n

abbrev negative : ℕ → ℤ
negative zero = pos 0
negative (suc n) = negsuc n

-- The number as an int64, if it is one.
unfoldable pub to_int64 : Bool → ℕ → Option ℤ
to_int64 is_neg n =
    if is_neg
    then (if leb n (2 ^ 63) then some (negative n) else none)
    else if ltb n (2 ^ 63)
    then some (pos n)
    else none

abbrev pub is_sign : ℕ → Bool
is_sign c = c == b'+' || c == b'-'

abbrev pub is_float_byte : ℕ → Bool
is_float_byte c = (c == b'.' || (c == b'e' || c == b'E')) || is_sign c

abbrev pub is_number_byte : ℕ → Bool
is_number_byte c = is_digit c || is_float_byte c

-- The optional sign.
abbrev pub take_sign : Bytes → Bytes × Bytes
take_sign [] = ([], [])
take_sign (c ∷ r) = if is_sign c then (c ∷ [], r) else ([], c ∷ r)

abbrev pub is_hex_start : Bytes → Bool
is_hex_start [] = false
is_hex_start (c ∷ []) = false
is_hex_start (c ∷ d ∷ r) = c == b'0' && (d == b'x' || d == b'X')

abbrev pub has_float : Bytes → Bool
has_float [] = false
has_float (c ∷ r) = is_float_byte c || has_float r

abbrev pub is_minus : Bytes → Bool
is_minus sign = peek sign == b'-'

module _ {F : Type 0} (parse_float : Bytes → Option F) where
  abbrev pub or_float_error : Json5Error → Bytes → Option F → Parsed (Json F)
  or_float_error e r none = refuse e r
  or_float_error e r (some f) = parsed (float f) r

  abbrev pub or_hex_error : Bytes → Option ℤ → Parsed (Json F)
  or_hex_error r none = refuse hex_range r
  or_hex_error r (some n) = parsed (int n) r

  -- An integer that is too large becomes a float, if it can.
  abbrev pub or_as_float : Bytes → Bytes → Option ℤ → Parsed (Json F)
  or_as_float lit r none = or_float_error int_syntax r (parse_float lit)
  or_as_float lit r (some n) = parsed (int n) r

  unfoldable pub hex_number : Bytes → Bytes → Parsed (Json F)
  hex_number sign s =
      let (digits, rest) = span is_hex_digit s in
      if length digits == 0
      then refuse empty_hex rest
      else or_hex_error rest (to_int64 (is_minus sign) (all_hex 0 digits))

  unfoldable pub decimal_number : Bytes → Bytes → Parsed (Json F)
  decimal_number sign s =
      let (body, rest) = span is_number_byte s in
      if length body == 0
      then refuse empty_number rest
      else if has_float body
      then or_float_error float_syntax rest (parse_float (sign ++ body))
      else or_as_float (sign ++ body) rest (to_int64 (is_minus sign) (decimal_value 0 body))

  unfoldable pub parse_number : Bytes → Parsed (Json F)
  parse_number s =
      let (sign, r) = take_sign s in
      if is_hex_start r then hex_number sign (drop 2 r) else decimal_number sign r

abbrev pub has_prefix : Bytes → Bytes → Bool
has_prefix [] s = true
has_prefix (p ∷ ps) [] = false
has_prefix (p ∷ ps) (c ∷ s) = p == c && has_prefix ps s

abbrev pub true_text : Bytes
true_text = b't' ∷ b'r' ∷ b'u' ∷ b'e' ∷ []

abbrev pub false_text : Bytes
false_text = b'f' ∷ b'a' ∷ b'l' ∷ b's' ∷ b'e' ∷ []

abbrev pub null_text : Bytes
null_text = b'n' ∷ b'u' ∷ b'l' ∷ b'l' ∷ []

module _ {F : Type 0} where
  unfoldable pub parse_bool : Bytes → Parsed (Json F)
  parse_bool s =
      if has_prefix true_text s
      then parsed (bool true) (drop 4 s)
      else if has_prefix false_text s
      then parsed (bool false) (drop 5 s)
      else refuse invalid_literal s

  unfoldable pub parse_null : Bytes → Parsed (Json F)
  parse_null s = if has_prefix null_text s then parsed null (drop 4 s) else refuse invalid_literal s

-- What the standard library says of the characters of a text.
pub record Unicode : Type 0 where
  pub decode_rune : Bytes → ℕ × ℕ
  pub is_letter : ℕ → Bool
  pub is_digit_rune : ℕ → Bool

abbrev pub is_quote : ℕ → Bool
is_quote c = c == b'"' || c == 39

module _ (u : Unicode) where
  unfoldable pub is_name_rune : Bool → ℕ → Bool
  is_name_rune first rune =
      (u.is_letter rune || (rune == b'_' || rune == b'$')) || (not first && u.is_digit_rune rune)

  -- The loop of `key`: the bytes of the name and what follows; a rune takes a byte at least.
  unfoldable pub name_loop : ℕ → Bool → Bytes → Bytes × Bytes
  name_loop zero first s = ([], s)
  name_loop (suc fuel) first [] = ([], [])
  name_loop (suc fuel) first (c ∷ r) =
      let (rune, width) = u.decode_rune (c ∷ r) in
      let (name, rest) = name_loop fuel false (drop width (c ∷ r)) in
      if is_name_rune first rune then (take width (c ∷ r) ++ name, rest) else ([], c ∷ r)

  unfoldable pub parse_key : Bytes → Parsed Bytes
  parse_key s =
      let (name, rest) = name_loop (length s) true s in
      let quoted = parse_string s in
      if is_quote (peek s)
      then quoted
      else if length name == 0
      then refuse expected_key s
      else parsed name rest
