-- ===== src/Zenoh/Json5.antt =====
-- zenoh/json5.go: the JSON5 values that a configuration is read from, and the lexical part of the parser.
-- The parser is over the unread bytes, `p.src[p.pos:]`; a refusal keeps how many of them are left, which
-- `line_col` turns into a place. Floats are a parameter, with `strconv.ParseFloat` on the literal, and so
-- are `utf8.DecodeRuneInString`, `unicode.IsLetter` and `unicode.IsDigit`.
pub mod Lexical
pub mod Parser
pub mod Ends
pub mod Fuel
pub mod Printer
pub mod Printed
pub mod Heads
pub mod Entered
pub mod Steps
pub mod RoundTrip
use zenoh_go_client.Prelude.{
  ℕ, zero, suc, ◌+◌, ◌-◌, ◌*◌, ◌/◌, ◌%◌, ◌^◌, Bool, true, false, not, ◌&&◌, ◌||◌, List, [], ◌∷◌,
  ◌++◌, length, drop, Option, none, some, ◌==◌, ltb, leb, bytes_eq, if◌then◌else◌,
}
use zenoh_go_client.Codec.Types.{Bytes}

-- `int64`
pub data ℤ : Type 0 where
  pos : ℕ → ℤ
  negsuc : ℕ → ℤ

mutual
  pub data Json (F : Type 0) : Type 0 where
    null : Json F
    bool : Bool → Json F
    int : ℤ → Json F
    float : F → Json F
    string : Bytes → Json F
    array : Items F → Json F
    object : Fields F → Json F

  pub data Items (F : Type 0) : Type 0 where
    no_items : Items F
    item : Json F → Items F → Items F

  -- The elements of the map.
  pub data Fields (F : Type 0) : Type 0 where
    no_fields : Fields F
    field : Bytes → Json F → Fields F → Fields F

pub data Json5Error : Type 0 where
  trailing_input end_of_input unexpected_character expected_colon : Json5Error
  expected_comma_or_brace expected_comma_or_bracket expected_key : Json5Error
  unterminated_escape truncated_u_escape bad_u_escape truncated_x_escape : Json5Error
  bad_x_escape unknown_escape unterminated_string invalid_literal : Json5Error
  empty_hex hex_range empty_number float_syntax int_syntax : Json5Error

-- A value with the unread bytes, or the error with their number; `spent` is the model's own.
pub data Parsed {ℓ} (A : Type ℓ) : Type ℓ where
  parsed : A → Bytes → Parsed A
  refused : Json5Error → ℕ → Parsed A
  spent : Parsed A

module _ {ℓ κ} {A : Type ℓ} {B : Type κ} where
  abbrev pub bind : Parsed A → (A → Bytes → Parsed B) → Parsed B
  bind (parsed a r) k = k a r
  bind (refused e n) k = refused e n
  bind spent k = spent

abbrev pub refuse {ℓ} : {A : Type ℓ} → Json5Error → Bytes → Parsed A
refuse e r = refused e (length r)

-- `lineCol` for a position.
unfoldable pub line_col_loop : ℕ → ℕ → ℕ → Bytes → ℕ × ℕ
line_col_loop zero line col s = (line, col)
line_col_loop (suc n) line col [] = (line, col)
line_col_loop (suc n) line col (c ∷ s) =
    let next = line_col_loop n (line + 1) 1 s in
    let same = line_col_loop n line (col + 1) s in if c == b'\n' then next else same

unfoldable pub line_col : Bytes → ℕ → ℕ × ℕ
line_col src at = line_col_loop at 1 1 src

-- `peek`, and `p.pos++`.
abbrev pub peek : Bytes → ℕ
peek [] = 0
peek (c ∷ r) = c

abbrev pub is_space : ℕ → Bool
is_space c = (c == b' ' || c == b'\t') || (c == b'\n' || c == b'\r')

-- Where `skip` is: between the tokens, in a line comment, or in a block comment.
pub data Place : Type 0 where
  between : Place
  in_line : Place
  in_block : Place

-- A line comment ends before its newline, which is a space then; a block comment that does not end leaves
-- the last byte.
unfoldable pub skip_in : Place → Bytes → Bytes
skip_in between [] = []
skip_in between (c ∷ []) = if is_space c then [] else c ∷ []
skip_in between (c ∷ d ∷ r) =
    let next = skip_in between (d ∷ r) in
    let line = skip_in in_line r in
    let block = skip_in in_block r in
    if is_space c
    then next
    else if c == b'/' && d == b'/'
    then line
    else if c == b'/' && d == b'*'
    then block
    else c ∷ d ∷ r
skip_in in_line [] = []
skip_in in_line (c ∷ r) =
    let next = skip_in between r in
    let more = skip_in in_line r in if c == b'\n' then next else more
skip_in in_block [] = []
skip_in in_block (c ∷ []) = c ∷ []
skip_in in_block (c ∷ d ∷ r) =
    let next = skip_in between r in
    let more = skip_in in_block (d ∷ r) in if c == b'*' && d == b'/' then next else more

unfoldable pub skip : Bytes → Bytes
skip s = skip_in between s
