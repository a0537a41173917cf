-- ===== src/Zenoh/Json5/Ends.antt =====
-- zenoh/json5.go: the functions that read a token end, and leave less than they are given.
use zenoh_go_client.Prelude.{
  ℕ, zero, suc, ◌+◌, ◌≤◌, ◌<◌, ◌≡◌, refl, Bool, true, false, [], ◌∷◌, ◌++◌, length, take, drop,
  length-append, length-take, length-drop, Option, ◌==◌, if◌then◌else◌, Bool-cases, Option-cases,
  inl, inr, arith,
}
use zenoh_go_client.Codec.Types.{Bytes}
use zenoh_go_client.Zenoh.Json5.{
  Place, between, in_line, in_block, skip_in, skip, Json, Json5Error, Parsed, parsed, refused, bind,
  peek,
}
use zenoh_go_client.Zenoh.Json5.Lexical.{
  Unicode, hex_value, u_escape, x_escape, simple_escape, escape, string_loop, parse_string, span,
  is_name_rune, name_loop, parse_key, hex_number, decimal_number, parse_number, parse_bool,
  parse_null, is_quote, is_hex_digit, is_number_byte, to_int64, is_minus, all_hex, decimal_value,
  has_float, is_hex_start, take_sign, has_prefix, true_text, false_text, null_text,
}
use zenoh_go_client.Zenoh.Json5.Parser.{wrap}

-- The parser ended within its fuel, and what it leaves is shorter than `n`.
pub data Ends {ℓ} {A : Type ℓ} (n : ℕ) : Parsed A → Type ℓ where
  leaves : {a : A} {r : Bytes} → length r < n → Ends n (parsed a r)
  refuses : {e : Json5Error} {k : ℕ} → Ends n (refused e k)

module _ {ℓ} {A : Type ℓ} {n : ℕ} where
  pub Ends-if : (b : Bool) {x y : Parsed A} → Ends n x → Ends n y → Ends n (if b then x else y)
  Ends-if true hx hy = hx
  Ends-if false hx hy = hy

  -- Where the first branch ends because of the test.
  pub Ends-when :
      (b : Bool) {x y : Parsed A}
      → (b ≡ true → Ends n x)
      → (b ≡ false → Ends n y)
      → Ends n (if b then x else y)
  Ends-when true hx hy = hx refl
  Ends-when false hx hy = hy refl

  pub Ends-bind {κ} :
      {B : Type κ} {m : ℕ} {p : Parsed A} {k : A → Bytes → Parsed B}
      → Ends n p
      → ((a : A) (r : Bytes) → length r < n → Ends m (k a r))
      → Ends m (bind p k)
  Ends-bind (leaves {a} {r} h) next = next a r h
  Ends-bind refuses next = refuses

  pub Ends-more : {m : ℕ} {p : Parsed A} → n ≤ m → Ends n p → Ends m p
  Ends-more le (leaves h) = leaves (omega arith)
  Ends-more le refuses = refuses

length-skip_in : (p : Place) (s : Bytes) → length (skip_in p s) ≤ length s
unfolding skip_in
length-skip_in between [] = omega arith
length-skip_in between (c ∷ []) = ground arith
length-skip_in between (c ∷ d ∷ r) =
    ground
      (arith, length-skip_in between (d ∷ r), length-skip_in in_line r, length-skip_in in_block r)
length-skip_in in_line [] = omega arith
length-skip_in in_line (c ∷ r) = ground (arith, length-skip_in between r, length-skip_in in_line r)
length-skip_in in_block [] = omega arith
length-skip_in in_block (c ∷ []) = omega arith
length-skip_in in_block (c ∷ d ∷ r) =
    ground (arith, length-skip_in between r, length-skip_in in_block (d ∷ r))

pub length-skip : (s : Bytes) → length (skip s) ≤ length s
unfolding skip
length-skip s = length-skip_in between s

u_escape-Ends : (r : Bytes) → Ends (suc (length r)) (u_escape r)
unfolding u_escape
u_escape-Ends [] = refuses
u_escape-Ends (a ∷ []) = refuses
u_escape-Ends (a ∷ b ∷ []) = refuses
u_escape-Ends (a ∷ b ∷ c ∷ []) = refuses
u_escape-Ends (a ∷ b ∷ c ∷ d ∷ r) = elim (Option-cases (hex_value 0 (a ∷ b ∷ c ∷ d ∷ []))) [
  | inl e ↦ rw (e) refuses
  | inr (n, e) ↦ rw (e) (leaves (omega arith))
]

x_escape-Ends : (r : Bytes) → Ends (suc (length r)) (x_escape r)
unfolding x_escape
x_escape-Ends [] = refuses
x_escape-Ends (a ∷ []) = refuses
x_escape-Ends (a ∷ b ∷ r) = elim (Option-cases (hex_value 0 (a ∷ b ∷ []))) [
  | inl e ↦ rw (e) refuses
  | inr (n, e) ↦ rw (e) (leaves (omega arith))
]

escape-Ends : (r : Bytes) → Ends (length r) (escape r)
unfolding escape
escape-Ends [] = refuses
escape-Ends (e ∷ r) = elim (Option-cases (simple_escape e)) [
  | inl none_there ↦
      rw (none_there)
        (Ends-if (e == b'u') (u_escape-Ends r) (Ends-if (e == b'x') (x_escape-Ends r) refuses))
  | inr (out, there) ↦ rw (there) (leaves (omega arith))
]

string_loop-Ends :
    (quote fuel : ℕ) (s : Bytes)
    → length s < fuel
    → Ends (suc (length s)) (string_loop quote fuel s)
unfolding string_loop
string_loop-Ends quote zero s h = absurd (omega arith)
string_loop-Ends quote (suc fuel) [] h = refuses
string_loop-Ends quote (suc fuel) (c ∷ r) h = Ends-if (c == quote) (leaves (omega arith)) (
    Ends-if (c == b'\\')
      (Ends-bind (escape-Ends r) λ out r' l.
        Ends-bind (string_loop-Ends quote fuel r' (omega arith))
          λ rest r'' l'. leaves (omega arith))
      (Ends-bind (string_loop-Ends quote fuel r (omega arith)) λ rest r' l'. leaves (omega arith)))

pub parse_string-Ends : (c : ℕ) (r : Bytes) → Ends (suc (length r)) (parse_string (c ∷ r))
unfolding parse_string
parse_string-Ends c r = string_loop-Ends c (suc (length r)) r (omega arith)

length-span :
    (test : ℕ → Bool) (s : Bytes) → length (span test s).0 + length (span test s).1 ≡ length s
unfolding span
length-span test [] = omega arith
length-span test (c ∷ r) = ground (arith, length-span test r)

length-take-drop : (n : ℕ) (s : Bytes) → length (take n s) + length (drop n s) ≡ length s
length-take-drop n s = ground (arith, length-take n s, length-drop n s)

length-name_loop :
    (u : Unicode) (fuel : ℕ) (first : Bool) (s : Bytes)
    → length (name_loop u fuel first s).0 + length (name_loop u fuel first s).1 ≡ length s
unfolding name_loop
length-name_loop u zero first s = omega arith
length-name_loop u (suc fuel) first [] = omega arith
length-name_loop u (suc fuel) first (c ∷ r) =
    let w = (u.decode_rune (c ∷ r)).1 in
    let rest = length-name_loop u fuel false (drop w (c ∷ r)) in
    let cut = length-take-drop w (c ∷ r) in
    let joined = length-append (take w (c ∷ r)) (name_loop u fuel false (drop w (c ∷ r))).0 in
    elim (Bool-cases (is_name_rune u first (u.decode_rune (c ∷ r)).0)) [
      | inl e ↦ rw (e) (omega (arith, rest, cut, joined))
      | inr e ↦ rw (e) (omega arith)
    ]

pub parse_key-Ends : (u : Unicode) (s : Bytes) → Ends (length s) (parse_key u s)
unfolding parse_key name_loop
parse_key-Ends u [] = refuses
parse_key-Ends u (c ∷ r) =
    let (name, rest) = name_loop u (suc (length r)) true (c ∷ r) in
    let total = length-name_loop u (suc (length r)) true (c ∷ r) in
    Ends-if (is_quote c) (parse_string-Ends c r)
      (Ends-when (length name == 0) (λ e. refuses) (λ e. leaves (ground (arith, total))))

hex_number-Ends :
    {F : Type 0} (pf : Bytes → Option F) (sign s : Bytes)
    → Ends (suc (length s)) (hex_number pf sign s)
unfolding hex_number
hex_number-Ends pf sign s =
    let (digits, rest) = span is_hex_digit s in
    let total = length-span is_hex_digit s in
    Ends-when (length digits == 0) (λ e. refuses)
      (λ e. elim (Option-cases (to_int64 (is_minus sign) (all_hex 0 digits))) [
        | inl none_there ↦ rw (none_there) refuses
        | inr (n, there) ↦ rw (there) (leaves (omega (arith, total)))
      ])

decimal_number-Ends :
    {F : Type 0} (pf : Bytes → Option F) (sign s : Bytes)
    → Ends (length s) (decimal_number pf sign s)
unfolding decimal_number
decimal_number-Ends pf sign s =
    let (body, rest) = span is_number_byte s in
    let total = length-span is_number_byte s in
    Ends-when (length body == 0) (λ e. refuses)
      (λ e.
        let shorter : length rest < length s = ground (arith, total) in
        Ends-if (has_float body)
          (elim (Option-cases (pf (sign ++ body))) [
            | inl lost ↦ rw (lost) refuses
            | inr (f, read) ↦ rw (read) (leaves shorter)
          ])
          (elim (Option-cases (to_int64 (is_minus sign) (decimal_value 0 body))) [
            | inl none_there ↦ elim (Option-cases (pf (sign ++ body))) [
              | inl lost ↦ rw (none_there, lost) refuses
              | inr (f, read) ↦ rw (none_there, read) (leaves shorter)
            ]
            | inr (n, there) ↦ rw (there) (leaves shorter)
          ]))

length-hex_start : (r : Bytes) → is_hex_start r ≡ true → 2 ≤ length r
length-hex_start [] h = cc
length-hex_start (c ∷ []) h = cc
length-hex_start (c ∷ d ∷ r) h = omega arith

length-take_sign : (s : Bytes) → length (take_sign s).1 ≤ length s
length-take_sign [] = omega arith
length-take_sign (c ∷ r) = ground arith

pub parse_number-Ends :
    {F : Type 0} (pf : Bytes → Option F) (s : Bytes) → Ends (length s) (parse_number pf s)
unfolding parse_number
parse_number-Ends pf s =
    let (sign, r) = take_sign s in
    let cut = length-take_sign s in
    Ends-when (is_hex_start r)
      (λ e.
        Ends-more (omega (arith, length-drop 2 r, length-hex_start r e, cut))
          (hex_number-Ends pf sign (drop 2 r)))
      (λ e. Ends-more cut (decimal_number-Ends pf sign r))

pub parse_bool-Ends :
    {F : Type 0} (c : ℕ) (r : Bytes) → Ends {A = Json F} (suc (length r)) (parse_bool (c ∷ r))
unfolding parse_bool
parse_bool-Ends c r =
    Ends-if (has_prefix true_text (c ∷ r)) (leaves (omega (arith, length-drop 4 (c ∷ r)))) (
      Ends-if (has_prefix false_text (c ∷ r)) (leaves (omega (arith, length-drop 5 (c ∷ r))))
        refuses)

pub parse_null-Ends :
    {F : Type 0} (c : ℕ) (r : Bytes) → Ends {A = Json F} (suc (length r)) (parse_null (c ∷ r))
unfolding parse_null
parse_null-Ends c r =
    Ends-if (has_prefix null_text (c ∷ r)) (leaves (omega (arith, length-drop 4 (c ∷ r)))) refuses

-- The text behind a byte that `peek` has seen is shorter.
pub length-behind :
    (s : Bytes) (c : ℕ) → (peek s == c) ≡ true → 1 ≤ c → length (drop 1 s) < length s
length-behind [] c h positive = absurd (ground arith)
length-behind (d ∷ s) c h positive = omega arith

pub wrap-Ends :
    {F A : Type 0} {n m : ℕ} {p : Parsed A} (f : A → Json F) → n ≤ m → Ends n p → Ends m (wrap f p)
wrap-Ends f le h = Ends-bind h λ a r l. leaves (omega arith)
