-- ===== src/Zenoh/Json5/Printed.antt =====
-- zenoh/json5.go: the tokens that a printed value is made of, as the lexical part reads them.
use zenoh_go_client.Prelude.{
  ℕ, zero, suc, ◌+◌, ◌-◌, ◌*◌, ◌/◌, ◌%◌, ◌^◌, ◌≤◌, ◌<◌, ◌≡◌, refl, ap, ◌∙◌, Bool, true, false, ◌||◌,
  [], ◌∷◌, ◌++◌, length, length-append, All, Option, some, ◌==◌, ltb, leb, Bool-cases, inl, inr,
  arith,
}
use zenoh_go_client.Codec.Types.{Bytes}
use zenoh_go_client.Zenoh.Json5.{ℤ, pos, negsuc, int, parsed, skip, skip_in, is_space}
use zenoh_go_client.Zenoh.Json5.Lexical.{
  is_digit, is_number_byte, is_float_byte, is_hex_start, has_float, span, decimal_value, to_int64,
  simple_escape, escape, string_loop, parse_string, is_minus, decimal_number, parse_number,
  take_sign, is_sign,
}
use zenoh_go_client.Zenoh.Json5.Printer.{
  needs_escape, escaped, quoted, digits_loop, digits, print_int, IsInt64,
}

-- A byte that `skip` stays at.
pub skip-solid :
    (c : ℕ) (r : Bytes) → is_space c ≡ false → (c == b'/') ≡ false → skip (c ∷ r) ≡ c ∷ r
unfolding skip skip_in
skip-solid c [] h k = rw (h) refl
skip-solid c (d ∷ r) h k = rw (h, k) refl

-- What follows a value: nothing, a comma, or a closing bracket.
abbrev pub is_stop : ℕ → Bool
is_stop c = c == b',' || (c == b']' || c == b'}')

abbrev pub Stops : Bytes → Type 0
Stops [] = Unit
Stops (c ∷ r) = is_stop c ≡ true

pub skip-Stops : (s : Bytes) → Stops s → skip s ≡ s
unfolding skip skip_in
skip-Stops [] h = refl
skip-Stops (c ∷ r) h = skip-solid c r (ground arith) (ground arith)

simple_escape-needed : (c : ℕ) → needs_escape c ≡ true → simple_escape c ≡ some (c ∷ [])
unfolding simple_escape
simple_escape-needed c h = ground arith

string_loop-escaped :
    (s rest : Bytes) (fuel : ℕ)
    → length (escaped s) < fuel
    → string_loop b'"' fuel (escaped s ++ (b'"' ∷ rest)) ≡ parsed s rest
unfolding string_loop escaped escape
string_loop-escaped s rest zero h = absurd (omega arith)
string_loop-escaped [] rest (suc fuel) h = refl
string_loop-escaped (c ∷ s) rest (suc fuel) h = elim (Bool-cases (needs_escape c)) [
  | inl e ↦
      let esc = simple_escape-needed c e in
      let l : length (escaped s) < fuel = ground arith in
      let rest_read = string_loop-escaped s rest fuel l in rw (e, esc, rest_read) refl
  | inr e ↦
      let not_quote : (c == b'"') ≡ false = ground arith in
      let not_slash : (c == b'\\') ≡ false = ground arith in
      let l : length (escaped s) < fuel = ground arith in
      let rest_read = string_loop-escaped s rest fuel l in
      rw (e, not_quote, not_slash, rest_read) refl
]

pub parse_string-quoted : (s rest : Bytes) → parse_string (quoted s rest) ≡ parsed s rest
unfolding parse_string
parse_string-quoted s rest =
    string_loop-escaped s rest (suc (length (escaped s ++ (b'"' ∷ rest))))
      (omega (arith, length-append (escaped s) (b'"' ∷ rest)))

digits_loop-digits :
    (fuel n : ℕ) (back : Bytes)
    → All (λ c. is_digit c ≡ true) back
    → All (λ c. is_digit c ≡ true) (digits_loop fuel n back)
unfolding digits_loop
digits_loop-digits zero n back h = h
digits_loop-digits (suc fuel) n back h = elim (Bool-cases (ltb n 10)) [
  | inl e ↦ rw (e) (ground arith, h)
  | inr e ↦ rw (e) (digits_loop-digits fuel (n / 10) _ (ground arith, h))
]

decimal_value-digits_loop :
    (fuel n : ℕ) (back : Bytes)
    → n < fuel
    → decimal_value 0 (digits_loop fuel n back) ≡ decimal_value n back
unfolding digits_loop decimal_value
decimal_value-digits_loop zero n back h = absurd (omega arith)
decimal_value-digits_loop (suc fuel) n back h = elim (Bool-cases (ltb n 10)) [
  | inl e ↦ rw (e) (ap (λ (k : ℕ). decimal_value k back) (omega arith))
  | inr e ↦
      let small : n / 10 < fuel = ground arith in
      let later = decimal_value-digits_loop fuel (n / 10) ((b'0' + n % 10) ∷ back) small in
      let same : n / 10 * 10 + ((48 + n % 10) - 48) ≡ n = omega arith in
      rw (e) (later ∙ ap (λ (k : ℕ). decimal_value k back) same)
]

digits_loop-some :
    (fuel n : ℕ) (back : Bytes) → length back < length (digits_loop (suc fuel) n back)
unfolding digits_loop
digits_loop-some zero n back = ground arith
digits_loop-some (suc fuel) n back = elim (Bool-cases (ltb n 10)) [
  | inl e ↦ rw (e) (omega arith)
  | inr e ↦ rw (e) (omega (arith, digits_loop-some fuel (n / 10) ((b'0' + n % 10) ∷ back)))
]

span-digits :
    (ds rest : Bytes)
    → All (λ c. is_digit c ≡ true) ds
    → Stops rest
    → span is_number_byte (ds ++ rest) ≡ (ds, rest)
unfolding span
span-digits [] [] h s = refl
span-digits [] (c ∷ r) h s = let out : is_number_byte c ≡ false = ground arith in rw (out) refl
span-digits (d ∷ ds) rest (h, hs) s = rw (span-digits ds rest hs s, h) refl

has_float-digits : (ds : Bytes) → All (λ c. is_digit c ≡ true) ds → has_float ds ≡ false
has_float-digits [] h = refl
has_float-digits (d ∷ ds) (h, hs) =
    let no_float : is_float_byte d ≡ false = ground arith in rw (no_float) (has_float-digits ds hs)

pub digits-all : (n : ℕ) → All (λ c. is_digit c ≡ true) (digits n)
unfolding digits
digits-all n = digits_loop-digits (suc n) n [] tt

pub digits-some : (n : ℕ) → 1 ≤ length (digits n)
unfolding digits
digits-some n = digits_loop-some n n []

decimal_value-digits : (n : ℕ) → decimal_value 0 (digits n) ≡ n
unfolding digits decimal_value
decimal_value-digits n = decimal_value-digits_loop (suc n) n [] (omega arith)

no_hex :
    (ds rest : Bytes)
    → All (λ c. is_digit c ≡ true) ds
    → 1 ≤ length ds
    → Stops rest
    → is_hex_start (ds ++ rest) ≡ false
no_hex [] rest hs some_there s = absurd (omega arith)
no_hex (d ∷ []) [] hs some_there s = refl
no_hex (d ∷ []) (c ∷ r) hs some_there s = ground arith
no_hex (d ∷ e ∷ ds) rest (h, (k, hs)) some_there s = ground arith

take_sign-digits :
    (ds rest : Bytes)
    → All (λ c. is_digit c ≡ true) ds
    → 1 ≤ length ds
    → take_sign (ds ++ rest) ≡ ([], ds ++ rest)
take_sign-digits [] rest hs some_there = absurd (omega arith)
take_sign-digits (d ∷ ds) rest (h, hs) some_there =
    let no_sign : is_sign d ≡ false = ground arith in rw (no_sign) refl

decimal_number-digits :
    {F : Type 0} (pf : Bytes → Option F) (sign ds rest : Bytes) (n : ℤ)
    → All (λ c. is_digit c ≡ true) ds
    → 1 ≤ length ds
    → Stops rest
    → to_int64 (is_minus sign) (decimal_value 0 ds) ≡ some n
    → decimal_number pf sign (ds ++ rest) ≡ parsed (int n) rest
unfolding decimal_number
decimal_number-digits pf sign ds rest n hs some_there s value =
    let some_body : (length ds == 0) ≡ false = ground arith in
    rw (span-digits ds rest hs s, some_body, has_float-digits ds hs, value) refl

pub parse_number-print_int :
    {F : Type 0} (pf : Bytes → Option F) (n : ℤ) (rest : Bytes)
    → IsInt64 n
    → Stops rest
    → parse_number pf (print_int n ++ rest) ≡ parsed (int n) rest
unfolding parse_number to_int64
parse_number-print_int pf (pos n) rest fits s =
    let small : ltb n (2 ^ 63) ≡ true = ground arith in
    rw
      (
        take_sign-digits (digits n) rest (digits-all n) (digits-some n),
        no_hex (digits n) rest (digits-all n) (digits-some n) s,
      )
      (decimal_number-digits pf [] (digits n) rest (pos n) (digits-all n) (digits-some n) s
        (rw (decimal_value-digits n, small) refl))
parse_number-print_int pf (negsuc n) rest fits s =
    let ds = digits (suc n) in
    let small : leb (suc n) (2 ^ 63) ≡ true = ground arith in
    rw (no_hex ds rest (digits-all (suc n)) (digits-some (suc n)) s) (
      decimal_number-digits pf (b'-' ∷ []) ds rest (negsuc n) (digits-all (suc n))
        (digits-some (suc n)) s (rw (decimal_value-digits (suc n), small) refl))
