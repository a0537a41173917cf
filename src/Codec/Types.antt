-- ===== src/Codec/Types.antt =====
-- The results, readers and writers of internal/codec.
--
-- A byte is a number, a Go slice or string of bytes a list. A decoder takes the unread bytes of the
-- `Reader` (`buf[off:]`) and returns the value with the bytes that it leaves; `Codec.Buffer` relates
-- this view to the cursor of buffer.go. An encoder takes the bytes that the `Writer` holds and
-- returns them with its own appended; where it fails, the bytes written so far stay in the writer.
-- Go's `fmt.Errorf("...: %w", err)` keeps the cause, so a wrapped error is modelled by its cause.
use zenoh_go_client.Prelude.{ℕ, ◌<◌, Bool, true, false, List}

abbrev pub Bytes : Type 0
Bytes = List ℕ

abbrev pub IsByte : ℕ → Type 0
IsByte b = b < 256

-- One constructor for each error value that the source returns.
pub data Error : Type 0 where
  unexpected_eof : Error
  overflow : Error
  negative_length : Error
  too_long : Error
  invalid_utf8 : Error
  reserved_encoding : Error
  unexpected_id : ℕ → Error
  zid_len_out_of_range : Error
  what_am_i_out_of_range : Error
  zid_length_mismatch : Error
  encoding_id_too_big : Error
  trailing_bytes : Error
  nil_body : Error
  matcher_out_of_range : Error
  too_many_locators : Error

pub data Result {ℓ} (A : Type ℓ) : Type ℓ where
  ok : A → Result A
  err : Error → Result A

abbrev pub Parser {ℓ} : Type ℓ → Type ℓ
Parser A = Bytes → Result (A × Bytes)

module _ {ℓ κ} {A : Type ℓ} {B : Type κ} where
  unfoldable pub and_then : Result (A × Bytes) → (A → Parser B) → Result (B × Bytes)
  and_then (ok (a, rest)) f = f a rest
  and_then (err e) f = err e

  infixl 5 ◌>>=◌
  unfoldable pub ◌>>=◌ : Parser A → (A → Parser B) → Parser B
  unfolding and_then
  ◌>>=◌ p f r = and_then (p r) f

module _ {ℓ} {A : Type ℓ} where
  unfoldable pub pure : A → Parser A
  pure a r = ok (a, r)

  unfoldable pub fail : Error → Parser A
  fail e r = err e

-- The bytes in the writer after a call, and whether it failed.
pub data Written : Type 0 where
  written : Bytes → Written
  failed : Error → Bytes → Written

abbrev pub Encoder : Type 0
Encoder = Bytes → Written

unfoldable pub and_write : Written → Encoder → Written
and_write (written w) e = e w
and_write (failed x w) e = failed x w

infixl 5 ◌>>◌
unfoldable pub ◌>>◌ : Encoder → Encoder → Encoder
unfolding and_write
◌>>◌ d e w = and_write (d w) e

unfoldable pub skip : Encoder
skip w = written w

unfoldable pub refuse : Error → Encoder
refuse e w = failed e w

-- An encoder that runs only under a flag, and the decoder of an optional field.
unfoldable pub when : Bool → Encoder → Encoder
unfolding skip
when true e = e
when false e = skip

unfoldable pub optional {ℓ} : {A : Type ℓ} → Bool → A → Parser A → Parser A
unfolding pure
optional true absent p = p
optional false absent p = pure absent
