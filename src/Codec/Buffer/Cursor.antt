-- ===== src/Codec/Buffer/Cursor.antt =====
-- The `Reader` struct of internal/codec/buffer.go, a cursor over a buffer, and how its methods act on
-- the unread bytes.
use zenoh_go_client.Prelude.{
  ℕ, zero, suc, ◌+◌, ◌-◌, ◌≤◌, ◌≡◌, refl, [], ◌∷◌, none, some, length, take, drop, get_elem?, ltb,
  arith, length-drop, if◌then◌else◌, inl, inr, Option-cases,
}
use native.Mathlib.Nat.{zero-add, suc-add}
use zenoh_go_client.Codec.Types.{Bytes, Error, unexpected_eof, Result, ok, err}
use zenoh_go_client.Codec.Buffer.{read_byte, peek_byte, read_n}

-- The `Reader` struct: the backing buffer and the read offset.
pub record Reader : Type 0 where
  pub buf : Bytes
  pub off : ℕ

unfoldable pub new_reader : Bytes → Reader
new_reader buf = record { buf = buf; off = 0 }

-- `Len`; the offset never passes the end (`IsCursor`).
unfoldable pub len : Reader → ℕ
len r = length r.buf - r.off

-- `Bytes`: the unread bytes.
unfoldable pub unread : Reader → Bytes
unread r = drop r.off r.buf

-- The result of a method that moves the cursor: on an error the cursor stands where it was.
pub data Moved {ℓ} (A : Type ℓ) : Type ℓ where
  moved : A → Reader → Moved A
  stopped : Error → Reader → Moved A

unfoldable pub cursor_read_byte : Reader → Moved ℕ
cursor_read_byte r = elim (get_elem? r.buf r.off) [
  | none ↦ stopped unexpected_eof r
  | some b ↦ moved b (record r { off = r.off + 1 })
]

unfoldable pub cursor_peek_byte : Reader → Result ℕ
cursor_peek_byte r = elim (get_elem? r.buf r.off) [ none ↦ err unexpected_eof | some b ↦ ok b ]

-- `ReadN` at a length that is not negative.
unfoldable pub cursor_read_n : ℕ → Reader → Moved Bytes
cursor_read_n n r =
    if ltb (length r.buf) (r.off + n)
    then stopped unexpected_eof r
    else moved (take n (drop r.off r.buf)) (record r { off = r.off + n })

unfoldable pub cursor_skip : ℕ → Reader → Moved (Unit {0})
cursor_skip n r =
    if ltb (length r.buf) (r.off + n)
    then stopped unexpected_eof r
    else moved tt (record r { off = r.off + n })

abbrev pub IsCursor : Reader → Type 0
IsCursor r = r.off ≤ length r.buf

-- A method's result seen through the unread bytes.
unfoldable pub view {ℓ} : {A : Type ℓ} → Moved A → Result (A × Bytes)
view (moved a r) = ok (a, drop r.off r.buf)
view (stopped e r) = err e

unfoldable pub reader_after {ℓ} : {A : Type ℓ} → Moved A → Reader
reader_after (moved a r) = r
reader_after (stopped e r) = r

-- The offset stays in the buffer, and the buffer is not touched.
pub record Advances (r r' : Reader) : Type 0 where
  pub in_bounds : IsCursor r'
  pub forward : r.off ≤ r'.off
  pub same_buf : r'.buf ≡ r.buf

drop_step : (n b : ℕ) (xs : Bytes) → get_elem? xs n ≡ some b → drop n xs ≡ b ∷ drop (n + 1) xs
drop_step n b [] h = cc
drop_step zero b (x ∷ xs) h = ground arith
drop_step (suc n) b (x ∷ xs) h = ground (arith, drop_step n b xs h)

drop_end : (n : ℕ) (xs : Bytes) → get_elem? xs n ≡ none → drop n xs ≡ []
drop_end zero [] h = refl
drop_end (suc n) [] h = refl
drop_end zero (x ∷ xs) h = cc
drop_end (suc n) (x ∷ xs) h = drop_end n xs h

get_elem?-lt : (n b : ℕ) (xs : Bytes) → get_elem? xs n ≡ some b → n + 1 ≤ length xs
get_elem?-lt n b [] h = cc
get_elem?-lt zero b (x ∷ xs) h = omega arith
get_elem?-lt (suc n) b (x ∷ xs) h = omega (arith, get_elem?-lt n b xs h)

drop-nil : (m : ℕ) → drop {A = ℕ} m [] ≡ []
drop-nil zero = refl
drop-nil (suc m) = refl

drop-drop : (n m : ℕ) (xs : Bytes) → drop m (drop n xs) ≡ drop (n + m) xs
drop-drop zero m xs = rw (zero-add m)
drop-drop (suc n) m [] = rw (drop-nil m, suc-add)
drop-drop (suc n) m (x ∷ xs) = rw suc-add (drop-drop n m xs)

-- `ReadByte` and `PeekByte` on a cursor within its buffer are the list operations on the unread
-- bytes, and `ReadByte` keeps the cursor in the buffer, never moves it back and leaves the buffer.
pub read_byte_refines :
    (r : Reader)
    → IsCursor r
    → (view (cursor_read_byte r) ≡ read_byte (unread r))
      × (cursor_peek_byte r ≡ peek_byte (unread r))
      × Advances r (reader_after (cursor_read_byte r))
unfolding view unread reader_after cursor_read_byte cursor_peek_byte read_byte peek_byte
read_byte_refines r h = elim (Option-cases (get_elem? r.buf r.off)) [
  | inl e ↦ (
    ground (arith, drop_end r.off r.buf),
    ground (arith, drop_end r.off r.buf),
    record { in_bounds = ground arith; forward = ground arith; same_buf = ground arith },
  )
  | inr (b, e) ↦ (
    ground (arith, drop_step r.off b r.buf),
    ground (arith, drop_step r.off b r.buf),
    record {
      in_bounds = ground (arith, get_elem?-lt r.off b r.buf);
      forward = ground arith;
      same_buf = ground arith;
    },
  )
]

-- `ReadN` on a cursor within its buffer is the list operation on the unread bytes, keeps the cursor
-- in the buffer, never moves it back and leaves the buffer; `Skip` moves the cursor as `ReadN`
-- does.
pub read_n_refines :
    (n : ℕ) (r : Reader)
    → IsCursor r
    → (view (cursor_read_n n r) ≡ read_n n (unread r))
      × Advances r (reader_after (cursor_read_n n r))
      × (reader_after (cursor_skip n r) ≡ reader_after (cursor_read_n n r))
unfolding view unread reader_after cursor_read_n cursor_skip read_n
read_n_refines n r h = (
  ground (arith, length-drop r.off r.buf, drop-drop r.off n r.buf),
  record { in_bounds = ground arith; forward = ground arith; same_buf = ground arith },
  ground arith,
)
