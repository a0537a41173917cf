-- ===== src/Codec/Shrinks.antt =====
-- Decoders never give back more bytes than they were given: what every decoder loop rests on.
use zenoh_go_client.Prelude.{
  ℕ, zero, suc, ◌+◌, ◌≤◌, ◌<◌, ◌≡◌, refl, ap, ◌⊎◌, inl, inr, Bool, true, false, [], ◌∷◌, length,
  arith, if◌then◌else◌, length-drop, ◌-◌, ◌==◌, ◌&&◌, not, bit_and, bit_or, ltb,
}
use zenoh_go_client.Codec.Types.{
  Bytes, Error, overflow, Result, ok, err, Parser, ◌>>=◌, and_then, pure, fail, optional,
}
use zenoh_go_client.Codec.Buffer.{read_byte, read_n, read_u16_le}
use zenoh_go_client.Codec.Vle.{
  max_z64_bytes, shift_left, decode_loop, decode_vle, decode_z64, decode_narrow, decode_z32,
  decode_z16, decode_z8,
}
use zenoh_go_client.Codec.Primitives.{decode_bytes_z8, decode_bytes_z16, decode_bytes_z32}

pub record Shrinks {ℓ} {A : Type ℓ} (p : Parser A) : Type ℓ where
  pub shorter : (r : Bytes) (v : A) (rest : Bytes) → p r ≡ ok (v, rest) → length rest ≤ length r

-- The bytes that a decoder left.
abbrev pub left_over {ℓ} : {A : Type ℓ} → Result (A × Bytes) → Bytes
left_over (ok p) = p.1
left_over (err e) = []

pub Shrinks-pure {ℓ} : {A : Type ℓ} (v : A) → Shrinks (pure v)
unfolding pure
Shrinks-pure v = record {
  shorter = λ r w rest h. let e : r ≡ rest = ap left_over h in rw e (omega arith);
}

pub Shrinks-fail {ℓ} : {A : Type ℓ} (e : Error) → Shrinks (fail {A = A} e)
unfolding fail
Shrinks-fail e = record { shorter = λ r w rest h. cc }

pub Shrinks-if {ℓ} :
    {A : Type ℓ} (b : Bool) {p q : Parser A} → Shrinks p → Shrinks q → Shrinks (if b then p else q)
Shrinks-if true hp hq = hp
Shrinks-if false hp hq = hq

pub Result-cases {ℓ} :
    {A : Type ℓ} (o : Result (A × Bytes))
    → ((a : A) × (rest : Bytes) × (o ≡ ok (a, rest))) ⊎ ((e : Error) × (o ≡ err e))
Result-cases (ok (a, rest)) = inl (a, rest, refl)
Result-cases (err e) = inr (e, refl)

module _ {ℓ κ} {A : Type ℓ} {B : Type κ} where
  -- Inversion of a run that succeeds.
  pub >>=-eq-ok :
      (p : Parser A) (f : A → Parser B) (r : Bytes) {b : B} {rest : Bytes}
      → (p >>= f) r ≡ ok (b, rest)
      → (a : A) × (mid : Bytes) × (p r ≡ ok (a, mid)) × (f a mid ≡ ok (b, rest))
  unfolding ◌>>=◌
  >>=-eq-ok p f r h = invert (p r) refl h
    where
      invert :
          (o : Result (A × Bytes)) {b : B} {rest : Bytes}
          → p r ≡ o
          → and_then o f ≡ ok (b, rest)
          → (a : A) × (mid : Bytes) × (p r ≡ ok (a, mid)) × (f a mid ≡ ok (b, rest))
      invert (ok (a, mid)) e h' = (a, mid, e, h')
      invert (err x) e h' = cc

  pub Shrinks->>= :
      {p : Parser A} (f : A → Parser B) → Shrinks p → ((a : A) → Shrinks (f a)) → Shrinks (p >>= f)
  Shrinks->>= {p} f hp hf = record {
    shorter = λ r v rest h.
        let (a, mid, e, e') = >>=-eq-ok p f r h in
        omega (arith, hp.shorter r a mid e, (hf a).shorter mid v rest e');
  }

pub Shrinks-optional {ℓ} :
    {A : Type ℓ} (b : Bool) (absent : A) {p : Parser A} → Shrinks p → Shrinks (optional b absent p)
unfolding optional
Shrinks-optional true absent hp = hp
Shrinks-optional false absent hp = Shrinks-pure absent

read_byte-shorter :
    (r : Bytes) (v : ℕ) (rest : Bytes) → read_byte r ≡ ok (v, rest) → length rest < length r
unfolding read_byte
read_byte-shorter [] v rest h = cc
read_byte-shorter (b ∷ r) v rest h = let e : r ≡ rest = ap left_over h in rw e (omega arith)

pub Shrinks-read_byte : Shrinks read_byte
Shrinks-read_byte = record { shorter = λ r v rest h. omega (arith, read_byte-shorter r v rest h) }

pub Shrinks-read_n : (n : ℕ) → Shrinks (read_n n)
unfolding read_n
Shrinks-read_n n = record { shorter = λ r v rest h. ground (arith, length-drop n r) }

-- Where the first byte is always read, strictly fewer bytes are left.
pub >>=-read_byte-shorter {ℓ} :
    {A : Type ℓ} (f : ℕ → Parser A)
    → ((b : ℕ) → Shrinks (f b))
    → (r : Bytes) (v : A) (rest : Bytes) → (read_byte >>= f) r ≡ ok (v, rest)
    → length rest < length r
>>=-read_byte-shorter f hf r v rest h =
    let (b, mid, e, e') = >>=-eq-ok read_byte f r h in
    omega (arith, read_byte-shorter r b mid e, (hf b).shorter mid v rest e')

Shrinks-decode_loop : (n i max value s : ℕ) → Shrinks (decode_loop n i max value s)
unfolding decode_loop
Shrinks-decode_loop zero i max value s = Shrinks-fail _
Shrinks-decode_loop (suc n) i max value s = Shrinks->>= _ Shrinks-read_byte λ b.
    let value' = bit_or value (shift_left (bit_and b 0x7f) s) in
    let more = Shrinks-decode_loop n (i + 1) max value' (s + 7) in
    Shrinks-if (i == max_z64_bytes - 1) (Shrinks-pure _) (
      Shrinks-if (i == max - 1 && not (bit_and b 0x80 == 0)) (Shrinks-fail overflow)
        (Shrinks-if (bit_and b 0x80 == 0) (Shrinks-pure value') more))

pub Shrinks-decode_vle : (max : ℕ) → Shrinks (decode_vle max)
unfolding decode_vle
Shrinks-decode_vle max = Shrinks-decode_loop max 0 max 0 0

pub Shrinks-decode_z64 : Shrinks decode_z64
unfolding decode_z64
Shrinks-decode_z64 = Shrinks-decode_vle 9

Shrinks-decode_narrow : (max limit : ℕ) → Shrinks (decode_narrow max limit)
unfolding decode_narrow
Shrinks-decode_narrow max limit =
    Shrinks->>= _ (Shrinks-decode_vle max)
      λ v. Shrinks-if (ltb limit v) (Shrinks-fail overflow) (Shrinks-pure v)

pub Shrinks-decode_z32 : Shrinks decode_z32
unfolding decode_z32
Shrinks-decode_z32 = Shrinks-decode_narrow 5 0xFFFFFFFF

pub Shrinks-decode_z16 : Shrinks decode_z16
unfolding decode_z16
Shrinks-decode_z16 = Shrinks-decode_narrow 3 0xFFFF

pub Shrinks-decode_z8 : Shrinks decode_z8
unfolding decode_z8
Shrinks-decode_z8 = Shrinks-decode_narrow 2 0xFF

pub Shrinks-decode_bytes_z8 : Shrinks decode_bytes_z8
unfolding decode_bytes_z8
Shrinks-decode_bytes_z8 = Shrinks->>= _ Shrinks-decode_z8 Shrinks-read_n

pub Shrinks-decode_bytes_z16 : Shrinks decode_bytes_z16
unfolding decode_bytes_z16
Shrinks-decode_bytes_z16 = Shrinks->>= _ Shrinks-decode_z16 Shrinks-read_n

pub Shrinks-decode_bytes_z32 : Shrinks decode_bytes_z32
unfolding decode_bytes_z32
Shrinks-decode_bytes_z32 = Shrinks->>= _ Shrinks-decode_z32 Shrinks-read_n

pub Shrinks-read_u16_le : Shrinks read_u16_le
unfolding read_u16_le
Shrinks-read_u16_le = Shrinks->>= _ (Shrinks-read_n 2) λ b. Shrinks-pure _
