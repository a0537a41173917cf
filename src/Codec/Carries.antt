-- ===== src/Codec/Carries.antt =====
-- What an encoder and its decoder promise of each other, and how the promise composes.
use zenoh_go_client.Prelude.{
  ◌≡◌, refl, Bool, true, false, [], ◌++◌, append_assoc, append-nil, if◌then◌else◌,
}
use zenoh_go_client.Codec.Buffer.{append_bytes, read_rest}
use zenoh_go_client.Codec.Types.{
  Bytes, Error, ok, Parser, ◌>>=◌, pure, written, Encoder, ◌>>◌, refuse, skip, when, optional,
}

-- Behind whatever is in the writer the encoder appends some bytes, and before whatever follows
-- them the decoder reads the value off those bytes and no further.
pub record Carries {ℓ} {A : Type ℓ} (e : Encoder) (p : Parser A) (v : A) : Type ℓ where
  pub bytes : Bytes
  pub writes : (w : Bytes) → e w ≡ written (w ++ bytes)
  pub reads : (rest : Bytes) → p (bytes ++ rest) ≡ ok (v, rest)

pub Carries-skip {ℓ} : {A : Type ℓ} (v : A) → Carries skip (pure v) v
unfolding skip pure
Carries-skip v = record { bytes = []; writes = λ w. rw append-nil; reads = λ rest. refl }

module _ {ℓ κ} {A : Type ℓ} {B : Type κ} where
  pub Carries->> :
      {d e : Encoder} {p : Parser A} (f : A → Parser B) {a : A} {b : B}
      → Carries d p a
      → Carries e (f a) b
      → Carries (d >> e) (p >>= f) b
  unfolding ◌>>◌ ◌>>=◌
  Carries->> f c d = record {
    bytes = c.bytes ++ d.bytes;
    writes = λ w. rw (c.writes w, d.writes (w ++ c.bytes), append_assoc);
    reads = λ rest. rw (append_assoc, c.reads (d.bytes ++ rest)) (d.reads rest);
  }

  -- The last field of a message, wrapped by the message's constructor.
  pub Carries-last :
      {e : Encoder} {p : Parser A} (g : A → B) {a : A}
      → Carries e p a
      → Carries e (p >>= λ x. pure (g x)) (g a)
  unfolding ◌>>=◌ pure
  Carries-last g c = record {
    bytes = c.bytes;
    writes = c.writes;
    reads = λ rest. rw (c.reads rest);
  }

module _ {ℓ} {A : Type ℓ} where
  -- A field under a flag: where the flag is off, the value is the absent one.
  pub Carries-optional :
      (b : Bool) {absent v : A} {e : Encoder} {p : Parser A}
      → (b ≡ true → Carries e p v)
      → (b ≡ false → absent ≡ v)
      → Carries (when b e) (optional b absent p) v
  unfolding when optional
  Carries-optional true on off = on refl
  Carries-optional false on off = record {
    bytes = [];
    writes = λ w. rw append-nil;
    reads = λ rest. rw (off refl);
  }

  -- A guard that lets the value through.
  pub Carries-guard :
      (b : Bool) (x : Error) {v : A} {e : Encoder} {p : Parser A}
      → b ≡ false
      → Carries e p v
      → Carries (if b then refuse x else e) p v
  Carries-guard true x off c = cc
  Carries-guard false x off c = c

-- An encoder that puts `body` behind what its decoder reads: the decoder leaves the body in the
-- reader, with whatever follows.
pub record Leaves {ℓ} {A : Type ℓ} (body : Bytes) (e : Encoder) (p : Parser A) (v : A)
    : Type ℓ where
  pub bytes : Bytes
  pub writes : (w : Bytes) → e w ≡ written (w ++ (bytes ++ body))
  pub reads : (rest : Bytes) → p (bytes ++ (body ++ rest)) ≡ ok (v, body ++ rest)

-- An encoder whose last field has no length: the decoder takes all that is left for it.
pub record Fills {ℓ} {A : Type ℓ} (e : Encoder) (p : Parser A) (v : A) : Type ℓ where
  pub bytes : Bytes
  pub writes : (w : Bytes) → e w ≡ written (w ++ bytes)
  pub reads : p bytes ≡ ok (v, [])

pub Leaves-body {ℓ} :
    {A : Type ℓ} (body : Bytes) (v : A) → Leaves body (append_bytes body) (pure v) v
unfolding append_bytes pure
Leaves-body body v = record { bytes = []; writes = λ w. refl; reads = λ rest. refl }

module _ {ℓ κ} {A : Type ℓ} {B : Type κ} where
  pub Leaves->> :
      (body : Bytes) {d e : Encoder} {p : Parser A} (f : A → Parser B) {a : A} {b : B}
      → Carries d p a
      → Leaves body e (f a) b
      → Leaves body (d >> e) (p >>= f) b
  unfolding ◌>>◌ ◌>>=◌
  Leaves->> body f c d = record {
    bytes = c.bytes ++ d.bytes;
    writes = λ w. rw (c.writes w, d.writes (w ++ c.bytes), append_assoc, append_assoc);
    reads = λ rest. rw (append_assoc, c.reads (d.bytes ++ (body ++ rest))) (d.reads rest);
  }

  pub Fills->> :
      {d e : Encoder} {p : Parser A} (f : A → Parser B) {a : A} {b : B}
      → Carries d p a
      → Fills e (f a) b
      → Fills (d >> e) (p >>= f) b
  unfolding ◌>>◌ ◌>>=◌
  Fills->> f c d = record {
    bytes = c.bytes ++ d.bytes;
    writes = λ w. rw (c.writes w, d.writes (w ++ c.bytes), append_assoc);
    reads = rw (c.reads d.bytes) d.reads;
  }

module _ {ℓ} {A : Type ℓ} where
  pub Fills-body :
      (g : Bytes → A) (b : Bytes) → Fills (append_bytes b) (read_rest >>= λ r. pure (g r)) (g b)
  unfolding append_bytes read_rest ◌>>=◌ pure
  Fills-body g b = record { bytes = b; writes = λ w. refl; reads = refl }

  -- A last field that is absent.
  pub Fills-nothing : (g : Bytes → A) (b : Bytes) → Fills skip (pure b >>= λ r. pure (g r)) (g b)
  unfolding skip ◌>>=◌ pure
  Fills-nothing g b = record { bytes = []; writes = λ w. rw append-nil; reads = refl }
