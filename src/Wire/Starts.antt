-- ===== src/Wire/Starts.antt =====
-- internal/wire: a message on the wire starts with the header of its ID.
use zenoh_go_client.Prelude.{
  ℕ, ◌≡◌, refl, sym, ◌∙◌, false, [], ◌∷◌, ◌++◌, ◌==◌, Bool-cases, inl, inr, arith, bit_and,
}
use zenoh_go_client.Codec.Types.{Bytes, Error, ok, err, Parser, Encoder, ◌>>=◌, and_then, pure}
use zenoh_go_client.Codec.Carries.{Carries}
use zenoh_go_client.Codec.Buffer.{read_byte}
use zenoh_go_client.Codec.Header.{Header, hdr_id_mask, decode_header, unpack_header}
use zenoh_go_client.Wire.Frame.{after_header}

-- How a message starts: with the header of its ID.
pub record Starts {A : Type 0} (id : ℕ) (decode : Header → Parser A) (bytes : Bytes) (m : A)
    : Type 0 where
  pub head : ℕ
  pub tail : Bytes
  pub split : bytes ≡ head ∷ tail
  pub head_id : bit_and head hdr_id_mask ≡ id
  pub decodes : (rest : Bytes) → decode (unpack_header head) (tail ++ rest) ≡ ok (m, rest)

pub ok≢err : {A : Type 0} {x : Error} {v : A} → ok v ≡ err x → ⊥
ok≢err h = cc

-- A decoder that takes only the messages of its ID.
abbrev pub Checks : {A : Type 0} → ℕ → (Header → Parser A) → Type 0
Checks want decode =
    (h : Header) (r : Bytes) → (h.id == want) ≡ false → (x : Error) × (decode h r ≡ err x)

pub starts :
    {A : Type 0} (id : ℕ) (decode : Header → Parser A) (m : A) {e : Encoder}
    (c : Carries e (after_header decode) m)
    → Checks id decode
    → Starts id decode c.bytes m
unfolding ◌>>=◌ and_then decode_header read_byte pure
starts {A = A} id decode m c checks = go c.bytes c.reads
  where
    go :
        (b : Bytes)
        → ((rest : Bytes) → after_header decode (b ++ rest) ≡ ok (m, rest))
        → Starts id decode b m
    go [] reads = absurd (ok≢err (sym (reads [])))
    go (b ∷ r) reads = elim (Bool-cases ((unpack_header b).id == id)) [
      | inl e ↦ record {
        head = b;
        tail = r;
        split = refl;
        head_id = unfold unpack_header in ground arith;
        decodes = reads;
      }
      | inr e ↦
          let (x, bad) = checks (unpack_header b) (r ++ []) e in
          absurd (ok≢err (sym (reads []) ∙ bad))
    ]
