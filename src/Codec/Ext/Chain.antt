-- ===== src/Codec/Ext/Chain.antt =====
-- ext.go: extension chains. The decoder loop ends, and reads back what the encoder wrote.
use zenoh_go_client.Prelude.{
  ℕ, zero, suc, ◌≤◌, ◌<◌, ◌≡◌, ◌≢◌, refl, sym, ap, ◌∙◌, Bool, true, false, List, [], ◌∷◌, ◌++◌,
  append_assoc, length, length-append, All, arith, inl, inr, if◌then◌else◌, ◌==◌,
}
use zenoh_go_client.Codec.Types.{
  Bytes, Error, unexpected_eof, ok, err, ◌>>=◌, and_then, pure, fail, written, ◌>>◌, and_write,
  skip, when, optional,
}
use zenoh_go_client.Codec.Buffer.{read_byte}
use zenoh_go_client.Codec.Carries.{Carries, Carries-optional}
use zenoh_go_client.Codec.Shrinks.{
  Shrinks, Shrinks-pure, Shrinks-fail, Shrinks-if, Shrinks->>=, >>=-read_byte-shorter, Result-cases,
  Shrinks-decode_z64, Shrinks-decode_bytes_z32, Shrinks-read_byte,
}
use zenoh_go_client.Codec.Ext.{
  Extension, ExtHeader, decode_ext_body, decode_extension, decode_exts_loop, decode_extensions,
  encode_extension, encode_extensions, set_more, with_more, non_empty, unpack_ext_header,
}
use zenoh_go_client.Codec.Ext.HeaderByte.{IsExt, encode_extension-Carries}

Shrinks-decode_ext_body : (h : ExtHeader) → Shrinks (decode_ext_body h)
unfolding decode_ext_body
Shrinks-decode_ext_body h = Shrinks-if (h.encoding == 0) (Shrinks-pure _) (
    Shrinks-if (h.encoding == 1) (Shrinks->>= _ Shrinks-decode_z64 λ v. Shrinks-pure _) (
      Shrinks-if (h.encoding == 2) (Shrinks->>= _ Shrinks-decode_bytes_z32 λ b. Shrinks-pure _)
        (Shrinks-fail _)))

-- An extension takes a byte at least.
pub decode_extension-shorter :
    (r : Bytes) (e : Extension) (rest : Bytes)
    → decode_extension r ≡ ok (e, rest)
    → length rest < length r
unfolding decode_extension
decode_extension-shorter r e rest h =
    >>=-read_byte-shorter _ (λ b. Shrinks-decode_ext_body (unpack_ext_header b)) r e rest h

Shrinks-decode_extension : Shrinks decode_extension
unfolding decode_extension
Shrinks-decode_extension =
    Shrinks->>= _ Shrinks-read_byte (λ b. Shrinks-decode_ext_body (unpack_ext_header b))

if-apply {ℓ κ} :
    {A : Type ℓ} {B : Type κ} (b : Bool) (f g : A → B) (a : A)
    → (if b then f else g) a ≡ (if b then f a else g a)
if-apply true f g a = refl
if-apply false f g a = refl

-- One round of the loop, by the extension that it reads.
loop_round :
    (f : ℕ) (exts : List Extension) (r : Bytes) (e : Extension) (mid : Bytes)
    → decode_extension r ≡ ok (e, mid)
    → decode_exts_loop (suc f) exts r ≡ (
        if e.header.more
        then decode_exts_loop f (exts ++ (e ∷ [])) mid
        else ok (exts ++ (e ∷ []), mid))
unfolding decode_exts_loop ◌>>=◌ pure and_then
loop_round f exts r e mid h =
    rw h
      (if-apply e.header.more (decode_exts_loop f (exts ++ (e ∷ []))) (pure (exts ++ (e ∷ []))) mid)

loop_stops :
    (f : ℕ) (exts : List Extension) (r : Bytes) (x : Error)
    → decode_extension r ≡ err x
    → decode_exts_loop (suc f) exts r ≡ err x
unfolding decode_exts_loop ◌>>=◌ and_then
loop_stops f exts r x h = rw h

decode_extension-nil : decode_extension [] ≡ err unexpected_eof
unfolding decode_extension read_byte ◌>>=◌ and_then
decode_extension-nil = refl

-- The loop of `DecodeExtensions` gives the same result on any two amounts of fuel that are not
-- below the number of unread bytes.
pub decode_exts_loop-fuel :
    (f g : ℕ) (exts : List Extension) (r : Bytes)
    → length r ≤ f
    → length r ≤ g
    → decode_exts_loop f exts r ≡ decode_exts_loop g exts r
decode_exts_loop-fuel zero zero exts r hf hg = refl
decode_exts_loop-fuel zero (suc g) exts [] hf hg =
    unfold decode_exts_loop fail in sym (loop_stops g exts [] _ decode_extension-nil)
decode_exts_loop-fuel (suc f) zero exts [] hf hg =
    unfold decode_exts_loop fail in loop_stops f exts [] _ decode_extension-nil
decode_exts_loop-fuel zero (suc g) exts (b ∷ r) hf hg = absurd (omega arith)
decode_exts_loop-fuel (suc f) zero exts (b ∷ r) hf hg = absurd (omega arith)
decode_exts_loop-fuel (suc f) (suc g) exts r hf hg = elim (Result-cases (decode_extension r)) [
  | inl (e, mid, h) ↦
      let short = decode_extension-shorter r e mid h in
      let next = decode_exts_loop-fuel f g (exts ++ (e ∷ [])) mid (omega arith) (omega arith) in
      loop_round f exts r e mid h
      ∙ ap (λ t. if e.header.more then t else ok (exts ++ (e ∷ []), mid)) next
      ∙ sym (loop_round g exts r e mid h)
  | inr (x, h) ↦ loop_stops f exts r x h ∙ sym (loop_stops g exts r x h)
]

IsExt-with_more : (more : Bool) (e : Extension) → IsExt e → IsExt (with_more more e)
IsExt-with_more more e v = record {
  id_fits = v.id_fits;
  encoding_known = v.encoding_known;
  z64_fits = v.z64_fits;
  z64_only = v.z64_only;
  zbuf_fits = v.zbuf_fits;
  zbuf_only = v.zbuf_only;
}

-- What a chain of at least one extension writes, and that the loop reads it.
record Chained (exts : List Extension) : Type 0 where
  bytes : Bytes
  writes : (w : Bytes) → encode_extensions exts w ≡ written (w ++ bytes)
  reads :
      (f : ℕ) (seen : List Extension) (rest : Bytes)
      → length exts ≤ f
      → decode_exts_loop f seen (bytes ++ rest) ≡ ok (seen ++ set_more exts, rest)
  long : length exts ≤ length bytes

-- An extension with a given `More` flag, as the chain writes it.
abbrev Link : Bool → Extension → Type 0
Link more e = Carries (encode_extension (with_more more e)) decode_extension (with_more more e)

head_long : (more : Bool) (e : Extension) (c : Link more e) → 1 ≤ length c.bytes
head_long more e c = omega (
  arith,
  decode_extension-shorter (c.bytes ++ []) (with_more more e) [] (c.reads []),
  length-append c.bytes [],
)

chain_last : (e : Extension) (c : Link false e) → Chained (e ∷ [])
unfolding encode_extensions set_more
chain_last e c = record {
  bytes = c.bytes;
  writes = λ w. unfold ◌>>◌ and_write skip in rw (c.writes w);
  reads = λ f seen rest h. last f seen rest h;
  long = head_long false e c;
}
  where
    last :
        (f : ℕ) (seen : List Extension) (rest : Bytes)
        → 1 ≤ f
        → decode_exts_loop f seen (c.bytes ++ rest) ≡ ok (seen ++ (with_more false e ∷ []), rest)
    last zero seen rest h = absurd (omega arith)
    last (suc f) seen rest h =
        loop_round f seen (c.bytes ++ rest) (with_more false e) rest (c.reads rest)

chain_next :
    (e e' : Extension) (exts : List Extension)
    → Link true e
    → Chained (e' ∷ exts)
    → Chained (e ∷ e' ∷ exts)
unfolding encode_extensions set_more
chain_next e e' exts c tail = record {
  bytes = c.bytes ++ tail.bytes;
  writes = λ w.
      unfold ◌>>◌ and_write in
      rw (c.writes w) (tail.writes (w ++ c.bytes) ∙ ap written (append_assoc w c.bytes tail.bytes));
  reads = λ f seen rest h. next f seen rest h;
  long = omega (arith, head_long true e c, tail.long, length-append c.bytes tail.bytes);
}
  where
    next :
        (f : ℕ) (seen : List Extension) (rest : Bytes)
        → length (e ∷ e' ∷ exts) ≤ f
        → decode_exts_loop f seen ((c.bytes ++ tail.bytes) ++ rest)
          ≡ ok (seen ++ set_more (e ∷ e' ∷ exts), rest)
    next zero seen rest h = absurd (omega arith)
    next (suc f) seen rest h =
        ap (decode_exts_loop (suc f) seen) (append_assoc c.bytes tail.bytes rest)
        ∙ loop_round f seen (c.bytes ++ (tail.bytes ++ rest)) (with_more true e)
            (tail.bytes ++ rest) (c.reads (tail.bytes ++ rest))
        ∙ tail.reads f (seen ++ (with_more true e ∷ [])) rest (omega arith)
        ∙ ap (λ t. ok (t, rest)) (append_assoc seen (with_more true e ∷ []) (set_more (e' ∷ exts)))

chain : (e : Extension) (exts : List Extension) → IsExt e → All IsExt exts → Chained (e ∷ exts)
chain e [] v hs =
    chain_last e (encode_extension-Carries (with_more false e) (IsExt-with_more false e v))
chain e (e' ∷ exts) v (v', hs) =
    chain_next e e' exts (encode_extension-Carries (with_more true e) (IsExt-with_more true e v))
      (chain e' exts v' hs)

-- A chain of some extensions that the wire can hold is read back by `DecodeExtensions`, with `More`
-- set on every element but the last, and nothing behind the chain is read.
pub encode_extensions-Carries :
    (exts : List Extension)
    → All IsExt exts
    → exts ≢ []
    → Carries (encode_extensions exts) decode_extensions (set_more exts)
unfolding decode_extensions
encode_extensions-Carries [] hs some_ext = absurd (some_ext refl)
encode_extensions-Carries (e ∷ exts) (v, hs) some_ext =
    let c = chain e exts v hs in
    record {
      bytes = c.bytes;
      writes = c.writes;
      reads = λ rest.
          c.reads (length (c.bytes ++ rest)) [] rest
            (omega (arith, c.long, length-append c.bytes rest));
    }

-- The extension field of a message: behind the `Z` flag, which is set where there are any.
pub extensions-Carries :
    (exts : List Extension)
    → All IsExt exts
    → Carries
        (when (non_empty exts) (encode_extensions exts))
        (optional (non_empty exts) [] decode_extensions)
        (set_more exts)
extensions-Carries [] hs = Carries-optional false (λ on. cc) (λ off. unfold set_more in refl)
extensions-Carries (e ∷ exts) hs =
    Carries-optional true (λ on. encode_extensions-Carries (e ∷ exts) hs (λ h. cc)) (λ off. cc)

loop-Shrinks : (f : ℕ) (seen : List Extension) → Shrinks (decode_exts_loop f seen)
unfolding decode_exts_loop
loop-Shrinks zero seen = Shrinks-fail _
loop-Shrinks (suc f) seen =
    Shrinks->>= _ Shrinks-decode_extension
      λ e. Shrinks-if e.header.more (loop-Shrinks f (seen ++ (e ∷ []))) (Shrinks-pure _)

pub Shrinks-decode_extensions : Shrinks decode_extensions
unfolding decode_extensions
Shrinks-decode_extensions = record {
  shorter = λ r v rest h. (loop-Shrinks (length r) []).shorter r v rest h;
}
