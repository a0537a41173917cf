-- ===== src/Codec/Within.antt =====
-- How many bytes an encoder appends at most, and how the bounds compose.
use zenoh_go_client.Prelude.{
  ℕ, zero, suc, ◌+◌, ◌/◌, ◌%◌, bit_or, ◌≤◌, ◌<◌, ◌≡◌, refl, ap, ◌∙◌, Bool, true, false, [], ◌∷◌,
  ◌++◌, length, length-append, arith,
}
use zenoh_go_client.Codec.Types.{Bytes, written, Encoder, and_write, ◌>>◌, skip, when}
use zenoh_go_client.Codec.Buffer.{append_byte, append_bytes}
use zenoh_go_client.Codec.Vle.{encode_loop, encode_z64}
use zenoh_go_client.Codec.Vle.RoundTrip.{encode_loop-groups, groups_small}
use zenoh_go_client.Codec.Header.{Header, encode_header}

-- The encoder succeeds and appends at most `n` bytes.
pub record Within (n : ℕ) (e : Encoder) : Type 0 where
  pub runs : (w : Bytes) → (out : Bytes) × (e w ≡ written out) × (length out ≤ length w + n)

pub Within->> : {m n : ℕ} {d e : Encoder} → Within m d → Within n e → Within (m + n) (d >> e)
unfolding ◌>>◌ and_write
Within->> hd he = record {
  runs = λ w.
      let (mid, wd, ld) = hd.runs w in
      let (out, we, le) = he.runs mid in (out, (rw wd we), omega arith);
}

pub Within-le : {m n : ℕ} {e : Encoder} → m ≤ n → Within m e → Within n e
Within-le h he = record { runs = λ w. let (out, we, le) = he.runs w in (out, we, omega arith) }

pub Within-skip : Within 0 skip
unfolding skip
Within-skip = record { runs = λ w. (w, refl, omega arith) }

pub Within-append_byte : (b : ℕ) → Within 1 (append_byte b)
unfolding append_byte
Within-append_byte b = record {
  runs = λ w. (w ++ (b ∷ []), refl, omega (arith, length-append w (b ∷ [])));
}

pub Within-append_bytes : (b : Bytes) → Within (length b) (append_bytes b)
unfolding append_bytes
Within-append_bytes b = record { runs = λ w. (w ++ b, refl, omega (arith, length-append w b)) }

pub Within-encode_header : (h : Header) → Within 1 (encode_header h)
unfolding encode_header
Within-encode_header h = Within-append_byte _

pub Within-when : (n : ℕ) (b : Bool) (e : Encoder) → Within n e → Within n (when b e)
unfolding when
Within-when n true e h = h
Within-when n false e h = Within-le (omega arith) Within-skip

encode_loop-le : (k v : ℕ) (w : Bytes) → length (encode_loop k v w) ≤ length w + k + 1
unfolding encode_loop
encode_loop-le zero v w = omega (arith, length-append w ((v % 256) ∷ []))
encode_loop-le (suc k) v w =
    let continued = w ++ (bit_or (v % 256) 0x80 ∷ []) in
    ground (
      arith,
      length-append w ((v % 256) ∷ []),
      length-append w (bit_or (v % 256) 0x80 ∷ []),
      encode_loop-le k (v / 128) continued,
    )

pub Within-encode_z64 : (v : ℕ) → Within 9 (encode_z64 v)
unfolding encode_z64
Within-encode_z64 v = record {
  runs = λ w. (encode_loop 8 v w, refl, omega (arith, encode_loop-le 8 v w));
}

pub Within-small : (v : ℕ) → v < 128 → Within 1 (encode_z64 v)
unfolding encode_z64
Within-small v h = record {
  runs = λ w. (
    w ++ (v ∷ []),
    ap written (encode_loop-groups 8 v w ∙ ap (◌++◌ w) (groups_small 7 v h)),
    omega (arith, length-append w (v ∷ [])),
  );
}
