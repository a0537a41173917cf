-- ===== src/Session/Handshake/Messages.antt =====
-- handshake.go: what one side writes is what the other receives.
use zenoh_go_client.Prelude.{
  ℕ, ◌^◌, ◌<◌, ◌≡◌, refl, sym, ap, ◌∙◌, subst, Bool, true, false, not, [], ◌++◌, append-nil, All,
  ◌==◌, Bool-cases, inl, inr, arith,
}
use native.Mathlib.Nat.{div-add-mod}
use zenoh_go_client.Prelude.Bits.{and_mask}
use zenoh_go_client.Codec.Types.{
  Bytes, Error, ok, err, Parser, ◌>>=◌, and_then, Encoder, fail, unexpected_id,
}
use zenoh_go_client.Codec.Carries.{Carries}
use zenoh_go_client.Codec.Shrinks.{Result-cases}
use zenoh_go_client.Codec.Header.{Header, decode_header}
use zenoh_go_client.Codec.Ext.{set_more}
use zenoh_go_client.Codec.Ext.HeaderByte.{IsExt}
use zenoh_go_client.Wire.Ids.{id_transport_init, id_transport_open}
use zenoh_go_client.Wire.Resolution.{frame_sn, request_id, min_resolution, min_resolution_lem}
use zenoh_go_client.Wire.Frame.{after_header}
use zenoh_go_client.Wire.Session.{Init, encode_init, decode_init, Open, encode_open, decode_open}
use zenoh_go_client.Wire.Session.RoundTrip.{
  IsIdentity, IsSizeInfo, IsCookie, encode_init-Carries, encode_open-Carries,
}
use zenoh_go_client.Session.Handshake.{
  Side, send, compute_initial_sn, has_qos_ext, qos_exts, write_transport, message,
  read_handshake_ack,
}
use zenoh_go_client.Session.Handshake.Sides.{raises}

-- A decoder that takes only the messages of its ID.
abbrev pub Checks : {A : Type 0} → ℕ → (Header → Parser A) → Type 0
Checks want decode =
    (h : Header) (r : Bytes) → (h.id == want) ≡ false → (x : Error) × (decode h r ≡ err x)

pub decode_init-Checks : Checks id_transport_init decode_init
unfolding decode_init fail
decode_init-Checks h r differ = (unexpected_id h.id, rw (differ) refl)

pub decode_open-Checks : Checks id_transport_open decode_open
unfolding decode_open fail
decode_open-Checks h r differ = (unexpected_id h.id, rw (differ) refl)

-- What an encoder wrote is received, behind the look at the ID.
pub received :
    {A : Type 0} (want : ℕ) (decode : Header → Parser A) (m : A) {e : Encoder}
    (c : Carries e (after_header decode) m)
    → (want == 3) ≡ false
    → Checks want decode
    → read_handshake_ack want decode c.bytes ≡ message m
unfolding read_handshake_ack ◌>>=◌ and_then
received {A = A} want decode m c other checks =
    let all : and_then (decode_header c.bytes) decode ≡ ok (m, []) =
      ap (λ (b : Bytes). and_then (decode_header b) decode) (sym (append-nil c.bytes))
      ∙ c.reads [] in
    elim (Result-cases (decode_header c.bytes)) [
      | inl (h, r, e) ↦
          let body : decode h r ≡ ok (m, []) = ap (λ x. and_then x decode) (sym e) ∙ all in
          elim (Bool-cases (h.id == want)) [
            | inl same ↦
                let differ : (h.id == 3) ≡ false = ground arith in rw (e, differ, same, body) refl
            | inr wrong ↦ let (x, bad) = checks h r wrong in absurd (ok≢err (sym body ∙ bad))
          ]
      | inr (x, e) ↦ absurd (ok≢err (sym all ∙ ap (λ y. and_then y decode) e))
    ]
  where
    ok≢err : {x : Error} {v : A × Bytes} → ok v ≡ err x → ⊥
    ok≢err h = cc

pub write_transport-Carries :
    {A B : Type 0} {e : Encoder} {p : Parser A} {v : A} (c : Carries e p v) (k : Side B)
    → write_transport e k ≡ send c.bytes k
unfolding write_transport
write_transport-Carries c k = rw (c.writes []) refl

qos_exts-IsExt : (b : Bool) → All IsExt (qos_exts b)
qos_exts-IsExt true = (
  record {
    id_fits = omega arith;
    encoding_known = omega arith;
    z64_fits = omega arith;
    z64_only = λ h. refl;
    zbuf_fits = omega arith;
    zbuf_only = λ h. refl;
  },
  tt,
)
qos_exts-IsExt false = tt

set_more-qos_exts : (b : Bool) → set_more (qos_exts b) ≡ qos_exts b
unfolding set_more
set_more-qos_exts true = refl
set_more-qos_exts false = refl

pub has_qos_ext-qos_exts : (b : Bool) → has_qos_ext (qos_exts b) ≡ b
unfolding has_qos_ext
has_qos_ext-qos_exts true = refl
has_qos_ext-qos_exts false = refl

-- An INIT and an OPEN of the handshake on the wire.
pub init-Carries :
    (m : Init) (b : Bool)
    → m.extensions ≡ qos_exts b
    → IsIdentity m.zid m.what_am_i
    → IsSizeInfo m.has_size_info m.resolution m.batch_size
    → IsCookie m.ack m.cookie
    → Carries (encode_init m) (after_header decode_init) m
init-Carries m b e who size cookie =
    subst (Carries (encode_init m) (after_header decode_init)) (rw (e, set_more-qos_exts b) refl)
      (encode_init-Carries m who size cookie (rw (e) (qos_exts-IsExt b)))

pub open-Carries :
    (m : Open) (b : Bool)
    → m.extensions ≡ qos_exts b
    → m.lease < 2 ^ 64
    → m.initial_sn < 2 ^ 64
    → IsCookie (not m.ack) m.cookie
    → Carries (encode_open m) (after_header decode_open) m
open-Carries m b e lease sn cookie =
    subst (Carries (encode_open m) (after_header decode_open)) (rw (e, set_more-qos_exts b) refl)
      (encode_open-Carries m lease sn cookie (rw (e) (qos_exts-IsExt b)))

pub compute_initial_sn-fits :
    (shake : Bytes → ℕ) (mine theirs : Bytes) (width : ℕ)
    → ((b : Bytes) → shake b < 2 ^ 64)
    → compute_initial_sn shake mine theirs width < 2 ^ 64
unfolding compute_initial_sn
compute_initial_sn-fits shake mine theirs width h =
    let sn = shake (mine ++ theirs) in
    ground (arith, h (mine ++ theirs), and_mask width sn, div-add-mod sn (2 ^ width))

pub raises-min_resolution : (own theirs : ℕ) → raises theirs (min_resolution own theirs) ≡ false
unfolding raises
raises-min_resolution own theirs = ground (
  arith,
  (min_resolution_lem own theirs frame_sn).0,
  (min_resolution_lem own theirs request_id).0,
)
