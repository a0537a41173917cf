-- ===== src/Wire/Declare/RoundTrip.antt =====
-- declare.go: every DECLARE that the wire can hold is read back.
use zenoh_go_client.Prelude.{
  ◌^◌, ◌≤◌, ◌<◌, ◌+◌, ◌≡◌, ◌⊎◌, inl, inr, refl, sym, Bool, true, false, List, [], ◌∷◌, length, All,
  some, arith,
}
use zenoh_go_client.Codec.Types.{Bytes, ok, ◌>>=◌, pure, ◌>>◌, optional, when, skip}
use zenoh_go_client.Codec.Carries.{
  Carries, Carries->>, Carries-last, Carries-optional, Fills, Fills->>, Fills-body, Fills-nothing,
}
use zenoh_go_client.Codec.Within.{
  Within, Within->>, Within-append_byte, Within-append_bytes, Within-when, Within-encode_z64,
}
use zenoh_go_client.Codec.Buffer.{read_rest, append_bytes}
use zenoh_go_client.Codec.Vle.{encode_z32, encode_z16}
use zenoh_go_client.Codec.Vle.RoundTrip.{encode_z32-Carries, encode_z16-Carries}
use zenoh_go_client.Codec.Primitives.{valid_utf8}
use zenoh_go_client.Codec.Primitives.Laws.{append_byte-Carries}
use zenoh_go_client.Codec.Header.{Header, or_if, has_bit}
use zenoh_go_client.Codec.Header.Laws.{encode_header-Carries}
use zenoh_go_client.Codec.Ext.{Extension, encode_extensions, set_more, non_empty}
use zenoh_go_client.Codec.Ext.HeaderByte.{IsExt}
use zenoh_go_client.Codec.Ext.Chain.{extensions-Carries, encode_extensions-Carries}
use zenoh_go_client.Wire.Frame.{after_header}
use zenoh_go_client.Wire.Fields.{bytes_of, Carries-lift}
use zenoh_go_client.Wire.Values.{
  WireExpr, named, some_bytes, IsWireExpr, encode_scope, encode_scope-Carries, suffix-Carries,
}
use zenoh_go_client.Wire.Data.{encode_with_body}
use zenoh_go_client.Wire.Declare.{
  DeclareKeyExpr, UndeclareKeyExpr, DeclareEntity, UndeclareEntity, DeclareBody, Declare, key_expr,
  undeclare_key_expr, entity, undeclare_entity, final, encode_declare_key_expr,
  decode_declare_key_expr, encode_undeclare_key_expr, decode_undeclare_key_expr,
  encode_declare_entity, decode_declare_entity, encode_undeclare_entity, decode_undeclare_entity,
  encode_declare_final, decode_declare_final, encode_declare_body, decode_declare_sub,
  decode_declare_body, encode_declare, decode_declare, encode_wire_expr_body, read_wire_expr_body,
  decode_wire_expr_extension_body, encode_wire_expr_extension, is_wire_expr_ext, sort_exts,
  no_wire_expr,
}

-- The suffix of the extension's body, behind the flags that it sets: it goes to the end.
body_suffix-Fills :
    (ke : WireExpr) (mapping : Bool) (suffix : Bytes)
    → let flags = or_if mapping 2 (or_if (some_bytes suffix) 1 0) in
      Fills {A = WireExpr}
        (when (some_bytes suffix) (append_bytes suffix))
        (optional (has_bit flags 1) [] read_rest >>= λ s.
          pure (record { scope = ke.scope; suffix = s; mapping = has_bit flags 2 }))
        (record { scope = ke.scope; suffix = suffix; mapping = mapping })
unfolding when optional skip
body_suffix-Fills ke true [] = Fills-nothing _ []
body_suffix-Fills ke false [] = Fills-nothing _ []
body_suffix-Fills ke true (b ∷ s) = Fills-body _ (b ∷ s)
body_suffix-Fills ke false (b ∷ s) = Fills-body _ (b ∷ s)

-- The extension's body is read to its end: the suffix has no length of its own.
pub encode_wire_expr_body-Fills :
    (ke : WireExpr) → ke.scope < 2 ^ 16 → Fills (encode_wire_expr_body ke) read_wire_expr_body ke
unfolding encode_wire_expr_body read_wire_expr_body
encode_wire_expr_body-Fills ke h =
    Fills->> _ (append_byte-Carries _)
      (Fills->> _ (encode_z16-Carries ke.scope h) (body_suffix-Fills ke ke.mapping ke.suffix))

encode_wire_expr_body-Within :
    (ke : WireExpr) → Within (1 + (9 + length ke.suffix)) (encode_wire_expr_body ke)
unfolding encode_wire_expr_body encode_z16
encode_wire_expr_body-Within ke = Within->> (Within-append_byte _) (
    Within->> (Within-encode_z64 ke.scope)
      (Within-when (length ke.suffix) (named ke) _ (Within-append_bytes ke.suffix)))

body_length :
    (ke : WireExpr) → length (bytes_of (encode_wire_expr_body ke [])) ≤ 10 + length ke.suffix
body_length ke =
    let (out, e, le) = (encode_wire_expr_body-Within ke).runs [] in rw e (omega (arith, le))

encode_wire_expr_extension-IsExt :
    (ke : WireExpr) → IsWireExpr ke → IsExt (encode_wire_expr_extension ke)
unfolding encode_wire_expr_extension
encode_wire_expr_extension-IsExt ke v = record {
  id_fits = omega arith;
  encoding_known = omega arith;
  z64_fits = omega arith;
  z64_only = λ h. refl;
  zbuf_fits = let fits = v.suffix_fits in omega (arith, body_length ke);
  zbuf_only = λ h. absurd (h refl);
}

-- A key expression is read back off the extension that carries it.
pub decode_wire_expr_extension_body-encode_wire_expr_extension :
    (ke : WireExpr)
    → ke.scope < 2 ^ 16
    → decode_wire_expr_extension_body (encode_wire_expr_extension ke).zbuf ≡ ok ke
unfolding decode_wire_expr_extension_body encode_wire_expr_extension
decode_wire_expr_extension_body-encode_wire_expr_extension ke h =
    let f = encode_wire_expr_body-Fills ke h in rw (f.writes [], f.reads) refl

-- An extension that does not carry a key expression.
abbrev pub IsOther : Extension → Type 0
IsOther e = is_wire_expr_ext e ≡ false

sort_exts-set_more :
    (ke : WireExpr) (exts : List Extension)
    → All IsOther exts
    → sort_exts ke (set_more exts) ≡ ok (ke, set_more exts)
unfolding sort_exts set_more
sort_exts-set_more ke [] hs = refl
sort_exts-set_more ke (e ∷ exts) (h, hs) = rw (h, sort_exts-set_more ke exts hs) refl

-- What the wire can hold.
pub record IsDeclareKeyExpr (d : DeclareKeyExpr) : Type 0 where
  pub id_fits : d.expr_id < 2 ^ 16
  pub scope_fits : d.scope < 2 ^ 16
  pub suffix_text : valid_utf8 d.suffix ≡ true
  pub suffix_fits : length d.suffix < 2 ^ 16
  pub exts_fit : All IsExt d.extensions

pub record IsUndeclareKeyExpr (d : UndeclareKeyExpr) : Type 0 where
  pub id_fits : d.expr_id < 2 ^ 16
  pub exts_fit : All IsExt d.extensions

-- `D_SUBSCRIBER`, `D_QUERYABLE` and `D_TOKEN`.
pub record IsDeclareEntity (d : DeclareEntity) : Type 0 where
  pub kind_known : (d.kind ≡ 2) ⊎ ((d.kind ≡ 4) ⊎ (d.kind ≡ 6))
  pub id_fits : d.entity_id < 2 ^ 32
  pub key_fits : IsWireExpr d.key_expr
  pub exts_fit : All IsExt d.extensions

-- `U_SUBSCRIBER`, `U_QUERYABLE` and `U_TOKEN`.
pub record IsUndeclareEntity (d : UndeclareEntity) : Type 0 where
  pub kind_known : (d.kind ≡ 3) ⊎ ((d.kind ≡ 5) ⊎ (d.kind ≡ 7))
  pub id_fits : d.entity_id < 2 ^ 32
  pub key_fits : IsWireExpr d.wire_expr
  pub exts_fit : All IsExt d.extensions
  pub exts_other : All IsOther d.extensions

abbrev pub IsDeclareBody : DeclareBody → Type 0
IsDeclareBody (key_expr d) = IsDeclareKeyExpr d
IsDeclareBody (undeclare_key_expr d) = IsUndeclareKeyExpr d
IsDeclareBody (entity d) = IsDeclareEntity d
IsDeclareBody (undeclare_entity d) = IsUndeclareEntity d
IsDeclareBody (final d) = All IsExt d.extensions

-- A sub-message as it arrives: the encoder has set the `More` flags.
abbrev pub arrived_declare : DeclareBody → DeclareBody
arrived_declare (key_expr d) = key_expr (record d { extensions = set_more d.extensions })
arrived_declare (undeclare_key_expr d) =
    undeclare_key_expr (record d { extensions = set_more d.extensions })
arrived_declare (entity d) = entity (record d { extensions = set_more d.extensions })
arrived_declare (undeclare_entity d) =
    undeclare_entity (record d { extensions = set_more d.extensions })
arrived_declare (final d) = final (record d { extensions = set_more d.extensions })

-- Behind the header.
declare_entity-tail :
    (d : DeclareEntity)
    → IsDeclareEntity d
    → Carries
        (encode_z32 d.entity_id
          >> (encode_scope d.key_expr
              >> when (non_empty d.extensions) (encode_extensions d.extensions)))
        (decode_declare_entity
          (record {
            id = d.kind;
            f1 = named d.key_expr;
            f2 = d.key_expr.mapping;
            z = non_empty d.extensions;
          })
          d.kind)
        (record d { extensions = set_more d.extensions })
unfolding decode_declare_entity
declare_entity-tail d v = Carries->> _ (encode_z32-Carries d.entity_id v.id_fits) (
    Carries->> _ (encode_scope-Carries d.key_expr v.key_fits)
      (Carries-last _ (extensions-Carries d.extensions v.exts_fit)))

sub_entity :
    (h : Header)
    → (h.id ≡ 2) ⊎ ((h.id ≡ 4) ⊎ (h.id ≡ 6))
    → decode_declare_sub h ≡ (decode_declare_entity h h.id >>= λ d. pure (entity d))
unfolding decode_declare_sub
sub_entity h (inl e) = rw e refl
sub_entity h (inr (inl e)) = rw e refl
sub_entity h (inr (inr e)) = rw e refl

sub_undeclare :
    (h : Header)
    → (h.id ≡ 3) ⊎ ((h.id ≡ 5) ⊎ (h.id ≡ 7))
    → decode_declare_sub h ≡ (decode_undeclare_entity h h.id >>= λ d. pure (undeclare_entity d))
unfolding decode_declare_sub
sub_undeclare h (inl e) = rw e refl
sub_undeclare h (inr (inl e)) = rw e refl
sub_undeclare h (inr (inr e)) = rw e refl

encode_declare_entity-Carries :
    (d : DeclareEntity)
    → IsDeclareEntity d
    → Carries
        (encode_declare_entity d)
        decode_declare_body
        (entity (record d { extensions = set_more d.extensions }))
unfolding encode_declare_entity decode_declare_body
encode_declare_entity-Carries d v =
    let known = v.kind_known in
    Carries->> _ (encode_header-Carries _ (grind arith)) (
      rw
        (sub_entity
          (record {
            id = d.kind;
            f1 = named d.key_expr;
            f2 = d.key_expr.mapping;
            z = non_empty d.extensions;
          })
          known)
        (Carries-last entity (declare_entity-tail d v)))

-- The extension of the key expression stands first, in front of the message's own.
sort_exts-first :
    (ke : WireExpr) (exts : List Extension)
    → IsWireExpr ke
    → All IsOther exts
    → sort_exts no_wire_expr (set_more (encode_wire_expr_extension ke ∷ exts))
      ≡ ok (ke, set_more exts)
unfolding sort_exts set_more encode_wire_expr_extension
sort_exts-first ke exts k others =
    let found = decode_wire_expr_extension_body-encode_wire_expr_extension ke k.scope_fits in
    rw (found, sort_exts-set_more ke exts others) refl

undeclare_entity-tail :
    (d : UndeclareEntity)
    → IsUndeclareEntity d
    → Carries
        (encode_z32 d.entity_id
          >> encode_extensions (encode_wire_expr_extension d.wire_expr ∷ d.extensions))
        (decode_undeclare_entity (record { id = d.kind; f1 = false; f2 = false; z = true }) d.kind)
        (record d { extensions = set_more d.extensions })
unfolding decode_undeclare_entity optional
undeclare_entity-tail d v =
    let exts = encode_wire_expr_extension d.wire_expr ∷ d.extensions in
    Carries->> _ (encode_z32-Carries d.entity_id v.id_fits) (
      Carries-lift (sort_exts no_wire_expr) _
        (encode_extensions-Carries exts
          (encode_wire_expr_extension-IsExt d.wire_expr v.key_fits, v.exts_fit) (λ h. cc))
        (sort_exts-first d.wire_expr d.extensions v.key_fits v.exts_other))

encode_undeclare_entity-Carries :
    (d : UndeclareEntity)
    → IsUndeclareEntity d
    → Carries
        (encode_undeclare_entity d)
        decode_declare_body
        (undeclare_entity (record d { extensions = set_more d.extensions }))
unfolding encode_undeclare_entity decode_declare_body encode_extensions
encode_undeclare_entity-Carries d v =
    let known = v.kind_known in
    let h : Header = record { id = d.kind; f1 = false; f2 = false; z = true } in
    Carries->> _ (encode_header-Carries h (grind arith)) (
      rw (sub_undeclare h known)
        (Carries-last undeclare_entity (unfold encode_extensions in undeclare_entity-tail d v)))

-- Each of the nine sub-messages is read back by the dispatch on the ID.
pub encode_declare_body-Carries :
    (b : DeclareBody)
    → IsDeclareBody b
    → Carries (encode_declare_body b) decode_declare_body (arrived_declare b)
unfolding encode_declare_body
encode_declare_body-Carries (entity d) v = encode_declare_entity-Carries d v
encode_declare_body-Carries (undeclare_entity d) v = encode_undeclare_entity-Carries d v
encode_declare_body-Carries (key_expr d) v =
    unfold encode_declare_key_expr decode_declare_key_expr decode_declare_body decode_declare_sub in
    Carries->> _ (encode_header-Carries _ (omega arith)) (
      Carries-last key_expr (
        Carries->> _ (encode_z16-Carries d.expr_id v.id_fits) (
          Carries->> _ (encode_z16-Carries d.scope v.scope_fits) (
            Carries->> _ (suffix-Carries d.suffix v.suffix_text v.suffix_fits)
              (Carries-last _ (extensions-Carries d.extensions v.exts_fit))))))
encode_declare_body-Carries (undeclare_key_expr d) v =
    unfold encode_undeclare_key_expr decode_undeclare_key_expr decode_declare_body
      decode_declare_sub in
    Carries->> _ (encode_header-Carries _ (omega arith)) (
      Carries-last undeclare_key_expr (
        Carries->> _ (encode_z16-Carries d.expr_id v.id_fits)
          (Carries-last _ (extensions-Carries d.extensions v.exts_fit))))
encode_declare_body-Carries (final d) v =
    unfold encode_declare_final decode_declare_final decode_declare_body decode_declare_sub in
    Carries->> _ (encode_header-Carries _ (omega arith))
      (Carries-last final (Carries-last _ (extensions-Carries d.extensions v)))

-- Every DECLARE with a body whose parts fit the wire, with no other extension in the place of the
-- key expression's, is read back, whatever its sub-message; without the flag its interest ID is
-- zero.
pub encode_declare-Carries :
    (m : Declare) (b : DeclareBody)
    → m.body ≡ some b
    → m.interest_id < 2 ^ 32
    → (m.has_interest_id ≡ false → m.interest_id ≡ 0)
    → All IsExt m.extensions
    → IsDeclareBody b
    → Carries
        (encode_declare m)
        (after_header decode_declare)
        (record m { extensions = set_more m.extensions; body = some (arrived_declare b) })
unfolding encode_declare decode_declare encode_with_body
encode_declare-Carries m b e hid absent hs v = rw e (
    Carries->> _ (encode_header-Carries _ (omega arith)) (
      Carries->> _
        (Carries-optional m.has_interest_id (λ on. encode_z32-Carries m.interest_id hid)
          (λ off. sym (absent off)))
        (Carries->> _ (extensions-Carries m.extensions hs)
          (Carries-last _ (encode_declare_body-Carries b v)))))
