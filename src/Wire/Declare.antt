-- ===== src/Wire/Declare.antt =====
-- internal/wire/declare.go: DECLARE and its sub-messages.
pub mod RoundTrip
use zenoh_go_client.Prelude.{
  ℕ, ◌^◌, ◌<◌, ◌≡◌, refl, Bool, true, false, ◌&&◌, ◌||◌, List, [], ◌∷◌, length, All, bit_and,
  bit_or, ◌==◌, if◌then◌else◌, Option, none, some, arith,
}
use zenoh_go_client.Codec.Types.{
  Bytes, unexpected_id, Result, ok, err, Parser, ◌>>=◌, pure, fail, and_then, written, failed,
  Written, Encoder, ◌>>◌, when, optional,
}
use zenoh_go_client.Codec.Buffer.{read_byte, read_rest, append_byte, append_bytes}
use zenoh_go_client.Codec.Vle.{encode_z32, decode_z32, encode_z16, decode_z16}
use zenoh_go_client.Codec.Primitives.{encode_string_z16, decode_string_z16}
use zenoh_go_client.Codec.Header.{Header, encode_header, decode_header, or_if, has_bit}
use zenoh_go_client.Codec.Ext.{
  Extension, ext_enc_zbuf, encode_extension, encode_extensions, decode_extensions, set_more,
  non_empty, with_more,
}
use zenoh_go_client.Wire.Ids.{
  id_network_declare, id_declare_key_expr, id_undeclare_key_expr, id_declare_subscriber,
  id_undeclare_subscriber, id_declare_queryable, id_undeclare_queryable, id_declare_token,
  id_undeclare_token, id_declare_final,
}
use zenoh_go_client.Wire.Fields.{lift, bytes_of}
use zenoh_go_client.Wire.Frame.{expect_id}
use zenoh_go_client.Wire.Values.{WireExpr, named, some_bytes, encode_scope, decode_wire_expr}
use zenoh_go_client.Wire.Data.{encode_with_body}

abbrev pub wire_expr_ext_id : ℕ
wire_expr_ext_id = 0x0F

pub record DeclareKeyExpr : Type 0 where
  pub expr_id : ℕ
  pub scope : ℕ
  pub suffix : Bytes
  pub extensions : List Extension

unfoldable pub encode_declare_key_expr : DeclareKeyExpr → Encoder
encode_declare_key_expr d =
    let z = non_empty d.extensions in
    let some_suffix = some_bytes d.suffix in
    encode_header (record { id = id_declare_key_expr; f1 = some_suffix; f2 = false; z = z })
    >> (encode_z16 d.expr_id
        >> (encode_z16 d.scope
            >> (when some_suffix (encode_string_z16 d.suffix)
                >> when z (encode_extensions d.extensions))))

unfoldable pub decode_declare_key_expr : Header → Parser DeclareKeyExpr
decode_declare_key_expr h = do
  id ← decode_z16
  scope ← decode_z16
  suffix ← optional h.f1 [] decode_string_z16
  exts ← optional h.z [] decode_extensions
  pure (record { expr_id = id; scope = scope; suffix = suffix; extensions = exts })

pub record UndeclareKeyExpr : Type 0 where
  pub expr_id : ℕ
  pub extensions : List Extension

unfoldable pub encode_undeclare_key_expr : UndeclareKeyExpr → Encoder
encode_undeclare_key_expr d =
    let z = non_empty d.extensions in
    encode_header (record { id = id_undeclare_key_expr; f1 = false; f2 = false; z = z })
    >> (encode_z16 d.expr_id >> when z (encode_extensions d.extensions))

unfoldable pub decode_undeclare_key_expr : Header → Parser UndeclareKeyExpr
decode_undeclare_key_expr h = do
  id ← decode_z16
  exts ← optional h.z [] decode_extensions
  pure (record { expr_id = id; extensions = exts })

-- The kind is the ID of the sub-message.
pub record DeclareEntity : Type 0 where
  pub kind : ℕ
  pub entity_id : ℕ
  pub key_expr : WireExpr
  pub extensions : List Extension

unfoldable pub new_declare_subscriber : ℕ → WireExpr → DeclareEntity
new_declare_subscriber id ke = record {
  kind = id_declare_subscriber;
  entity_id = id;
  key_expr = ke;
  extensions = [];
}

unfoldable pub new_declare_queryable : ℕ → WireExpr → DeclareEntity
new_declare_queryable id ke = record {
  kind = id_declare_queryable;
  entity_id = id;
  key_expr = ke;
  extensions = [];
}

unfoldable pub new_declare_token : ℕ → WireExpr → DeclareEntity
new_declare_token id ke = record {
  kind = id_declare_token;
  entity_id = id;
  key_expr = ke;
  extensions = [];
}

unfoldable pub encode_declare_entity : DeclareEntity → Encoder
encode_declare_entity d =
    let z = non_empty d.extensions in
    encode_header (record { id = d.kind; f1 = named d.key_expr; f2 = d.key_expr.mapping; z = z })
    >> (encode_z32 d.entity_id
        >> (encode_scope d.key_expr >> when z (encode_extensions d.extensions)))

unfoldable pub decode_declare_entity : Header → ℕ → Parser DeclareEntity
decode_declare_entity h kind = do
  id ← decode_z32
  key ← decode_wire_expr h.f1 h.f2
  exts ← optional h.z [] decode_extensions
  pure (record { kind = kind; entity_id = id; key_expr = key; extensions = exts })

pub record UndeclareEntity : Type 0 where
  pub kind : ℕ
  pub entity_id : ℕ
  pub wire_expr : WireExpr
  pub extensions : List Extension

-- The body of the key expression's extension: flags, scope, and the suffix to the end.
unfoldable pub encode_wire_expr_body : WireExpr → Encoder
encode_wire_expr_body ke =
    append_byte (or_if ke.mapping 2 (or_if (named ke) 1 0))
    >> (encode_z16 ke.scope >> when (named ke) (append_bytes ke.suffix))

unfoldable pub encode_wire_expr_extension : WireExpr → Extension
encode_wire_expr_extension ke = record {
  header = record {
    id = wire_expr_ext_id;
    mandatory = true;
    encoding = ext_enc_zbuf;
    more = false;
  };
  z64 = 0;
  zbuf = bytes_of (encode_wire_expr_body ke []);
}

unfoldable pub read_wire_expr_body : Parser WireExpr
read_wire_expr_body = do
  flags ← read_byte
  scope ← decode_z16
  suffix ← optional (has_bit flags 1) [] read_rest
  pure (record { scope = scope; suffix = suffix; mapping = has_bit flags 2 })

abbrev value_of {ℓ} : {A : Type ℓ} → Result (A × Bytes) → Result A
value_of (ok (a, rest)) = ok a
value_of (err e) = err e

unfoldable pub decode_wire_expr_extension_body : Bytes → Result WireExpr
decode_wire_expr_extension_body b = value_of (read_wire_expr_body b)

unfoldable pub encode_undeclare_entity : UndeclareEntity → Encoder
encode_undeclare_entity d =
    encode_header (record { id = d.kind; f1 = false; f2 = false; z = true })
    >> (encode_z32 d.entity_id
        >> (encode_extension
              (with_more (non_empty d.extensions) (encode_wire_expr_extension d.wire_expr))
            >> encode_extensions d.extensions))

abbrev pub is_wire_expr_ext : Extension → Bool
is_wire_expr_ext e = e.header.id == wire_expr_ext_id && e.header.encoding == ext_enc_zbuf

abbrev bind {ℓ κ} : {A : Type ℓ} {B : Type κ} → Result A → (A → Result B) → Result B
bind (ok a) f = f a
bind (err e) f = err e

-- The loop over the extensions: the last key expression wins, the others are kept in their order.
unfoldable pub sort_exts : WireExpr → List Extension → Result (WireExpr × List Extension)
sort_exts ke [] = ok (ke, [])
sort_exts ke (e ∷ exts) =
    let found = bind (decode_wire_expr_extension_body e.zbuf) (λ ke'. sort_exts ke' exts) in
    let kept = bind (sort_exts ke exts) (λ (ke', rest). ok (ke', e ∷ rest)) in
    if is_wire_expr_ext e then found else kept

abbrev pub no_wire_expr : WireExpr
no_wire_expr = record { scope = 0; suffix = []; mapping = false }

unfoldable pub decode_undeclare_entity : Header → ℕ → Parser UndeclareEntity
decode_undeclare_entity h kind = do
  id ← decode_z32
  exts ← optional h.z [] decode_extensions
  sorted ← lift (sort_exts no_wire_expr exts)
  pure (record { kind = kind; entity_id = id; wire_expr = sorted.0; extensions = sorted.1 })

pub record DeclareFinal : Type 0 where
  pub extensions : List Extension

unfoldable pub encode_declare_final : DeclareFinal → Encoder
encode_declare_final d =
    let z = non_empty d.extensions in
    encode_header (record { id = id_declare_final; f1 = false; f2 = false; z = z })
    >> when z (encode_extensions d.extensions)

unfoldable pub decode_declare_final : Header → Parser DeclareFinal
decode_declare_final h = do
  exts ← optional h.z [] decode_extensions
  pure (record { extensions = exts })

-- The types that implement `DeclareBody`.
pub data DeclareBody : Type 0 where
  key_expr : DeclareKeyExpr → DeclareBody
  undeclare_key_expr : UndeclareKeyExpr → DeclareBody
  entity : DeclareEntity → DeclareBody
  undeclare_entity : UndeclareEntity → DeclareBody
  final : DeclareFinal → DeclareBody

unfoldable pub encode_declare_body : DeclareBody → Encoder
encode_declare_body (key_expr d) = encode_declare_key_expr d
encode_declare_body (undeclare_key_expr d) = encode_undeclare_key_expr d
encode_declare_body (entity d) = encode_declare_entity d
encode_declare_body (undeclare_entity d) = encode_undeclare_entity d
encode_declare_body (final d) = encode_declare_final d

abbrev pub is_entity_kind : ℕ → Bool
is_entity_kind id =
    id == id_declare_subscriber || (id == id_declare_queryable || id == id_declare_token)

abbrev pub is_undeclare_kind : ℕ → Bool
is_undeclare_kind id =
    id == id_undeclare_subscriber || (id == id_undeclare_queryable || id == id_undeclare_token)

unfoldable pub decode_declare_sub : Header → Parser DeclareBody
decode_declare_sub h =
    if h.id == id_declare_key_expr
    then (decode_declare_key_expr h >>= λ d. pure (key_expr d))
    else if h.id == id_undeclare_key_expr
    then (decode_undeclare_key_expr h >>= λ d. pure (undeclare_key_expr d))
    else if is_entity_kind h.id
    then (decode_declare_entity h h.id >>= λ d. pure (entity d))
    else if is_undeclare_kind h.id
    then (decode_undeclare_entity h h.id >>= λ d. pure (undeclare_entity d))
    else if h.id == id_declare_final
    then (decode_declare_final h >>= λ d. pure (final d))
    else fail (unexpected_id h.id)

unfoldable pub decode_declare_body : Parser DeclareBody
decode_declare_body = decode_header >>= decode_declare_sub

-- `InterestID` is written only under `HasInterestID`.
pub record Declare : Type 0 where
  pub interest_id : ℕ
  pub has_interest_id : Bool
  pub extensions : List Extension
  pub body : Option DeclareBody

unfoldable pub encode_declare : Declare → Encoder
encode_declare m = encode_with_body m.body λ body.
    let z = non_empty m.extensions in
    encode_header (record { id = id_network_declare; f1 = m.has_interest_id; f2 = false; z = z })
    >> (when m.has_interest_id (encode_z32 m.interest_id)
        >> (when z (encode_extensions m.extensions) >> encode_declare_body body))

unfoldable pub decode_declare : Header → Parser Declare
decode_declare h = expect_id id_network_declare h do
  id ← optional h.f1 0 decode_z32
  exts ← optional h.z [] decode_extensions
  body ← decode_declare_body
  pure (record { interest_id = id; has_interest_id = h.f1; extensions = exts; body = some body })
