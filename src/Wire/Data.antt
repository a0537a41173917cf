-- ===== src/Wire/Data.antt =====
-- internal/wire/data.go and push.go: the data sub-messages and the PUSH that carries one.
use zenoh_go_client.Prelude.{
  ◌^◌, ◌<◌, false, List, [], length, All, ◌==◌, if◌then◌else◌, Option, none, some, arith,
}
use zenoh_go_client.Codec.Types.{
  Bytes, unexpected_id, nil_body, Parser, ◌>>=◌, pure, fail, Encoder, ◌>>◌, refuse, when, optional,
}
use zenoh_go_client.Codec.Carries.{Carries, Carries->>, Carries-last}
use zenoh_go_client.Codec.Primitives.{encode_bytes_z32, decode_bytes_z32}
use zenoh_go_client.Codec.Primitives.Laws.{encode_bytes_z32-Carries}
use zenoh_go_client.Codec.Header.{Header, encode_header, decode_header}
use zenoh_go_client.Codec.Header.Laws.{encode_header-Carries}
use zenoh_go_client.Codec.Ext.{Extension, encode_extensions, decode_extensions, set_more, non_empty}
use zenoh_go_client.Codec.Ext.HeaderByte.{IsExt}
use zenoh_go_client.Codec.Ext.Chain.{extensions-Carries}
use zenoh_go_client.Wire.Ids.{id_data_put, id_data_del, id_network_push}
use zenoh_go_client.Wire.Fields.{is_some, when_some, optional_some, OnSome, Carries-some}
use zenoh_go_client.Wire.Frame.{expect_id, after_header}
use zenoh_go_client.Wire.Values.{
  Timestamp, encode_timestamp, decode_timestamp, IsTimestamp, encode_timestamp-Carries, Encoding,
  encode_encoding, decode_encoding, IsEncoding, encode_encoding-Carries, WireExpr, named,
  encode_scope, decode_wire_expr, IsWireExpr, encode_scope-Carries,
}

pub record PutBody : Type 0 where
  pub timestamp : Option Timestamp
  pub encoding : Option Encoding
  pub extensions : List Extension
  pub payload : Bytes

unfoldable pub encode_put_body : PutBody → Encoder
encode_put_body p =
    let z = non_empty p.extensions in
    encode_header
      (record { id = id_data_put; f1 = is_some p.timestamp; f2 = is_some p.encoding; z = z })
    >> (when_some p.timestamp encode_timestamp
        >> (when_some p.encoding encode_encoding
            >> (when z (encode_extensions p.extensions) >> encode_bytes_z32 p.payload)))

unfoldable pub decode_put_body : Header → Parser PutBody
decode_put_body h = expect_id id_data_put h do
  timestamp ← optional_some h.f1 decode_timestamp
  encoding ← optional_some h.f2 decode_encoding
  exts ← optional h.z [] decode_extensions
  payload ← decode_bytes_z32
  pure (record { timestamp = timestamp; encoding = encoding; extensions = exts; payload = payload })

pub record DelBody : Type 0 where
  pub timestamp : Option Timestamp
  pub extensions : List Extension

unfoldable pub encode_del_body : DelBody → Encoder
encode_del_body d =
    let z = non_empty d.extensions in
    encode_header (record { id = id_data_del; f1 = is_some d.timestamp; f2 = false; z = z })
    >> (when_some d.timestamp encode_timestamp >> when z (encode_extensions d.extensions))

unfoldable pub decode_del_body : Header → Parser DelBody
decode_del_body h = expect_id id_data_del h do
  timestamp ← optional_some h.f1 decode_timestamp
  exts ← optional h.z [] decode_extensions
  pure (record { timestamp = timestamp; extensions = exts })

-- The types that implement `PushBody`.
pub data PushBody : Type 0 where
  put : PutBody → PushBody
  del : DelBody → PushBody

unfoldable pub encode_push_body : PushBody → Encoder
encode_push_body (put p) = encode_put_body p
encode_push_body (del d) = encode_del_body d

unfoldable pub decode_push_body : Parser PushBody
decode_push_body = do
  h ← decode_header
  if h.id == id_data_put
      then (decode_put_body h >>= λ p. pure (put p))
      else if h.id == id_data_del
      then (decode_del_body h >>= λ d. pure (del d))
      else fail (unexpected_id h.id)

pub record Push : Type 0 where
  pub key_expr : WireExpr
  pub extensions : List Extension
  pub body : Option PushBody

-- A nil body is refused before anything is written.
unfoldable pub encode_with_body {ℓ} : {A : Type ℓ} → Option A → (A → Encoder) → Encoder
encode_with_body none e = refuse nil_body
encode_with_body (some b) e = e b

unfoldable pub encode_push : Push → Encoder
encode_push m = encode_with_body m.body λ body.
    let z = non_empty m.extensions in
    encode_header
      (record { id = id_network_push; f1 = named m.key_expr; f2 = m.key_expr.mapping; z = z })
    >> (encode_scope m.key_expr
        >> (when z (encode_extensions m.extensions) >> encode_push_body body))

unfoldable pub decode_push : Header → Parser Push
decode_push h = expect_id id_network_push h do
  key ← decode_wire_expr h.f1 h.f2
  exts ← optional h.z [] decode_extensions
  body ← decode_push_body
  pure (record { key_expr = key; extensions = exts; body = some body })

-- What the wire can hold.
pub record IsPut (p : PutBody) : Type 0 where
  pub time_fits : OnSome IsTimestamp p.timestamp
  pub encoding_fits : OnSome IsEncoding p.encoding
  pub exts_fit : All IsExt p.extensions
  pub payload_fits : length p.payload < 2 ^ 32

pub record IsDel (d : DelBody) : Type 0 where
  pub time_fits : OnSome IsTimestamp d.timestamp
  pub exts_fit : All IsExt d.extensions

abbrev pub IsPushBody : PushBody → Type 0
IsPushBody (put p) = IsPut p
IsPushBody (del d) = IsDel d

-- A body as it arrives: the encoder has set the `More` flags.
abbrev pub arrived_body : PushBody → PushBody
arrived_body (put p) = put (record p { extensions = set_more p.extensions })
arrived_body (del d) = del (record d { extensions = set_more d.extensions })

pub encode_push_body-Carries :
    (b : PushBody) → IsPushBody b → Carries (encode_push_body b) decode_push_body (arrived_body b)
unfolding encode_push_body decode_push_body encode_put_body decode_put_body encode_del_body
    decode_del_body
encode_push_body-Carries (put p) v = Carries->> _ (encode_header-Carries _ (omega arith)) (
    Carries-last put (
      Carries->> _ (Carries-some IsTimestamp p.timestamp encode_timestamp-Carries v.time_fits) (
        Carries->> _ (Carries-some IsEncoding p.encoding encode_encoding-Carries v.encoding_fits) (
          Carries->> _ (extensions-Carries p.extensions v.exts_fit)
            (Carries-last _ (encode_bytes_z32-Carries p.payload v.payload_fits))))))
encode_push_body-Carries (del d) v = Carries->> _ (encode_header-Carries _ (omega arith)) (
    Carries-last del (
      Carries->> _ (Carries-some IsTimestamp d.timestamp encode_timestamp-Carries v.time_fits)
        (Carries-last _ (extensions-Carries d.extensions v.exts_fit))))

-- Every PUSH with a body whose parts fit the wire is read back, PUT and DEL alike.
pub encode_push-Carries :
    (key : WireExpr) (exts : List Extension) (b : PushBody)
    → IsWireExpr key
    → All IsExt exts
    → IsPushBody b
    → Carries
        (encode_push (record { key_expr = key; extensions = exts; body = some b }))
        (after_header decode_push)
        (record { key_expr = key; extensions = set_more exts; body = some (arrived_body b) })
unfolding encode_push decode_push encode_with_body
encode_push-Carries key exts b k hs v = Carries->> _ (encode_header-Carries _ (omega arith)) (
    Carries->> _ (encode_scope-Carries key k)
      (Carries->> _ (extensions-Carries exts hs) (Carries-last _ (encode_push_body-Carries b v))))
