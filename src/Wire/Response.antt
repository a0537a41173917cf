-- ===== src/Wire/Response.antt =====
-- internal/wire/response.go: RESPONSE with its REPLY or ERR, and RESPONSE_FINAL.
use zenoh_go_client.Prelude.{
  ℕ, ◌^◌, ◌<◌, ◌≡◌, false, List, [], length, All, ◌==◌, if◌then◌else◌, Option, none, some, arith,
}
use zenoh_go_client.Codec.Types.{
  Bytes, unexpected_id, Parser, ◌>>=◌, pure, fail, Encoder, ◌>>◌, when, optional,
}
use zenoh_go_client.Codec.Carries.{Carries, Carries->>, Carries-last}
use zenoh_go_client.Codec.Buffer.{read_byte, append_byte}
use zenoh_go_client.Codec.Vle.{encode_z32, decode_z32}
use zenoh_go_client.Codec.Vle.RoundTrip.{encode_z32-Carries}
use zenoh_go_client.Codec.Primitives.{encode_bytes_z32, decode_bytes_z32}
use zenoh_go_client.Codec.Primitives.Laws.{encode_bytes_z32-Carries}
use zenoh_go_client.Codec.Header.{Header, encode_header, decode_header}
use zenoh_go_client.Codec.Header.Laws.{encode_header-Carries}
use zenoh_go_client.Codec.Ext.{Extension, encode_extensions, decode_extensions, set_more, non_empty}
use zenoh_go_client.Codec.Ext.HeaderByte.{IsExt}
use zenoh_go_client.Codec.Ext.Chain.{extensions-Carries}
use zenoh_go_client.Wire.Ids.{
  id_data_reply, id_data_err, id_network_response, id_network_response_final,
}
use zenoh_go_client.Wire.Fields.{is_some, when_some, optional_some, OnSome, Carries-some}
use zenoh_go_client.Wire.Frame.{expect_id, after_header}
use zenoh_go_client.Wire.Values.{
  Encoding, encode_encoding, decode_encoding, IsEncoding, encode_encoding-Carries, WireExpr, named,
  encode_scope, decode_wire_expr, IsWireExpr, encode_scope-Carries,
}
use zenoh_go_client.Wire.Data.{
  PushBody, encode_push_body, decode_push_body, IsPushBody, arrived_body, encode_push_body-Carries,
  encode_with_body,
}
use zenoh_go_client.Wire.Query.{consolidation-Carries}

pub record ReplyBody : Type 0 where
  pub consolidation : Option ℕ
  pub extensions : List Extension
  pub inner : Option PushBody

unfoldable pub encode_reply_body : ReplyBody → Encoder
encode_reply_body r = encode_with_body r.inner λ inner.
    let z = non_empty r.extensions in
    encode_header (record { id = id_data_reply; f1 = is_some r.consolidation; f2 = false; z = z })
    >> (when_some r.consolidation append_byte
        >> (when z (encode_extensions r.extensions) >> encode_push_body inner))

unfoldable pub decode_reply_body : Header → Parser ReplyBody
decode_reply_body h = expect_id id_data_reply h do
  consolidation ← optional_some h.f1 read_byte
  exts ← optional h.z [] decode_extensions
  inner ← decode_push_body
  pure (record { consolidation = consolidation; extensions = exts; inner = some inner })

pub record ErrBody : Type 0 where
  pub encoding : Option Encoding
  pub extensions : List Extension
  pub payload : Bytes

unfoldable pub encode_err_body : ErrBody → Encoder
encode_err_body e =
    let z = non_empty e.extensions in
    encode_header (record { id = id_data_err; f1 = false; f2 = is_some e.encoding; z = z })
    >> (when_some e.encoding encode_encoding
        >> (when z (encode_extensions e.extensions) >> encode_bytes_z32 e.payload))

unfoldable pub decode_err_body : Header → Parser ErrBody
decode_err_body h = expect_id id_data_err h do
  encoding ← optional_some h.f2 decode_encoding
  exts ← optional h.z [] decode_extensions
  payload ← decode_bytes_z32
  pure (record { encoding = encoding; extensions = exts; payload = payload })

-- The types that implement `ResponseBody`.
pub data ResponseBody : Type 0 where
  reply : ReplyBody → ResponseBody
  error : ErrBody → ResponseBody

unfoldable pub encode_response_body : ResponseBody → Encoder
encode_response_body (reply r) = encode_reply_body r
encode_response_body (error e) = encode_err_body e

unfoldable pub decode_response_body : Parser ResponseBody
decode_response_body = do
  h ← decode_header
  if h.id == id_data_reply
      then (decode_reply_body h >>= λ r. pure (reply r))
      else if h.id == id_data_err
      then (decode_err_body h >>= λ e. pure (error e))
      else fail (unexpected_id h.id)

pub record Response : Type 0 where
  pub request_id : ℕ
  pub key_expr : WireExpr
  pub extensions : List Extension
  pub body : Option ResponseBody

unfoldable pub encode_response : Response → Encoder
encode_response m = encode_with_body m.body λ body.
    let z = non_empty m.extensions in
    encode_header
      (record { id = id_network_response; f1 = named m.key_expr; f2 = m.key_expr.mapping; z = z })
    >> (encode_z32 m.request_id
        >> (encode_scope m.key_expr
            >> (when z (encode_extensions m.extensions) >> encode_response_body body)))

unfoldable pub decode_response : Header → Parser Response
decode_response h = expect_id id_network_response h do
  id ← decode_z32
  key ← decode_wire_expr h.f1 h.f2
  exts ← optional h.z [] decode_extensions
  body ← decode_response_body
  pure (record { request_id = id; key_expr = key; extensions = exts; body = some body })

pub record ResponseFinal : Type 0 where
  pub request_id : ℕ
  pub extensions : List Extension

unfoldable pub encode_response_final : ResponseFinal → Encoder
encode_response_final m =
    let z = non_empty m.extensions in
    encode_header (record { id = id_network_response_final; f1 = false; f2 = false; z = z })
    >> (encode_z32 m.request_id >> when z (encode_extensions m.extensions))

unfoldable pub decode_response_final : Header → Parser ResponseFinal
decode_response_final h = expect_id id_network_response_final h do
  id ← decode_z32
  exts ← optional h.z [] decode_extensions
  pure (record { request_id = id; extensions = exts })

pub record IsErr (e : ErrBody) : Type 0 where
  pub encoding_fits : OnSome IsEncoding e.encoding
  pub exts_fit : All IsExt e.extensions
  pub payload_fits : length e.payload < 2 ^ 32

-- A reply without an inner body is not written.
abbrev pub IsReply : ReplyBody → Type 0
IsReply r = All IsExt r.extensions × ((b : PushBody) × (r.inner ≡ some b) × IsPushBody b)

abbrev pub IsResponseBody : ResponseBody → Type 0
IsResponseBody (reply r) = IsReply r
IsResponseBody (error e) = IsErr e

abbrev arrived_inner : Option PushBody → Option PushBody
arrived_inner none = none
arrived_inner (some b) = some (arrived_body b)

abbrev pub arrived_response : ResponseBody → ResponseBody
arrived_response (reply r) =
    reply (record r { extensions = set_more r.extensions; inner = arrived_inner r.inner })
arrived_response (error e) = error (record e { extensions = set_more e.extensions })

pub encode_response_body-Carries :
    (b : ResponseBody)
    → IsResponseBody b
    → Carries (encode_response_body b) decode_response_body (arrived_response b)
unfolding encode_response_body decode_response_body encode_reply_body decode_reply_body
    encode_err_body decode_err_body encode_with_body
encode_response_body-Carries (reply r) (hs, (b, e, v)) = rw (e) (
    Carries->> _ (encode_header-Carries _ (omega arith)) (
      Carries-last reply (
        Carries->> _ (consolidation-Carries r.consolidation) (
          Carries->> _ (extensions-Carries r.extensions hs)
            (Carries-last _ (encode_push_body-Carries b v))))))
encode_response_body-Carries (error e) v = Carries->> _ (encode_header-Carries _ (omega arith)) (
    Carries-last error (
      Carries->> _ (Carries-some IsEncoding e.encoding encode_encoding-Carries v.encoding_fits) (
        Carries->> _ (extensions-Carries e.extensions v.exts_fit)
          (Carries-last _ (encode_bytes_z32-Carries e.payload v.payload_fits)))))

-- Every RESPONSE with a body whose parts fit the wire is read back, REPLY and ERR alike.
pub encode_response-Carries :
    (id : ℕ) (key : WireExpr) (exts : List Extension) (b : ResponseBody)
    → id < 2 ^ 32
    → IsWireExpr key
    → All IsExt exts
    → IsResponseBody b
    → Carries
        (encode_response
          (record { request_id = id; key_expr = key; extensions = exts; body = some b }))
        (after_header decode_response)
        (record {
          request_id = id;
          key_expr = key;
          extensions = set_more exts;
          body = some (arrived_response b);
        })
unfolding encode_response decode_response encode_with_body
encode_response-Carries id key exts b hid k hs v =
    Carries->> _ (encode_header-Carries _ (omega arith)) (
      Carries->> _ (encode_z32-Carries id hid) (
        Carries->> _ (encode_scope-Carries key k) (
          Carries->> _ (extensions-Carries exts hs)
            (Carries-last _ (encode_response_body-Carries b v)))))

-- Every RESPONSE_FINAL whose parts fit the wire is read back.
pub encode_response_final-Carries :
    (m : ResponseFinal)
    → m.request_id < 2 ^ 32
    → All IsExt m.extensions
    → Carries
        (encode_response_final m)
        (after_header decode_response_final)
        (record m { extensions = set_more m.extensions })
unfolding encode_response_final decode_response_final
encode_response_final-Carries m hid hs = Carries->> _ (encode_header-Carries _ (omega arith)) (
    Carries->> _ (encode_z32-Carries m.request_id hid)
      (Carries-last _ (extensions-Carries m.extensions hs)))
