-- ===== src/Wire/Query.antt =====
-- internal/wire/request.go: REQUEST and the QUERY that it carries.
use zenoh_go_client.Prelude.{
  ℕ, ◌^◌, ◌<◌, ◌≡◌, true, false, List, [], length, All, Option, none, some, arith,
}
use zenoh_go_client.Codec.Types.{Bytes, Parser, ◌>>=◌, pure, Encoder, ◌>>◌, when, optional}
use zenoh_go_client.Codec.Carries.{Carries, Carries->>, Carries-last}
use zenoh_go_client.Codec.Buffer.{read_byte, append_byte}
use zenoh_go_client.Codec.Vle.{encode_z32, decode_z32}
use zenoh_go_client.Codec.Vle.RoundTrip.{encode_z32-Carries}
use zenoh_go_client.Codec.Primitives.{valid_utf8, encode_string_z16, decode_string_z16}
use zenoh_go_client.Codec.Primitives.Laws.{append_byte-Carries}
use zenoh_go_client.Codec.Header.{Header, encode_header, decode_header}
use zenoh_go_client.Codec.Header.Laws.{encode_header-Carries}
use zenoh_go_client.Codec.Ext.{
  Extension, new_z64_ext, encode_extensions, decode_extensions, set_more, non_empty,
}
use zenoh_go_client.Codec.Ext.HeaderByte.{IsExt}
use zenoh_go_client.Codec.Ext.Chain.{extensions-Carries}
use zenoh_go_client.Wire.Ids.{id_data_query, id_network_request}
use zenoh_go_client.Wire.Fields.{is_some, when_some, optional_some, OnSome, Carries-some}
use zenoh_go_client.Wire.Frame.{expect_id, after_header}
use zenoh_go_client.Wire.Values.{
  WireExpr, named, some_bytes, encode_scope, decode_wire_expr, IsWireExpr, encode_scope-Carries,
  suffix-Carries,
}
use zenoh_go_client.Wire.Data.{encode_with_body}

abbrev pub req_ext_id_query_target : ℕ
req_ext_id_query_target = 0x04

abbrev pub req_ext_id_budget : ℕ
req_ext_id_budget = 0x05

abbrev pub req_ext_id_timeout : ℕ
req_ext_id_timeout = 0x06

unfoldable pub query_target_ext : ℕ → Extension
query_target_ext t = new_z64_ext req_ext_id_query_target true t

unfoldable pub budget_ext : ℕ → Extension
budget_ext n = new_z64_ext req_ext_id_budget false n

unfoldable pub timeout_ext : ℕ → Extension
timeout_ext ms = new_z64_ext req_ext_id_timeout false ms

-- A consolidation mode is a byte.
pub record QueryBody : Type 0 where
  pub consolidation : Option ℕ
  pub parameters : Bytes
  pub extensions : List Extension

unfoldable pub encode_query_body : QueryBody → Encoder
encode_query_body q =
    let z = non_empty q.extensions in
    let some_parameters = some_bytes q.parameters in
    encode_header
      (record { id = id_data_query; f1 = is_some q.consolidation; f2 = some_parameters; z = z })
    >> (when_some q.consolidation append_byte
        >> (when some_parameters (encode_string_z16 q.parameters)
            >> when z (encode_extensions q.extensions)))

unfoldable pub decode_query_body : Parser QueryBody
decode_query_body = decode_header >>= λ h. expect_id id_data_query h do
  consolidation ← optional_some h.f1 read_byte
  parameters ← optional h.f2 [] decode_string_z16
  exts ← optional h.z [] decode_extensions
  pure (record { consolidation = consolidation; parameters = parameters; extensions = exts })

pub record Request : Type 0 where
  pub request_id : ℕ
  pub key_expr : WireExpr
  pub extensions : List Extension
  pub body : Option QueryBody

unfoldable pub encode_request : Request → Encoder
encode_request m = encode_with_body m.body λ body.
    let z = non_empty m.extensions in
    encode_header
      (record { id = id_network_request; f1 = named m.key_expr; f2 = m.key_expr.mapping; z = z })
    >> (encode_z32 m.request_id
        >> (encode_scope m.key_expr
            >> (when z (encode_extensions m.extensions) >> encode_query_body body)))

unfoldable pub decode_request : Header → Parser Request
decode_request h = expect_id id_network_request h do
  id ← decode_z32
  key ← decode_wire_expr h.f1 h.f2
  exts ← optional h.z [] decode_extensions
  body ← decode_query_body
  pure (record { request_id = id; key_expr = key; extensions = exts; body = some body })

pub record IsQuery (q : QueryBody) : Type 0 where
  pub parameters_text : valid_utf8 q.parameters ≡ true
  pub parameters_fit : length q.parameters < 2 ^ 16
  pub exts_fit : All IsExt q.extensions

abbrev pub arrived_query : QueryBody → QueryBody
arrived_query q = record q { extensions = set_more q.extensions }

Any-some : (o : Option ℕ) → OnSome (λ b. Unit {0}) o
Any-some none = tt
Any-some (some b) = tt

pub consolidation-Carries :
    (o : Option ℕ) → Carries (when_some o append_byte) (optional_some (is_some o) read_byte) o
consolidation-Carries o = Carries-some (λ b. Unit {0}) o (λ b u. append_byte-Carries b) (Any-some o)

pub encode_query_body-Carries :
    (q : QueryBody) → IsQuery q → Carries (encode_query_body q) decode_query_body (arrived_query q)
unfolding encode_query_body decode_query_body
encode_query_body-Carries q v = Carries->> _ (encode_header-Carries _ (omega arith)) (
    Carries->> _ (consolidation-Carries q.consolidation) (
      Carries->> _ (suffix-Carries q.parameters v.parameters_text v.parameters_fit)
        (Carries-last _ (extensions-Carries q.extensions v.exts_fit))))

-- Every REQUEST with a body whose parts fit the wire is read back.
pub encode_request-Carries :
    (id : ℕ) (key : WireExpr) (exts : List Extension) (q : QueryBody)
    → id < 2 ^ 32
    → IsWireExpr key
    → All IsExt exts
    → IsQuery q
    → Carries
        (encode_request
          (record { request_id = id; key_expr = key; extensions = exts; body = some q }))
        (after_header decode_request)
        (record {
          request_id = id;
          key_expr = key;
          extensions = set_more exts;
          body = some (arrived_query q);
        })
unfolding encode_request decode_request encode_with_body
encode_request-Carries id key exts q hid k hs v =
    Carries->> _ (encode_header-Carries _ (omega arith)) (
      Carries->> _ (encode_z32-Carries id hid) (
        Carries->> _ (encode_scope-Carries key k) (
          Carries->> _ (extensions-Carries exts hs)
            (Carries-last _ (encode_query_body-Carries q v)))))
