-- ===== src/Examples/Network.antt =====
-- internal/wire: each theorem on a network or scouting message at an input.
use zenoh_go_client.Prelude.{refl, true, false, [], ◌∷◌, some, arith, inl, inr}
use zenoh_go_client.Codec.Carries.{Carries}
use zenoh_go_client.Codec.Ext.{set_more}
use zenoh_go_client.Codec.Primitives.{valid_utf8}
use zenoh_go_client.Examples.Codec.{two_exts, two_exts-All}
use zenoh_go_client.Wire.Frame.{after_header}
use zenoh_go_client.Wire.Zid.{ZenohId}
use zenoh_go_client.Wire.Values.{WireExpr, IsWireExpr, Timestamp, IsTimestamp, Encoding, IsEncoding}
use zenoh_go_client.Wire.Data.{
  PushBody, put, IsPushBody, arrived_body, encode_push, decode_push, encode_push-Carries,
}
use zenoh_go_client.Wire.Query.{
  QueryBody, IsQuery, arrived_query, encode_request, decode_request, encode_request-Carries,
}
use zenoh_go_client.Wire.Response.{
  ResponseBody, reply, arrived_response, encode_response, decode_response, encode_response-Carries,
}
use zenoh_go_client.Wire.Declare.{
  DeclareBody, undeclare_entity, Declare, encode_declare, decode_declare,
}
use zenoh_go_client.Wire.Declare.RoundTrip.{IsDeclareBody, arrived_declare, encode_declare-Carries}
use zenoh_go_client.Wire.Interest.{Interest, encode_interest, decode_interest}
use zenoh_go_client.Wire.Interest.RoundTrip.{arrived_options, encode_interest-Carries}
use zenoh_go_client.Wire.Scout.{Scout, encode_scout, decode_scout}
use zenoh_go_client.Wire.Scout.RoundTrip.{encode_scout-Carries}
use zenoh_go_client.Wire.Session.{Join}
use zenoh_go_client.Wire.Session.LaneSns.{LaneSns, IsLaneSns}

abbrev zid : ZenohId
zid = record { bytes = 1 ∷ 2 ∷ 3 ∷ [] }

abbrev pub key : WireExpr
key = record { scope = 3; suffix = b'a' ∷ []; mapping = true }

pub key-IsWireExpr : IsWireExpr key
key-IsWireExpr = record {
  scope_fits = omega arith;
  suffix_text = unfold valid_utf8 in refl;
  suffix_fits = omega arith;
}

abbrev encoding : Encoding
encoding = record { id = 5; schema = b'a' ∷ [] }

encoding-IsEncoding : IsEncoding encoding
encoding-IsEncoding = record {
  id_fits = omega arith;
  schema_text = unfold valid_utf8 in refl;
  schema_fits = omega arith;
}

abbrev stamp : Timestamp
stamp = record { ntp64 = 1000; zid = zid }

stamp-IsTimestamp : IsTimestamp stamp
stamp-IsTimestamp = record {
  time_fits = omega arith;
  zid_some = omega arith;
  zid_fits = omega arith;
}

abbrev pub body : PushBody
body = put (record {
  timestamp = some stamp;
  encoding = some encoding;
  extensions = two_exts;
  payload = 9 ∷ 8 ∷ [];
})

pub body-IsPushBody : IsPushBody body
body-IsPushBody = record {
  time_fits = stamp-IsTimestamp;
  encoding_fits = encoding-IsEncoding;
  exts_fit = two_exts-All;
  payload_fits = omega arith;
}

encode_push-Carries_example :
    Carries
      (encode_push (record { key_expr = key; extensions = two_exts; body = some body }))
      (after_header decode_push)
      (record { key_expr = key; extensions = set_more two_exts; body = some (arrived_body body) })
encode_push-Carries_example =
    encode_push-Carries key two_exts body key-IsWireExpr two_exts-All body-IsPushBody

abbrev query : QueryBody
query = record { consolidation = some 1; parameters = b'p' ∷ []; extensions = two_exts }

query-IsQuery : IsQuery query
query-IsQuery = record {
  parameters_text = unfold valid_utf8 in refl;
  parameters_fit = omega arith;
  exts_fit = two_exts-All;
}

encode_request-Carries_example :
    Carries
      (encode_request
        (record { request_id = 300; key_expr = key; extensions = two_exts; body = some query }))
      (after_header decode_request)
      (record {
        request_id = 300;
        key_expr = key;
        extensions = set_more two_exts;
        body = some (arrived_query query);
      })
encode_request-Carries_example =
    encode_request-Carries 300 key two_exts query (omega arith) key-IsWireExpr two_exts-All
      query-IsQuery

abbrev answer : ResponseBody
answer = reply (record { consolidation = some 2; extensions = two_exts; inner = some body })

encode_response-Carries_example :
    Carries
      (encode_response
        (record { request_id = 300; key_expr = key; extensions = []; body = some answer }))
      (after_header decode_response)
      (record {
        request_id = 300;
        key_expr = key;
        extensions = set_more [];
        body = some (arrived_response answer);
      })
encode_response-Carries_example =
    encode_response-Carries 300 key [] answer (omega arith) key-IsWireExpr tt
      (two_exts-All, (body, refl, body-IsPushBody))

abbrev undeclared : DeclareBody
undeclared =
    undeclare_entity (record { kind = 5; entity_id = 300; wire_expr = key; extensions = two_exts })

undeclared-IsDeclareBody : IsDeclareBody undeclared
undeclared-IsDeclareBody = record {
  kind_known = inr (inl refl);
  id_fits = omega arith;
  key_fits = key-IsWireExpr;
  exts_fit = two_exts-All;
  exts_other = (refl, (refl, tt));
}

abbrev declare : Declare
declare = record {
  interest_id = 7;
  has_interest_id = true;
  extensions = two_exts;
  body = some undeclared;
}

encode_declare-Carries_example :
    Carries
      (encode_declare declare)
      (after_header decode_declare)
      (record declare { extensions = set_more two_exts; body = some (arrived_declare undeclared) })
encode_declare-Carries_example =
    encode_declare-Carries declare undeclared refl (omega arith) (λ h. cc) two_exts-All
      undeclared-IsDeclareBody

abbrev interest : Interest
interest = record {
  interest_id = 7;
  mode = 3;
  filter = record {
    key_exprs = true;
    subscribers = false;
    queryables = true;
    tokens = false;
    aggregate = true;
  };
  key_expr = some key;
  extensions = two_exts;
}

encode_interest-Carries_example :
    Carries (encode_interest interest) (after_header decode_interest) (record interest {
      filter = (arrived_options interest).0;
      key_expr = (arrived_options interest).1;
      extensions = set_more two_exts;
    })
encode_interest-Carries_example =
    encode_interest-Carries interest (omega arith) (omega arith) key-IsWireExpr two_exts-All

abbrev scout : Scout
scout = record { version = 9; matcher = 5; zid = zid; extensions = two_exts }

encode_scout-Carries_example :
    Carries
      (encode_scout scout)
      (after_header decode_scout)
      (record scout { extensions = set_more two_exts })
encode_scout-Carries_example = encode_scout-Carries scout (omega arith) (omega arith) two_exts-All

abbrev join : Join
join = record {
  lease_seconds = true;
  has_size_info = false;
  version = 9;
  zid = zid;
  what_am_i = 1;
  resolution = 0;
  batch_size = 0;
  lease = 10;
  next_sn_rel = 300;
  next_sn_be = 4;
  extensions = [];
}

abbrev pub lanes : LaneSns
lanes = record {
  reliable = 1 ∷ 2 ∷ 3 ∷ 4 ∷ 5 ∷ 6 ∷ 7 ∷ 300 ∷ [];
  best_effort = 9 ∷ 8 ∷ 7 ∷ 6 ∷ 5 ∷ 4 ∷ 3 ∷ 2 ∷ [];
}

pub lanes-IsLaneSns : IsLaneSns lanes
lanes-IsLaneSns = record {
  reliable_len = refl;
  best_effort_len = refl;
  reliable_fit = (
    omega arith,
    (
      omega arith,
      (omega arith, (omega arith, (omega arith, (omega arith, (omega arith, (omega arith, tt)))))),
    ),
  );
  best_effort_fit = (
    omega arith,
    (
      omega arith,
      (omega arith, (omega arith, (omega arith, (omega arith, (omega arith, (omega arith, tt)))))),
    ),
  );
}
