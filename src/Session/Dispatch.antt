-- ===== src/Session/Dispatch.antt =====
-- internal/session/dispatch.go and multicast_dispatch.go: what a session does with a network message.
-- Log lines are left out. The payloads are values, so that the copies are the bodies without their
-- extensions.
pub mod Messages
pub mod Pushed
use zenoh_go_client.Prelude.{
  ℕ, Bool, true, false, not, ◌&&◌, ◌||◌, List, [], ◌∷◌, Option, none, some, ◌==◌, if◌then◌else◌,
}
use zenoh_go_client.Codec.Types.{Bytes, Error, nil_body, unexpected_id, Result, ok, err, Parser}
use zenoh_go_client.Codec.Header.{Header}
use zenoh_go_client.KeyExpr.{Checked, new}
use zenoh_go_client.Wire.Ids.{
  id_network_push, id_network_request, id_network_response, id_network_response_final,
  id_network_declare, id_network_interest, id_network_oam, id_declare_token, id_declare_subscriber,
  id_declare_queryable, id_undeclare_token, id_undeclare_subscriber, id_undeclare_queryable,
  id_data_put, id_data_del,
}
use zenoh_go_client.Wire.Zid.{ZenohId}
use zenoh_go_client.Wire.Values.{WireExpr}
use zenoh_go_client.Wire.Data.{PutBody, DelBody, PushBody, put, del, Push, decode_push}
use zenoh_go_client.Wire.Query.{QueryBody, Request, decode_request}
use zenoh_go_client.Wire.Response.{
  ErrBody, ResponseBody, reply, error, Response, decode_response, ResponseFinal,
  decode_response_final,
}
use zenoh_go_client.Wire.Declare.{
  DeclareEntity, UndeclareEntity, DeclareBody, key_expr, undeclare_key_expr, entity,
  undeclare_entity, final, Declare, decode_declare,
}
use zenoh_go_client.Wire.Interest.{Interest, decode_interest}
use zenoh_go_client.Session.Aliases.{
  declare_remote_alias, undeclare_remote_alias, resolve_remote_key,
}
use zenoh_go_client.Session.Matching.{
  MatchingRegistry, Deliveries, on_matching_declare, on_matching_undeclare,
  on_matching_snapshot_done,
}
use zenoh_go_client.Session.Matching.Entry.{MatchingKind, subscribers, queryables}
use zenoh_go_client.Session.Registries.{
  reached, dispatch_query, remember_inbound_token, forget_inbound_token, deliver_reply,
  finalise_get, deliver_liveliness_reply, finalise_liveliness_query,
}
use zenoh_go_client.Session.Reader.{Outcome, going, stopped, dispatch_failed, InboundDispatch}
use zenoh_go_client.Session.State.{
  PushSample, QueryReceived, LivelinessEvent, ReplyContent, InboundReply, unmatched, Session, emit,
  push_events, query_events, liveliness_events, matching_events,
}

-- The state after a handler, and its error.
abbrev pub Handled : Type 0
Handled = Session × Option Error

abbrev pub handled : Session → Handled
handled s = (s, none)

-- `resolveRemoteKey` and `keyexpr.New`, each of which may refuse.
abbrev pub valid_key : Checked Bytes → Option Bytes
valid_key (Checked.ok k) = some k
valid_key (Checked.err e) = none

abbrev pub and_valid : Option Bytes → Option Bytes
and_valid none = none
and_valid (some full) = valid_key (new full)

abbrev pub full_key : Session → WireExpr → Option Bytes
full_key s we = and_valid (resolve_remote_key s.remote_aliases we)

unfoldable pub dispatch_push : Session → Bytes → PushSample → Session
dispatch_push s ke sample = emit s (push_events (reached s.subs ke) sample)

unfoldable pub dispatch_liveliness : Session → Bytes → LivelinessEvent → Session
dispatch_liveliness s ke ev = emit s (liveliness_events (reached s.liveliness_subs ke) ev)

-- The sample of a body; a body that is not there is an error.
abbrev sample_of : Bytes → ZenohId → PushBody → PushSample
sample_of key src (put p) = record {
  key_expr = key;
  kind = id_data_put;
  payload = p.payload;
  encoding = p.encoding;
  timestamp = p.timestamp;
  source_zid = src;
}
sample_of key src (del d) = record {
  key_expr = key;
  kind = id_data_del;
  payload = [];
  encoding = none;
  timestamp = d.timestamp;
  source_zid = src;
}

abbrev push_sample : Session → Bytes → ZenohId → Option PushBody → Handled
push_sample s key src none = (s, some nil_body)
push_sample s key src (some b) = handled (dispatch_push s key (sample_of key src b))

-- An unknown alias or a key that does not parse is skipped.
unfoldable pub on_push_from_peer : Push → ZenohId → Session → Handled
on_push_from_peer p src s = with_key (full_key s p.key_expr)
  where
    with_key : Option Bytes → Handled
    with_key none = handled s
    with_key (some key) = push_sample s key src p.body

abbrev finalise_unmatched_query : Session → ℕ → Session
finalise_unmatched_query s id = emit s (unmatched id ∷ [])

abbrev or_zero : Option ℕ → ℕ
or_zero none = 0
or_zero (some n) = n

abbrev query_of : ℕ → Bytes → Option QueryBody → QueryReceived
query_of id key none = record {
  request_id = id;
  key_expr = key;
  parameters = [];
  consolidation = 0;
}
query_of id key (some q) = record {
  request_id = id;
  key_expr = key;
  parameters = q.parameters;
  consolidation = or_zero q.consolidation;
}

unfoldable pub on_request : Request → Session → Handled
on_request req s = with_key (full_key s req.key_expr)
  where
    with_key : Option Bytes → Handled
    with_key none = handled (finalise_unmatched_query s req.request_id)
    with_key (some key) =
        let (ids, count) = dispatch_query s.qbls key in
        let s' = emit s (query_events ids (query_of req.request_id key req.body)) in
        handled (if count == 0 then finalise_unmatched_query s' req.request_id else s')

abbrev pub clone_put_body : PutBody → PutBody
clone_put_body p = record p { extensions = [] }

abbrev pub clone_del_body : DelBody → DelBody
clone_del_body d = record d { extensions = [] }

abbrev pub clone_err_body : ErrBody → ErrBody
clone_err_body e = record e { extensions = [] }

unfoldable pub content_of : Option ResponseBody → Option ReplyContent
content_of none = none
content_of (some (error e)) = some (ReplyContent.err (clone_err_body e))
content_of (some (reply r)) = inner_of r.inner
  where
    inner_of : Option PushBody → Option ReplyContent
    inner_of none = none
    inner_of (some (put p)) = some (ReplyContent.put (clone_put_body p))
    inner_of (some (del d)) = some (ReplyContent.del (clone_del_body d))

-- An unknown alias leaves the empty key, which does not parse.
abbrev text_of : Option Bytes → Bytes
text_of none = []
text_of (some full) = full

unfoldable pub on_response : Response → Session → Handled
on_response res s = with_content (content_of res.body)
  where
    with_content : Option ReplyContent → Handled
    with_content none = (s, some nil_body)
    with_content (some content) =
        let full = text_of (resolve_remote_key s.remote_aliases res.key_expr) in
        let r : InboundReply = record {
          key_expr = full;
          parsed_key_expr = valid_key (new full);
          content = content;
        } in
        handled (record s { gets = deliver_reply s.gets res.request_id r })

-- The key of a matching declaration: none where the alias is unknown, or the text empty or invalid.
unfoldable pub resolve_matching_key : Session → WireExpr → Option Bytes
resolve_matching_key s we = full_key s we

abbrev matched : Session → MatchingRegistry × Deliveries → Session
matched s (reg, ds) = emit (record s { matching_registry = reg }) (matching_events ds)

unfoldable pub on_matching_entity_declare :
    MatchingKind → ZenohId → DeclareEntity → Session → Session
on_matching_entity_declare kind src d s = with_key (resolve_matching_key s d.key_expr)
  where
    with_key : Option Bytes → Session
    with_key none = s
    with_key (some key) =
        matched s (on_matching_declare s.matching_registry kind src d.entity_id key)

-- The end of a declaration goes by its ID, whatever its key is.
unfoldable pub on_matching_entity_undeclare :
    MatchingKind → ZenohId → UndeclareEntity → Session → Session
on_matching_entity_undeclare kind src d s = matched s (
    on_matching_undeclare s.matching_registry kind src d.entity_id
      (text_of (resolve_matching_key s d.wire_expr)))

unfoldable pub on_token_declare : Declare → DeclareEntity → Session → Session
on_token_declare d body s = with_key (full_key s body.key_expr)
  where
    with_key : Option Bytes → Session
    with_key none = s
    with_key (some key) =
        let ev : LivelinessEvent = record { key_expr = key; is_alive = true } in
        let s' = record s {
          inbound_tokens = remember_inbound_token s.inbound_tokens body.entity_id key;
        } in
        let told = dispatch_liveliness s' key ev in
        if d.has_interest_id
        then record told {
          liveliness_queries = deliver_liveliness_reply told.liveliness_queries d.interest_id ev;
        }
        else told

-- The cached key of the token, or else the message's own, where it is not empty.
unfoldable pub on_token_undeclare : UndeclareEntity → Session → Session
on_token_undeclare body s =
    let (tokens, cached) = forget_inbound_token s.inbound_tokens body.entity_id in
    with_key (record s { inbound_tokens = tokens }) (known cached)
  where
    known : Option Bytes → Option Bytes
    known none = full_key s body.wire_expr
    known (some key) = valid_key (new key)

    with_key : Session → Option Bytes → Session
    with_key s' none = s'
    with_key s' (some key) =
        dispatch_liveliness s' key (record { key_expr = key; is_alive = false })

-- A final without an interest ID ends nothing; with one, a matching interest, or else a query.
unfoldable pub on_declare_final : Declare → Session → Session
on_declare_final d s =
    let (reg, is_matching, ds) = on_matching_snapshot_done s.matching_registry d.interest_id in
    let done = matched s (reg, ds) in
    let query = record s {
      liveliness_queries = finalise_liveliness_query s.liveliness_queries d.interest_id;
    } in
    if not d.has_interest_id then s else if is_matching then done else query

unfoldable pub on_declare_entity : Declare → ZenohId → DeclareEntity → Session → Session
on_declare_entity d src body s =
    if body.kind == id_declare_token
    then on_token_declare d body s
    else if body.kind == id_declare_subscriber
    then on_matching_entity_declare subscribers src body s
    else if body.kind == id_declare_queryable
    then on_matching_entity_declare queryables src body s
    else s

unfoldable pub on_undeclare_entity : ZenohId → UndeclareEntity → Session → Session
on_undeclare_entity src body s =
    if body.kind == id_undeclare_token
    then on_token_undeclare body s
    else if body.kind == id_undeclare_subscriber
    then on_matching_entity_undeclare subscribers src body s
    else if body.kind == id_undeclare_queryable
    then on_matching_entity_undeclare queryables src body s
    else s

unfoldable pub on_declare_body : Declare → ZenohId → Option DeclareBody → Session → Session
on_declare_body d src none s = s
on_declare_body d src (some (key_expr b)) s = record s {
  remote_aliases = declare_remote_alias s.remote_aliases b.expr_id b.scope b.suffix;
}
on_declare_body d src (some (undeclare_key_expr b)) s = record s {
  remote_aliases = undeclare_remote_alias s.remote_aliases b.expr_id;
}
on_declare_body d src (some (entity b)) s = on_declare_entity d src b s
on_declare_body d src (some (undeclare_entity b)) s = on_undeclare_entity src b s
on_declare_body d src (some (final b)) s = on_declare_final d s

unfoldable pub on_declare_from_peer : Declare → ZenohId → Session → Handled
on_declare_from_peer d src s = handled (on_declare_body d src d.body s)

-- The dispatcher's result: the state and what is left, or the state and the error.
abbrev pub finish : Handled → Bytes → Outcome Session
finish (s, none) r = going s r
finish (s, some e) r = stopped s (dispatch_failed e)

abbrev pub dispatch_decoded :
    {A : Type 0} → Result (A × Bytes) → Session → (A → Handled) → Outcome Session
dispatch_decoded (ok (m, r)) s k = finish (k m) r
dispatch_decoded (err e) s k = stopped s (dispatch_failed e)

unfoldable pub network_dispatcher_for_peer : ZenohId → InboundDispatch Session
network_dispatcher_for_peer peer h r s =
    if h.id == id_network_push
    then dispatch_decoded (decode_push h r) s (λ m. on_push_from_peer m peer s)
    else if h.id == id_network_request
    then dispatch_decoded (decode_request h r) s (λ m. on_request m s)
    else if h.id == id_network_response
    then dispatch_decoded (decode_response h r) s (λ m. on_response m s)
    else if h.id == id_network_response_final
    then dispatch_decoded (decode_response_final h r) s
        (λ m. handled (record s { gets = finalise_get s.gets m.request_id }))
    else if h.id == id_network_declare
    then dispatch_decoded (decode_declare h r) s (λ m. on_declare_from_peer m peer s)
    else if h.id == id_network_interest
    then dispatch_decoded (decode_interest h r) s (λ m. handled s)
    else if h.id == id_network_oam
    then going s []
    else stopped s (dispatch_failed (unexpected_id h.id))

-- Queries and interests are dropped with the rest of the reader.
unfoldable pub multicast_dispatcher : ZenohId → InboundDispatch Session
multicast_dispatcher src h r s =
    if h.id == id_network_push
    then dispatch_decoded (decode_push h r) s (λ m. on_push_from_peer m src s)
    else if h.id == id_network_declare
    then dispatch_decoded (decode_declare h r) s (λ m. on_declare_from_peer m src s)
    else if (h.id == id_network_request || h.id == id_network_response)
        || (h.id == id_network_response_final || h.id == id_network_interest)
    then going s []
    else if h.id == id_network_oam
    then going s []
    else stopped s (dispatch_failed (unexpected_id h.id))
