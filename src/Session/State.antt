-- ===== src/Session/State.antt =====
-- internal/session/session.go: the state of a session that the dispatchers change, and what they hand
-- to callbacks, in the order of the calls.
use zenoh_go_client.Prelude.{ℕ, Bool, List, [], ◌∷◌, ◌++◌, Option}
use zenoh_go_client.Codec.Types.{Bytes}
use zenoh_go_client.Wire.Values.{Timestamp, Encoding}
use zenoh_go_client.Wire.Zid.{ZenohId}
use zenoh_go_client.Wire.Data.{PutBody, DelBody}
use zenoh_go_client.Wire.Response.{ErrBody}
use zenoh_go_client.Session.Aliases.{RemoteAliases}
use zenoh_go_client.Session.Matching.{MatchingRegistry, Deliveries}
use zenoh_go_client.Session.Matching.Entry.{Delivery}
use zenoh_go_client.Session.Registries.{Entities, Collectors, InboundTokens}

-- The text of a key; the parsed form is the same text, so it is not kept twice.
pub record PushSample : Type 0 where
  pub key_expr : Bytes
  pub kind : ℕ
  pub payload : Bytes
  pub encoding : Option Encoding
  pub timestamp : Option Timestamp
  pub source_zid : ZenohId

pub record QueryReceived : Type 0 where
  pub request_id : ℕ
  pub key_expr : Bytes
  pub parameters : Bytes
  pub consolidation : ℕ

pub record LivelinessEvent : Type 0 where
  pub key_expr : Bytes
  pub is_alive : Bool

-- Exactly one of the three bodies is there; the parsed key is there where the text is valid.
pub data ReplyContent : Type 0 where
  put : PutBody → ReplyContent
  del : DelBody → ReplyContent
  err : ErrBody → ReplyContent

pub record InboundReply : Type 0 where
  pub key_expr : Bytes
  pub parsed_key_expr : Option Bytes
  pub content : ReplyContent

-- The calls of callbacks: a subscriber's, a queryable's, that of `SetUnmatchedQueryHandler`, a
-- liveliness subscriber's, and a matching listener's.
pub data Event : Type 0 where
  pushed : ℕ → PushSample → Event
  queried : ℕ → QueryReceived → Event
  unmatched : ℕ → Event
  liveliness : ℕ → LivelinessEvent → Event
  matching : ℕ → Delivery → Event

pub record Session : Type 0 where
  pub subs : Entities (Unit {0})
  pub qbls : Entities Bool
  pub gets : Collectors InboundReply
  pub liveliness_subs : Entities (Unit {0})
  pub liveliness_queries : Collectors LivelinessEvent
  pub remote_aliases : RemoteAliases
  pub inbound_tokens : InboundTokens
  pub matching_registry : MatchingRegistry
  pub events : List Event

-- The calls of one dispatch, behind those before.
unfoldable pub emit : Session → List Event → Session
emit s es = record s { events = s.events ++ es }

unfoldable pub push_events : List ℕ → PushSample → List Event
push_events [] sample = []
push_events (id ∷ ids) sample = pushed id sample ∷ push_events ids sample

unfoldable pub query_events : List ℕ → QueryReceived → List Event
query_events [] q = []
query_events (id ∷ ids) q = queried id q ∷ query_events ids q

unfoldable pub liveliness_events : List ℕ → LivelinessEvent → List Event
liveliness_events [] ev = []
liveliness_events (id ∷ ids) ev = liveliness id ev ∷ liveliness_events ids ev

unfoldable pub matching_events : Deliveries → List Event
matching_events [] = []
matching_events ((interest, d) ∷ ds) = matching interest d ∷ matching_events ds
