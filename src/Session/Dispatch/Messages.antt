-- ===== src/Session/Dispatch/Messages.antt =====
-- dispatch.go: an encoded PUSH, read by the reader and dispatched, reaches the subscribers.
use zenoh_go_client.Prelude.{◌≡◌, List, [], ◌∷◌, ◌++◌, All, some}
use zenoh_go_client.Codec.Types.{Bytes, written, Encoder, skip, ◌>>◌}
use zenoh_go_client.Codec.Carries.{Carries}
use zenoh_go_client.Codec.Header.{Header}
use zenoh_go_client.Codec.Ext.{Extension, set_more}
use zenoh_go_client.Codec.Ext.HeaderByte.{IsExt}
use zenoh_go_client.Wire.Zid.{ZenohId}
use zenoh_go_client.Wire.Values.{WireExpr, IsWireExpr}
use zenoh_go_client.Wire.Data.{PushBody, Push, encode_push, IsPushBody, arrived_body}
use zenoh_go_client.Session.Reader.Frames.{Message, IsMessage, body_of, effects}
use zenoh_go_client.Wire.Starts.{Starts}
use zenoh_go_client.Session.State.{Session}
use zenoh_go_client.Session.Dispatch.{on_push_from_peer, network_dispatcher_for_peer}

-- A PUSH with a body, and what the wire can hold of it.
pub record Sent : Type 0 where
  pub key_expr : WireExpr
  pub extensions : List Extension
  pub body : PushBody

pub record IsSent (p : Sent) : Type 0 where
  pub key_fits : IsWireExpr p.key_expr
  pub exts_fit : All IsExt p.extensions
  pub body_fits : IsPushBody p.body

abbrev pub push_of : Sent → Push
push_of p = record { key_expr = p.key_expr; extensions = p.extensions; body = some p.body }

-- The PUSH as it arrives.
abbrev pub arrived_push : Sent → Push
arrived_push p = record {
  key_expr = p.key_expr;
  extensions = set_more p.extensions;
  body = some (arrived_body p.body);
}

unfoldable pub encode_pushes : List Sent → Encoder
encode_pushes [] = skip
encode_pushes (p ∷ ps) = encode_push (push_of p) >> encode_pushes ps

-- The handler on one PUSH after the other.
unfoldable pub receive_pushes : ZenohId → List Sent → Session → Session
receive_pushes peer [] s = s
receive_pushes peer (p ∷ ps) s =
    receive_pushes peer ps (on_push_from_peer (arrived_push p) peer s).0

-- The messages of some PUSHes, and their bytes.
record Messages (peer : ZenohId) (ps : List Sent) : Type 0 where
  messages : List (Message Session)
  ok_messages : All (IsMessage (network_dispatcher_for_peer peer)) messages
  writes : (w : Bytes) → encode_pushes ps w ≡ written (w ++ body_of messages)
  effects_are : (s : Session) → effects messages s ≡ receive_pushes peer ps s
