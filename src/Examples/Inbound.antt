-- ===== src/Examples/Inbound.antt =====
-- internal/session/reader.go, dispatch.go and the registries: each theorem at an input.
use zenoh_go_client.Prelude.{
  ℕ, ◌≡◌, ◌+◌, refl, true, false, List, [], All, bytes_eq, none, some, if◌then◌else◌, ◌++◌, ◌∷◌,
  take, arith,
}
use zenoh_go_client.Prelude.Maps.{lookup}
use zenoh_go_client.Codec.Types.{Bytes}
use zenoh_go_client.Wire.Zid.{ZenohId}
use zenoh_go_client.Session.Aliases.{no_aliases}
use zenoh_go_client.Session.Registries.{
  Entities, Collectors, register_get, armed, query_done, deliver_reply, deliver_replies,
  finalise_get,
}
use zenoh_go_client.Session.Registries.Laws.{meets, finalise_get-deliver_replies}
use zenoh_go_client.Session.Reader.{InboundDispatch, Reading, going}
use zenoh_go_client.Session.Reader.Frames.{Message, FrameOf}
use zenoh_go_client.Session.State.{Session, Event}
use zenoh_go_client.Session.Dispatch.{full_key, on_push_from_peer}
use zenoh_go_client.Session.Dispatch.Pushed.{calls_of, IsCall, on_push_from_peer-calls}
use zenoh_go_client.KeyExpr.{new, validate, validate_chunks}
use zenoh_go_client.KeyExpr.Text.{
  has_prefix_slash, has_suffix_slash, contains_forbidden, contains, contains_star, split_seq,
  put_front, join_chunks,
}
use zenoh_go_client.Session.Aliases.{resolve_remote_key}
use zenoh_go_client.Wire.Data.{Push}
use zenoh_go_client.Session.Dispatch.Messages.{Sent}
use zenoh_go_client.Transport.Reassembler.{new_reassembler}
use zenoh_go_client.Examples.Network.{key, body}

-- One subscriber to `a/*` and one to `b`.
abbrev entities : Entities (Unit {0})
entities = (1, (b'a' ∷ b'/' ∷ b'*' ∷ [], tt)) ∷ (2, (b'b' ∷ [], tt)) ∷ []

abbrev no_requests : Collectors ℕ
no_requests = record { open_channels = []; closed_channels = [] }

-- Three replies for a buffer of two.
abbrev replies : List ℕ
replies = 7 ∷ 8 ∷ 9 ∷ []

abbrev finalised : Collectors ℕ
finalised = finalise_get (deliver_replies (register_get no_requests 5 2) 5 replies) 5

finalise_get-deliver_replies_example :
    (finalised.closed_channels ≡ (5, record { capacity = 2; buffer = take 2 replies }) ∷ [])
    × (deliver_reply finalised 5 10 ≡ finalised)
    × (finalise_get finalised 5 ≡ finalised)
finalise_get-deliver_replies_example =
    finalise_get-deliver_replies no_requests 5 2 replies 10 (omega arith)

-- A dispatcher that adds up one byte of each message.
abbrev adding : InboundDispatch ℕ
adding h [] s = going s []
adding h (b ∷ r) s = going (s + b) r

abbrev reading : {A : Type 0} → A → Reading A
reading s = record { session = s; reassembler = new_reassembler 1000 0xFFFFFFF; closed = [] }

abbrev message : ℕ → Message ℕ
message b = record { head = 0x1D; tail = b ∷ []; effect = λ s. s + b }

-- Two FRAMEs, on two lanes.
abbrev two_frames : List (FrameOf ℕ)
two_frames =
    record {
      reliable = true;
      seq_num = 300;
      extensions = [];
      messages = message 1 ∷ message 2 ∷ [];
    }
    ∷ record { reliable = false; seq_num = 4; extensions = []; messages = message 3 ∷ [] }
    ∷ []

abbrev session : Session
session = record {
  subs = entities;
  qbls = [];
  gets = record { open_channels = []; closed_channels = [] };
  liveliness_subs = [];
  liveliness_queries = record { open_channels = []; closed_channels = [] };
  remote_aliases = no_aliases;
  inbound_tokens = [];
  matching_registry = [];
  events = [];
}

abbrev pushes : List Sent
pushes = record { key_expr = key; extensions = []; body = body } ∷ []

abbrev peer : ZenohId
peer = record { bytes = 1 ∷ 2 ∷ [] }

-- A PUSH to `a/b`, which is a key of `a/*`.
abbrev to_key : Bytes
to_key = b'a' ∷ b'/' ∷ b'b' ∷ []

abbrev push_to_key : Push
push_to_key = record {
  key_expr = record { scope = 0; suffix = to_key; mapping = false };
  extensions = [];
  body = some body;
}

full_key-session : full_key session push_to_key.key_expr ≡ some to_key
unfolding resolve_remote_key new validate validate_chunks has_prefix_slash has_suffix_slash
    contains_forbidden contains contains_star split_seq put_front join_chunks bytes_eq
full_key-session = refl

on_push_from_peer-calls_example :
    (told : List Event) × (on_push_from_peer push_to_key peer session
      ≡ (record session { events = session.events ++ told }, none))
    × All (IsCall to_key peer body) told
    × (calls_of 1 told ≡ (if meets (lookup 1 session.subs) to_key then 1 else 0))
on_push_from_peer-calls_example =
    on_push_from_peer-calls push_to_key peer session to_key body 1
      (unfold lookup in (refl, (refl, tt))) full_key-session refl

-- Two queryables are done with a query; a counter that is at zero is not the last.
query_done_runs :
    (query_done (armed (1 ∷ 2 ∷ [])) ≡ (some 1, false))
    × (query_done (some 1) ≡ (some 0, true))
    × (query_done (some 0) ≡ (some 0xffff_ffff, false))
    × (query_done none ≡ (none, true))
unfolding query_done armed
query_done_runs = (refl, refl, refl, refl)
