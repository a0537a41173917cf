-- ===== src/Session/Registries.antt =====
-- internal/session/subscriber.go, queryable.go, liveliness.go and get_collector.go: the local entities
-- and the requests in flight. The mutexes are the order of the calls. A callback is known by the ID
-- that it is registered under, and a call of it is an element of the list that a dispatch returns.
pub mod Laws
use zenoh_go_client.Prelude.{
  ℕ, zero, suc, ◌+◌, ◌-◌, ◌%◌, ◌^◌, Bool, true, false, List, [], ◌∷◌, ◌++◌, length, Option, none,
  some, ◌==◌, ltb, if◌then◌else◌,
}
use zenoh_go_client.Prelude.Maps.{lookup, put, delete}
use zenoh_go_client.Codec.Types.{Bytes}
use zenoh_go_client.KeyExpr.{intersects}

-- Subscribers, liveliness subscribers and queryables by their ID; a queryable has its `complete` flag.
abbrev pub Entities : Type 0 → Type 0
Entities A = List (ℕ × (Bytes × A))

module _ {A : Type 0} where
  unfoldable pub register : Entities A → ℕ → Bytes → A → Entities A
  register reg id ke a = put id (ke, a) reg

  unfoldable pub unregister : Entities A → ℕ → Entities A
  unregister reg id = delete id reg

  -- The loop of the dispatchers: whom the message reaches.
  unfoldable pub reached : Entities A → Bytes → List ℕ
  reached [] ke = []
  reached ((id, (own, a)) ∷ reg) ke =
      let rest = reached reg ke in if intersects own ke then id ∷ rest else rest

unfoldable pub register_subscriber : Entities (Unit {0}) → ℕ → Bytes → Entities (Unit {0})
register_subscriber reg id ke = register reg id ke tt

unfoldable pub unregister_subscriber : Entities (Unit {0}) → ℕ → Entities (Unit {0})
unregister_subscriber reg id = unregister reg id

unfoldable pub register_liveliness_subscriber :
    Entities (Unit {0}) → ℕ → Bytes → Entities (Unit {0})
register_liveliness_subscriber reg id ke = register reg id ke tt

unfoldable pub unregister_liveliness_subscriber : Entities (Unit {0}) → ℕ → Entities (Unit {0})
unregister_liveliness_subscriber reg id = unregister reg id

unfoldable pub register_queryable : Entities Bool → ℕ → Bytes → Bool → Entities Bool
register_queryable reg id ke is_complete = register reg id ke is_complete

unfoldable pub unregister_queryable : Entities Bool → ℕ → Entities Bool
unregister_queryable reg id = unregister reg id

-- `dispatchQuery`: the queryables that it reaches, and their number.
unfoldable pub dispatch_query : Entities Bool → Bytes → List ℕ × ℕ
dispatch_query reg ke = let ids = reached reg ke in (ids, length ids)

-- The shared counter of a query that some queryables are reached by: an int32 in two's complement.
unfoldable pub armed : List ℕ → Option ℕ
armed [] = none
armed (id ∷ ids) = some (length (id ∷ ids) % 2 ^ 32)

-- `QueryDone`: the counter after it, if there is one, and whether it was the last.
unfoldable pub query_done : Option ℕ → Option ℕ × Bool
query_done none = (none, true)
query_done (some remaining) =
    let after = (remaining + (2 ^ 32 - 1)) % 2 ^ 32 in (some after, after == 0)

-- The keys of the tokens that the router has forwarded.
abbrev pub InboundTokens : Type 0
InboundTokens = List (ℕ × Bytes)

unfoldable pub remember_inbound_token : InboundTokens → ℕ → Bytes → InboundTokens
remember_inbound_token reg id key = put id key reg

unfoldable pub forget_inbound_token : InboundTokens → ℕ → InboundTokens × Option Bytes
forget_inbound_token reg id = (delete id reg, lookup id reg)

unfoldable pub reset_inbound_tokens : InboundTokens → InboundTokens
reset_inbound_tokens reg = []

-- A buffered channel, the oldest element first.
pub record Channel (A : Type 0) : Type 0 where
  pub capacity : ℕ
  pub buffer : List A

-- The requests in flight, and the channels that are closed, with what is left in them.
pub record Collectors (A : Type 0) : Type 0 where
  pub open_channels : List (ℕ × Channel A)
  pub closed_channels : List (ℕ × Channel A)

module _ {A : Type 0} where
  -- A size of zero, or below, is sixteen.
  unfoldable pub register_get : Collectors A → ℕ → ℕ → Collectors A
  register_get reg id size = record reg {
    open_channels =
        put id (record { capacity = if size == 0 then 16 else size; buffer = [] })
          reg.open_channels;
  }

  -- The send that does not block.
  unfoldable pub offer : Channel A → A → Channel A
  offer c a =
      if ltb (length c.buffer) c.capacity then record c { buffer = c.buffer ++ (a ∷ []) } else c

  unfoldable pub deliver_reply : Collectors A → ℕ → A → Collectors A
  deliver_reply reg id a = delivered (lookup id reg.open_channels)
    where
      delivered : Option (Channel A) → Collectors A
      delivered none = reg
      delivered (some c) = record reg { open_channels = put id (offer c a) reg.open_channels }

  unfoldable pub finalise_get : Collectors A → ℕ → Collectors A
  finalise_get reg id = finalised (lookup id reg.open_channels)
    where
      finalised : Option (Channel A) → Collectors A
      finalised none = reg
      finalised (some c) = record {
        open_channels = delete id reg.open_channels;
        closed_channels = (id, c) ∷ reg.closed_channels;
      }

  unfoldable pub cancel_all_gets : Collectors A → Collectors A
  cancel_all_gets reg = record {
    open_channels = [];
    closed_channels = reg.open_channels ++ reg.closed_channels;
  }

  -- The replies of one request, one after the other.
  unfoldable pub deliver_replies : Collectors A → ℕ → List A → Collectors A
  deliver_replies reg id [] = reg
  deliver_replies reg id (a ∷ rest) = deliver_replies (deliver_reply reg id a) id rest

  -- The same for a liveliness Get, under the ID of its INTEREST.
  unfoldable pub register_liveliness_query : Collectors A → ℕ → ℕ → Collectors A
  register_liveliness_query reg id size = register_get reg id size

  unfoldable pub deliver_liveliness_reply : Collectors A → ℕ → A → Collectors A
  deliver_liveliness_reply reg id a = deliver_reply reg id a

  unfoldable pub finalise_liveliness_query : Collectors A → ℕ → Collectors A
  finalise_liveliness_query reg id = finalise_get reg id

  -- The IDs are collected first, and then each is finalised.
  unfoldable pub finalise_each : List (ℕ × Channel A) → Collectors A → Collectors A
  finalise_each [] reg = reg
  finalise_each ((id, c) ∷ ids) reg = finalise_each ids (finalise_liveliness_query reg id)

  unfoldable pub cancel_all_liveliness_queries : Collectors A → Collectors A
  cancel_all_liveliness_queries reg = finalise_each reg.open_channels reg
