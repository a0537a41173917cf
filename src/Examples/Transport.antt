-- ===== src/Examples/Transport.antt =====
-- internal/transport: each theorem at an input.
use zenoh_go_client.Prelude.{◌≤◌, ◌≡◌, refl, true, false, [], ◌∷◌, length, arith, none, some}
use zenoh_go_client.Prelude.{◌++◌, All, sym, subst, List, ◌≤◌}
use zenoh_go_client.Codec.Types.{Bytes}
use zenoh_go_client.Transport.Batcher.{Batcher, new_batcher, enqueue}
use zenoh_go_client.Transport.Lane.{OutboundMessage, BatchSink}
use zenoh_go_client.Transport.Batcher.Safety.{IsBatcher, new_batcher-IsBatcher, enqueue-IsBatcher}
use zenoh_go_client.Transport.Sn.{normalize_sn_mask}
use zenoh_go_client.Transport.Fragmenter.{Fragmenter, fragment}
use zenoh_go_client.Transport.Reassembler.{
  LaneKey, Reassembler, cleared, complete, state_of, push, push_state, accept,
}
use zenoh_go_client.Transport.Reassembler.Lanes.{Arrival, on_lane}
use zenoh_go_client.Transport.Interleaved.{receive_among, fragment-Interleaved}
use zenoh_go_client.Transport.Delivery.{receive, Delivered, fragment-Delivered}

abbrev lane : LaneKey
lane = record { priority = 5; reliable = true }

abbrev other_lane : LaneKey
other_lane = record { priority = 5; reliable = false }

abbrev idle : Reassembler
idle = record { max_message_size = 100; sn_mask = 127; lanes = λ k. none }

-- A lane in the middle of a message.
abbrev busy : Reassembler
busy = record {
  max_message_size = 100;
  sn_mask = 127;
  lanes = λ k. some (record { expected_sn = 0; buf = 1 ∷ 2 ∷ []; active = true });
}

-- Seven bytes in fragments of three, across the wrap of the sequence number.
abbrev fragmenter : Fragmenter
fragmenter = record { max_body_size = 19; sn_mask = 127 }

abbrev message : Bytes
message = 1 ∷ 2 ∷ 3 ∷ 4 ∷ 5 ∷ 6 ∷ 7 ∷ []

fragment-Delivered_example :
    Delivered lane [] message (fragment (receive lane) fragmenter message true 126 [] (idle, []))
fragment-Delivered_example =
    fragment-Delivered fragmenter message true 126 [] lane idle [] (omega arith)
      (unfold normalize_sn_mask in refl) refl (omega arith) (omega arith)

last_push : (push busy lane 0 false (3 ∷ [])).1 ≡ complete (1 ∷ 2 ∷ 3 ∷ [])
unfolding push push_state accept
last_push = refl

-- On the other lane a message starts, skips a number and starts again, between the fragments of this one.
abbrev gaps : List (List Arrival)
gaps =
    (record { lane = other_lane; seq_num = 5; more = true; body = 9 ∷ [] } ∷ [])
    ∷ (record { lane = other_lane; seq_num = 7; more = true; body = 9 ∷ [] }
        ∷ record { lane = other_lane; seq_num = 8; more = true; body = 9 ∷ [] }
        ∷ [])
    ∷ []

gaps-others : All (λ gap. on_lane lane gap ≡ []) gaps
unfolding on_lane
gaps-others = (refl, (refl, tt))

fragment-Interleaved_example :
    let sent = fragment (receive_among lane) fragmenter message true 126 [] ((idle, []), gaps) in
    (sent.error ≡ none) × (sent.state.0.1 ≡ message ∷ []) × (state_of sent.state.0.0 lane ≡ cleared)
fragment-Interleaved_example =
    fragment-Interleaved fragmenter message true 126 [] lane idle [] gaps (omega arith)
      (unfold normalize_sn_mask in refl) refl (omega arith) (omega arith) gaps-others

-- The batches that have reached the sink, and a batcher of sixty-four bytes.
abbrev record_batch : BatchSink (List Bytes) (Unit {0})
record_batch out batch = (out ++ (batch ∷ []), none)

abbrev Small : List Bytes → Type 0
Small out = All (λ batch. length batch ≤ 64) out

record_batch-Small :
    (out : List Bytes) (batch : Bytes)
    → length batch ≤ 64
    → Small out
    → Small (record_batch out batch).0
record_batch-Small [] batch small h = (small, tt)
record_batch-Small (b ∷ out) batch small (hb, h) = (hb, record_batch-Small out batch small h)

abbrev batcher : Batcher
batcher = new_batcher 64 true 126 127

batcher_size : batcher.batch_size ≡ 64
unfolding new_batcher
batcher_size = refl

abbrev express : OutboundMessage
express = record { encoded = message; priority = 5; reliable = true; express = true }

enqueue-IsBatcher_example :
    Small (enqueue record_batch express batcher []).state
    × IsBatcher batcher.batch_size (enqueue record_batch express batcher []).batcher
enqueue-IsBatcher_example =
    enqueue-IsBatcher record_batch Small batcher express []
      (subst
        (λ n.
          (t : List Bytes) (batch : Bytes)
          → length batch ≤ n
          → Small t
          → Small (record_batch t batch).0)
        (sym batcher_size) record_batch-Small)
      (unfold new_batcher in omega arith)
      (unfold new_batcher in new_batcher-IsBatcher 64 true 126 127) tt
