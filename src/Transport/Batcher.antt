-- ===== src/Transport/Batcher.antt =====
-- internal/transport/batcher.go: messages packed into batches, one FRAME per lane at a time, and the
-- lanes of all priorities. The mutex is the order of the calls.
pub mod Bounds
pub mod Safety
use zenoh_go_client.Prelude.{
  ℕ, ◌+◌, Bool, true, false, not, ◌&&◌, ◌||◌, List, [], ◌∷◌, ◌++◌, Option, none, some, length, ltb,
  ◌==◌, bit_and, if◌then◌else◌,
}
use zenoh_go_client.Codec.Types.{Bytes, Error, Written, written, failed, Encoder, ◌>>◌, when}
use zenoh_go_client.Codec.Vle.{encode_z64}
use zenoh_go_client.Codec.Header.{encode_header}
use zenoh_go_client.Codec.Ext.{Extension, new_z64_ext, encode_extension}
use zenoh_go_client.Wire.Ids.{id_transport_frame}
use zenoh_go_client.Wire.Qos.{ext_id_qos, encode_qos_z64, priority_is_valid}
use zenoh_go_client.Wire.Frame.{Fragment, encode_fragment}
use zenoh_go_client.Transport.Sn.{normalize_sn_mask, next_sn}
use zenoh_go_client.Transport.Fragmenter.{FragmentError, Sent, fragment, fragment_overhead}
use zenoh_go_client.Transport.Lane.{
  OutboundMessage, Lane, BatchError, invalid_priority, BatchSink, Step, flush_lane, enqueue_lane,
}

-- The lanes and their seeds by priority and reliability.
pub record Batcher : Type 0 where
  pub batch_size : ℕ
  pub attach_qos : Bool
  pub sn_mask : ℕ
  pub lane_seeds : ℕ → Bool → ℕ
  pub lanes : ℕ → Bool → Option Lane

unfoldable pub new_batcher : ℕ → Bool → ℕ → ℕ → Batcher
new_batcher batch_size attach_qos initial_sn mask = record {
  batch_size = batch_size;
  attach_qos = attach_qos;
  sn_mask = normalize_sn_mask mask;
  lane_seeds = λ p r. initial_sn;
  lanes = λ p r. none;
}

unfoldable pub new_batcher_with_lane_seeds : ℕ → Bool → (ℕ → Bool → ℕ) → ℕ → Batcher
new_batcher_with_lane_seeds batch_size attach_qos seeds mask = record {
  batch_size = batch_size;
  attach_qos = attach_qos;
  sn_mask = normalize_sn_mask mask;
  lane_seeds = seeds;
  lanes = λ p r. none;
}

-- What a call on the batcher leaves.
pub record Done (S E : Type 0) : Type 0 where
  pub batcher : Batcher
  pub state : S
  pub error : Option (BatchError E)

abbrev pub same_bool : Bool → Bool → Bool
same_bool true b = b
same_bool false b = not b

abbrev pub set_lane : Batcher → ℕ → Bool → Lane → Batcher
set_lane b p r l = record b {
  lanes = λ q t. if p == q && same_bool r t then some l else b.lanes q t;
}

-- `laneFor`: the lane of a priority, made from its seed at first use.
unfoldable pub lane_for : Batcher → ℕ → Bool → Lane
lane_for b p r = known (b.lanes (bit_and p 7) r)
  where
    known : Option Lane → Lane
    known (some l) = l
    known none = record {
      priority = bit_and p 7;
      reliable = r;
      seq_num = b.lane_seeds (bit_and p 7) r;
      batch = [];
      body_start = 0;
    }

module _ {S E : Type 0} (sink : BatchSink S E) where
  abbrev pub put_back : Batcher → ℕ → Bool → Step S E → Done S E
  put_back b p r step = record {
    batcher = set_lane b p r step.lane;
    state = step.state;
    error = step.error;
  }

  -- `Enqueue`: the lane is changed in place, also where an error is returned.
  unfoldable pub enqueue : OutboundMessage → Batcher → S → Done S E
  enqueue msg b s =
      if not (priority_is_valid msg.priority)
      then record { batcher = b; state = s; error = some invalid_priority }
      else put_back b (bit_and msg.priority 7) msg.reliable (
          enqueue_lane sink b.batch_size b.attach_qos b.sn_mask msg
            (lane_for b msg.priority msg.reliable) s)

  abbrev pub flush_known : Batcher → ℕ → Bool → S → Option Lane → Done S E
  flush_known b p r s none = record { batcher = b; state = s; error = none }
  flush_known b p r s (some l) =
      put_back b p r (flush_lane sink b.batch_size b.attach_qos b.sn_mask l s)

  abbrev pub unless_failed : Done S E → (Batcher → S → Done S E) → Done S E
  unless_failed done go_on = after done.error
    where
      after : Option (BatchError E) → Done S E
      after (some e) = done
      after none = go_on done.batcher done.state

  -- The two loops of `FlushAll`, over the lanes in their order.
  unfoldable pub flush_lanes : List (ℕ × Bool) → Batcher → S → Done S E
  flush_lanes [] b s = record { batcher = b; state = s; error = none }
  flush_lanes ((p, r) ∷ keys) b s =
      unless_failed (flush_known b p r s (b.lanes p r)) (λ b' s'. flush_lanes keys b' s')

abbrev lanes_of : ℕ → List (ℕ × Bool)
lanes_of p = (p, false) ∷ (p, true) ∷ []

abbrev pub lane_keys : List (ℕ × Bool)
lane_keys =
    lanes_of 0
    ++ (lanes_of 1
        ++ (lanes_of 2
            ++ (lanes_of 3 ++ (lanes_of 4 ++ (lanes_of 5 ++ (lanes_of 6 ++ lanes_of 7))))))

unfoldable pub flush_all : {S E : Type 0} → BatchSink S E → Batcher → S → Done S E
flush_all sink b s = flush_lanes sink lane_keys b s
