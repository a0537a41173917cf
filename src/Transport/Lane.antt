-- ===== src/Transport/Lane.antt =====
-- internal/transport/batcher.go: what the batcher does with one lane. The sink is a function on the
-- caller's state that may refuse a batch.
use zenoh_go_client.Prelude.{
  ℕ, ◌+◌, Bool, true, false, not, ◌&&◌, ◌||◌, [], ◌∷◌, ◌++◌, Option, none, some, length, ltb, ◌==◌,
  if◌then◌else◌,
}
use zenoh_go_client.Codec.Types.{Bytes, Error, Written, written, failed, Encoder, ◌>>◌, when}
use zenoh_go_client.Codec.Vle.{encode_z64}
use zenoh_go_client.Codec.Header.{encode_header}
use zenoh_go_client.Codec.Ext.{Extension, new_z64_ext, encode_extension}
use zenoh_go_client.Wire.Ids.{id_transport_frame}
use zenoh_go_client.Wire.Qos.{ext_id_qos, encode_qos_z64}
use zenoh_go_client.Wire.Frame.{Fragment, encode_fragment}
use zenoh_go_client.Transport.Sn.{next_sn}
use zenoh_go_client.Transport.Fragmenter.{FragmentError, Sent, fragment, fragment_overhead}

pub record OutboundMessage : Type 0 where
  pub encoded : Bytes
  pub priority : ℕ
  pub reliable : Bool
  pub express : Bool

pub record Lane : Type 0 where
  pub priority : ℕ
  pub reliable : Bool
  pub seq_num : ℕ
  pub batch : Bytes
  pub body_start : ℕ

-- Why the sink of the fragmenter refuses, and why a call on the batcher fails.
pub data SendError (E : Type 0) : Type 0 where
  encode_failed : Error → SendError E
  sink_failed : E → SendError E

pub data BatchError (E : Type 0) : Type 0 where
  invalid_priority : BatchError E
  send_failed : SendError E → BatchError E
  fragment_failed : FragmentError (SendError E) → BatchError E

abbrev pub BatchSink : Type 0 → Type 0 → Type 0
BatchSink S E = S → Bytes → S × Option E

-- What a call on a lane leaves: the lane, the caller's state behind the sink, and the error.
pub record Step (S E : Type 0) : Type 0 where
  pub lane : Lane
  pub state : S
  pub error : Option (BatchError E)

abbrev pub is_empty : Bytes → Bool
is_empty [] = true
is_empty (b ∷ bs) = false

abbrev pub qos_ext : ℕ → Extension
qos_ext priority = new_z64_ext ext_id_qos true (
    encode_qos_z64
      (record { priority = priority; dont_drop = false; express = false; dont_drop_first = false }))

-- The head of a FRAME, as `openFrame` writes it.
unfoldable pub frame_head : Bool → Lane → Encoder
frame_head attach_qos l =
    encode_header (record { id = id_transport_frame; f1 = l.reliable; f2 = false; z = attach_qos })
    >> (encode_z64 l.seq_num >> when attach_qos (encode_extension (qos_ext l.priority)))

module _ {S E : Type 0} (sink : BatchSink S E) (batch_size : ℕ) (attach_qos : Bool)
    (sn_mask : ℕ) where
  abbrev pub lane_then : Step S E → (Lane → S → Step S E) → Step S E
  lane_then step go_on = after step.error
    where
      after : Option (BatchError E) → Step S E
      after (some e) = step
      after none = go_on step.lane step.state

  abbrev pub emptied : Lane → Lane
  emptied l = record l { batch = []; body_start = 0 }

  abbrev flushed : Lane → S × Option E → Step S E
  flushed l (s, none) = record { lane = l; state = s; error = none }
  flushed l (s, some e) = record { lane = l; state = s; error = some (send_failed (sink_failed e)) }

  -- `flushLocked`: the sequence number advances whether or not the sink fails.
  unfoldable pub flush_lane : Lane → S → Step S E
  flush_lane l s =
      let sent =
        flushed (emptied (record l { seq_num = next_sn sn_mask l.seq_num })) (sink s l.batch) in
      if is_empty l.batch || length l.batch == l.body_start
      then record { lane = emptied l; state = s; error = none }
      else sent

  abbrev opened : Lane → Written → S → Step S E
  opened l (written w) s = record {
    lane = record l { batch = w; body_start = length w };
    state = s;
    error = none;
  }
  opened l (failed x w) s = record {
    lane = record l { batch = [] };
    state = s;
    error = some (send_failed (encode_failed x));
  }

  unfoldable pub open_frame : Lane → S → Step S E
  open_frame l s = opened l (frame_head attach_qos l []) s

  unfoldable pub append_to_lane : Bytes → Lane → S → Step S E
  append_to_lane body l s =
      lane_then
        (if is_empty l.batch then open_frame l s else record { lane = l; state = s; error = none })
        (λ l' s'. record {
          lane = record l' { batch = l'.batch ++ body };
          state = s';
          error = none;
        })

  abbrev sent_fragment : S → Written → S × Option (SendError E)
  sent_fragment s (failed x w) = (s, some (encode_failed x))
  sent_fragment s (written w) = let (s', e) = sink s w in (s', wrapped e)
    where
      wrapped : Option E → Option (SendError E)
      wrapped none = none
      wrapped (some e) = some (sink_failed e)

  -- The callback that `fragmentLocked` gives to the fragmenter.
  unfoldable pub fragment_sink : S → Fragment → S × Option (SendError E)
  fragment_sink s f = sent_fragment s (encode_fragment f [])

  abbrev fragment_step : Lane → Sent S (SendError E) → Step S E
  fragment_step l sent = record {
    lane = record l { seq_num = sent.next };
    state = sent.state;
    error = wrapped sent.error;
  }
    where
      wrapped : Option (FragmentError (SendError E)) → Option (BatchError E)
      wrapped none = none
      wrapped (some e) = some (fragment_failed e)

  unfoldable pub fragment_lane : Bytes → Lane → S → Step S E
  fragment_lane msg l s = fragment_step l (
      fragment fragment_sink (record { max_body_size = batch_size; sn_mask = sn_mask }) msg
        l.reliable l.seq_num (if attach_qos then qos_ext l.priority ∷ [] else []) s)

  -- `Enqueue` behind the choice of the lane. `len > batchSize - overhead` on Go's int.
  unfoldable pub enqueue_lane : OutboundMessage → Lane → S → Step S E
  enqueue_lane msg l s =
      let flush = flush_lane l s in
      let size = length msg.encoded in
      if ltb batch_size (size + fragment_overhead)
      then lane_then flush (fragment_lane msg.encoded)
      else if msg.express
      then lane_then (lane_then flush (append_to_lane msg.encoded)) flush_lane
      else if not (is_empty l.batch) && ltb batch_size (length l.batch + size)
      then lane_then flush (append_to_lane msg.encoded)
      else append_to_lane msg.encoded l s
