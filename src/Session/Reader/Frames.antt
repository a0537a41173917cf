-- ===== src/Session/Reader/Frames.antt =====
-- reader.go: a batch of several FRAMEs hands every message to the dispatcher, in order.
use zenoh_go_client.Prelude.{
  ℕ, zero, suc, ◌≤◌, ◌<◌, ◌^◌, ◌≡◌, refl, sym, ap, ◌∙◌, Bool, true, false, List, [], ◌∷◌, ◌++◌,
  append_assoc, length, length-append, All, ◌==◌, bit_and, Bool-cases, inl, inr, arith,
}
use zenoh_go_client.Codec.Types.{
  Bytes, Error, ok, err, written, Encoder, ◌>>◌, skip, ◌>>=◌, and_then, pure, fail, unexpected_id,
}
use zenoh_go_client.Codec.Buffer.{read_byte}
use zenoh_go_client.Codec.Shrinks.{Shrinks}
use zenoh_go_client.Codec.Header.{Header, hdr_id_mask, decode_header, unpack_header}
use zenoh_go_client.Codec.Ext.{Extension}
use zenoh_go_client.Codec.Ext.HeaderByte.{IsExt}
use zenoh_go_client.Wire.Ids.{id_transport_frame, is_network_message_id}
use zenoh_go_client.Wire.Frame.{after_header, Frame, encode_frame, decode_frame}
use zenoh_go_client.Session.Reader.{
  going, InboundDispatch, Reading, dispatch_one, dispatch_frame_messages, process_loop,
}

-- The next byte, if any, does not start a network message.
abbrev pub IsBoundary : Bytes → Type 0
IsBoundary [] = Unit
IsBoundary (b ∷ r) = is_network_message_id (bit_and b hdr_id_mask) ≡ false

-- A network message as bytes, and what the dispatcher does with it.
pub record Message (S : Type 0) : Type 0 where
  pub head : ℕ
  pub tail : Bytes
  pub effect : S → S

-- A FRAME by its messages.
pub record FrameOf (S : Type 0) : Type 0 where
  pub reliable : Bool
  pub seq_num : ℕ
  pub extensions : List Extension
  pub messages : List (Message S)

module _ {S : Type 0} where
  unfoldable pub body_of : List (Message S) → Bytes
  body_of [] = []
  body_of (m ∷ ms) = (m.head ∷ m.tail) ++ body_of ms

  unfoldable pub effects : List (Message S) → S → S
  effects [] s = s
  effects (m ∷ ms) s = effects ms (m.effect s)

  abbrev pub frame_of : FrameOf S → Frame
  frame_of f = record {
    reliable = f.reliable;
    seq_num = f.seq_num;
    extensions = f.extensions;
    body = body_of f.messages;
  }

  unfoldable pub encode_frames : List (FrameOf S) → Encoder
  encode_frames [] = skip
  encode_frames (f ∷ fs) = encode_frame (frame_of f) >> encode_frames fs

  unfoldable pub all_effects : List (FrameOf S) → S → S
  all_effects [] s = s
  all_effects (f ∷ fs) s = all_effects fs (effects f.messages s)

-- The dispatcher reads this message to its end, whatever follows.
pub record IsMessage {S : Type 0} (dispatch : InboundDispatch S) (m : Message S) : Type 0 where
  pub network : is_network_message_id (bit_and m.head hdr_id_mask) ≡ true
  pub some_body : 1 ≤ length m.tail
  pub consumed :
      (rest : Bytes) (s : S)
      → dispatch (unpack_header m.head) (m.tail ++ rest) s ≡ going (m.effect s) rest

pub record IsFrame {S : Type 0} (dispatch : InboundDispatch S) (f : FrameOf S) : Type 0 where
  pub sn_fits : f.seq_num < 2 ^ 64
  pub exts_fit : All IsExt f.extensions
  pub messages_ok : All (IsMessage dispatch) f.messages

module _ {S : Type 0} (dispatch : InboundDispatch S) where
  dispatch_one-IsMessage :
      (m : Message S) (rest : Bytes) (s : S)
      → IsMessage dispatch m
      → dispatch_one dispatch (unpack_header m.head) (m.tail ++ rest) s ≡ going (m.effect s) rest
  unfolding dispatch_one
  dispatch_one-IsMessage m rest s v =
      let some = v.some_body in
      let shorter : (length rest == length (m.tail ++ rest)) ≡ false =
        ground (arith, length-append m.tail rest) in
      rw (v.consumed rest s, shorter) (ground arith)

  -- The messages of a FRAME's body are dispatched in order, up to the boundary.
  pub dispatch_frame_messages-effects :
      (ms : List (Message S)) (rest : Bytes) (fuel : ℕ) (s : S)
      → All (IsMessage dispatch) ms
      → IsBoundary rest
      → length (body_of ms ++ rest) ≤ fuel
      → dispatch_frame_messages dispatch fuel (body_of ms ++ rest) s ≡ going (effects ms s) rest
  unfolding dispatch_frame_messages body_of effects
  dispatch_frame_messages-effects [] rest zero s vs boundary h = refl
  dispatch_frame_messages-effects [] [] (suc fuel) s vs boundary h = refl
  dispatch_frame_messages-effects [] (b ∷ r) (suc fuel) s vs boundary h = rw (boundary) refl
  dispatch_frame_messages-effects (m ∷ ms) rest zero s vs boundary h = absurd (omega arith)
  dispatch_frame_messages-effects (m ∷ ms) rest (suc fuel) s (v, vs) boundary h =
      let later = dispatch_frame_messages-effects ms rest fuel (m.effect s) vs boundary (
        omega (
          arith,
          ap (λ (b : Bytes). length b) (append_assoc m.tail (body_of ms) rest),
          length-append m.tail (body_of ms ++ rest),
        )) in
      rw (v.network, append_assoc, dispatch_one-IsMessage m (body_of ms ++ rest) s v) later

-- A FRAME starts with its header, which is not a network message's.
record FrameHead (x : Bytes) (v : Frame × Bytes) : Type 0 where
  head : ℕ
  tail : Bytes
  split : x ≡ head ∷ tail
  id : (unpack_header head).id ≡ id_transport_frame
  decodes : decode_frame (unpack_header head) tail ≡ ok v

ok≢err : {A : Type 0} {x : Error} {v : A} → ok v ≡ err x → ⊥
ok≢err h = cc

decode_frame-other :
    (h : Header) (r : Bytes)
    → (h.id == id_transport_frame) ≡ false
    → decode_frame h r ≡ err (unexpected_id h.id)
unfolding decode_frame fail
decode_frame-other h r differ = rw (differ) refl

frame_head : (x : Bytes) (v : Frame × Bytes) → after_header decode_frame x ≡ ok v → FrameHead x v
unfolding ◌>>=◌ and_then decode_header read_byte pure
frame_head [] v h = absurd cc
frame_head (b ∷ r) v h = elim (Bool-cases ((unpack_header b).id == id_transport_frame)) [
  | inl e ↦ record { head = b; tail = r; split = refl; id = ground arith; decodes = h }
  | inr e ↦ absurd (ok≢err (sym h ∙ decode_frame-other (unpack_header b) r e))
]

-- What some frames are on the wire, and that the reader's loop takes them apart.
record Batched {S : Type 0} (dispatch : InboundDispatch S) (fs : List (FrameOf S)) : Type 0 where
  bytes : Bytes
  writes : (w : Bytes) → encode_frames fs w ≡ written (w ++ bytes)
  boundary : IsBoundary bytes
  reads :
      (fuel : ℕ) (st : Reading S)
      → length bytes ≤ fuel
      → process_loop dispatch fuel bytes st
        ≡ going (record st { session = all_effects fs st.session }) []
