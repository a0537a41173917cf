-- ===== src/Transport/Batcher/Bounds.antt =====
-- batcher.go: every batch that reaches the sink is within the batch size.
use zenoh_go_client.Prelude.{
  ℕ, ◌+◌, ◌-◌, ◌≤◌, ◌<◌, ◌≡◌, refl, sym, subst, Bool, true, false, not, ◌&&◌, ◌||◌, List, [], ◌∷◌,
  length, length-append, ltb, ◌==◌, if◌then◌else◌, Bool-cases, Option-cases, inl, inr, arith,
}
use zenoh_go_client.Codec.Types.{Bytes, when}
use zenoh_go_client.Codec.Within.{
  Within, Within->>, Within-le, Within-skip, Within-append_byte, Within-append_bytes,
  Within-encode_header, Within-when, Within-encode_z64, Within-small,
}
use zenoh_go_client.Codec.Ext.{
  Extension, new_z64_ext, encode_extension, encode_ext_body, encode_extensions, non_empty,
  with_more,
}
use zenoh_go_client.Wire.Qos.{Qos, encode_qos_z64, decode_qos_z64-encode_qos_z64}
use zenoh_go_client.Wire.Frame.{Fragment, encode_fragment}
use zenoh_go_client.Transport.Fragmenter.{fragment_overhead}
use zenoh_go_client.Transport.Fragmenter.Sink.{fragment-P}
use zenoh_go_client.Transport.Lane.{
  OutboundMessage, Lane, BatchSink, Step, qos_ext, frame_head, lane_then, is_empty, flush_lane,
  open_frame, append_to_lane, fragment_sink, fragment_lane, enqueue_lane,
}

abbrev lane_qos : ℕ → Qos
lane_qos p = record { priority = p; dont_drop = false; express = false; dont_drop_first = false }

Within-qos_ext :
    (more : Bool) (p : ℕ) → p < 8 → Within 2 (encode_extension (with_more more (qos_ext p)))
unfolding encode_extension encode_ext_body new_z64_ext
Within-qos_ext more p h =
    let small : encode_qos_z64 (lane_qos p) < 64 =
      (decode_qos_z64-encode_qos_z64 (lane_qos p) h).1 in
    Within->> {m = 1} {n = 1} (Within-append_byte _)
      (Within-small (encode_qos_z64 (lane_qos p)) (omega arith))

qos_more : (p : ℕ) → with_more false (qos_ext p) ≡ qos_ext p
unfolding new_z64_ext
qos_more p = refl

pub Within-frame_head :
    (attach : Bool) (l : Lane) → l.priority < 8 → Within 12 (frame_head attach l)
unfolding frame_head
Within-frame_head attach l h =
    let ext =
      subst (λ e. Within 2 (encode_extension e)) (qos_more l.priority)
        (Within-qos_ext false l.priority h) in
    Within->> {m = 1} {n = 11} (Within-encode_header _)
      (Within->> {m = 9} {n = 2} (Within-encode_z64 l.seq_num) (Within-when 2 attach _ ext))

Within-exts :
    (attach : Bool) (p : ℕ) (exts : List Extension)
    → p < 8
    → exts ≡ (if attach then qos_ext p ∷ [] else [])
    → Within 2 (when (non_empty exts) (encode_extensions exts))
Within-exts true p exts h e =
    subst (λ x. Within 2 (when (non_empty x) (encode_extensions x))) (sym e)
      (unfold encode_extensions when in
        Within->> {m = 2} {n = 0} (Within-qos_ext false p h) Within-skip)
Within-exts false p exts h e =
    subst (λ x. Within 2 (when (non_empty x) (encode_extensions x))) (sym e)
      (Within-le {m = 0} (omega arith) (unfold when in Within-skip))

Within-fragment :
    (f : Fragment) (attach : Bool) (p : ℕ)
    → p < 8
    → f.extensions ≡ (if attach then qos_ext p ∷ [] else [])
    → Within (12 + length f.body) (encode_fragment f)
unfolding encode_fragment
Within-fragment f attach p h e = Within-le {m = 1 + (9 + (2 + length f.body))} (omega arith) (
    Within->> (Within-encode_header _) (
      Within->> (Within-encode_z64 f.seq_num)
        (Within->> (Within-exts attach p f.extensions h e) (Within-append_bytes f.body))))

-- A message that need not wait for a flush fits what is in the batch.
room :
    (batch_size : ℕ) (batch : Bytes) (size : ℕ)
    → size + fragment_overhead ≤ batch_size
    → (not (is_empty batch) && ltb batch_size (length batch + size)) ≡ false
    → length batch + size ≤ batch_size
room batch_size [] size alone h = omega arith
room batch_size (b ∷ batch) size alone h = ground arith

-- What the batcher keeps of a lane: its priority has three bits and its batch is within the size.
abbrev pub IsLane : ℕ → Lane → Type 0
IsLane batch_size l = (l.priority < 8) × (length l.batch ≤ batch_size)

module _ {S E : Type 0} (sink : BatchSink S E) (batch_size : ℕ) (attach : Bool) (mask : ℕ)
    (P : S → Type 0)
    (keeps : (s : S) (b : Bytes) → length b ≤ batch_size → P s → P (sink s b).0) where
  -- A call kept the property of the sink's state and the lane.
  abbrev pub Kept : Step S E → Type 0
  Kept step = P step.state × IsLane batch_size step.lane

  lane_then-Kept :
      (step : Step S E) (go_on : Lane → S → Step S E)
      → Kept step
      → Kept (go_on step.lane step.state)
      → Kept (lane_then sink batch_size attach mask step go_on)
  lane_then-Kept step go_on h f = elim (Option-cases step.error) [
    | inl e ↦ rw (e) f
    | inr (x, e) ↦ rw (e) h
  ]

  pub flush_lane-Kept :
      (l : Lane) (s : S)
      → IsLane batch_size l
      → P s
      → Kept (flush_lane sink batch_size attach mask l s)
        × ((flush_lane sink batch_size attach mask l s).lane.batch ≡ [])
  unfolding flush_lane
  flush_lane-Kept l s hl hs =
      elim (Bool-cases (is_empty l.batch || length l.batch == l.body_start)) [
        | inl e ↦ rw (e) ((hs, (hl.0, omega arith)), refl)
        | inr e ↦ elim (Option-cases (sink s l.batch).1) [
          | inl f ↦ rw (e, f) ((keeps s l.batch hl.1 hs, (hl.0, omega arith)), refl)
          | inr (x, f) ↦ rw (e, f) ((keeps s l.batch hl.1 hs, (hl.0, omega arith)), refl)
        ]
      ]

  append_to_lane-Kept :
      (body : Bytes) (l : Lane) (s : S)
      → IsLane batch_size l
      → length l.batch + length body ≤ batch_size
      → length body + fragment_overhead ≤ batch_size
      → P s
      → Kept (append_to_lane sink batch_size attach mask body l s)
  unfolding append_to_lane open_frame
  append_to_lane-Kept body l s hl fits alone hs =
      let (head, we, le) = (Within-frame_head attach l hl.0).runs [] in
      elim (Bool-cases (is_empty l.batch)) [
        | inl e ↦ rw (e, we) (hs, (hl.0, omega (arith, length-append head body)))
        | inr e ↦ rw (e) (hs, (hl.0, omega (arith, length-append l.batch body)))
      ]

  fragment_sink-P :
      (p : ℕ) (t : S) (f : Fragment)
      → p < 8
      → fragment_overhead ≤ batch_size
      → length f.body ≤ batch_size - fragment_overhead
      → f.extensions ≡ (if attach then qos_ext p ∷ [] else [])
      → P t
      → P (fragment_sink sink batch_size attach mask t f).0
  unfolding fragment_sink
  fragment_sink-P p t f hp big small e ht =
      let (out, we, le) = (Within-fragment f attach p hp e).runs [] in
      let fits : length out ≤ batch_size = omega arith in rw (we) (keeps t out fits ht)

  fragment_lane-Kept :
      (msg : Bytes) (l : Lane) (s : S)
      → fragment_overhead ≤ batch_size
      → IsLane batch_size l
      → P s
      → Kept (fragment_lane sink batch_size attach mask msg l s)
  unfolding fragment_lane
  fragment_lane-Kept msg l s big hl hs = (
    fragment-P (fragment_sink sink batch_size attach mask) l.reliable
        (if attach then qos_ext l.priority ∷ [] else []) P
        (record { max_body_size = batch_size; sn_mask = mask }) msg l.seq_num s
        (λ t f small e ht. fragment_sink-P l.priority t f hl.0 big small e ht) hs,
    hl,
  )

  pub enqueue_lane-Kept :
      (msg : OutboundMessage) (l : Lane) (s : S)
      → fragment_overhead ≤ batch_size
      → IsLane batch_size l
      → P s
      → Kept (enqueue_lane sink batch_size attach mask msg l s)
  unfolding enqueue_lane
  enqueue_lane-Kept msg l s big hl hs =
      let flush = flush_lane sink batch_size attach mask l s in
      let (kept, empty) = flush_lane-Kept l s hl hs in
      elim (Bool-cases (ltb batch_size (length msg.encoded + fragment_overhead))) [
        | inl e ↦ rw (e) (
            lane_then-Kept flush (fragment_lane sink batch_size attach mask msg.encoded) kept
              (fragment_lane-Kept msg.encoded flush.lane flush.state big kept.1 kept.0))
        | inr e ↦
            let alone : length msg.encoded + fragment_overhead ≤ batch_size = ground arith in
            let fresh =
              append_to_lane-Kept msg.encoded flush.lane flush.state kept.1
                (rw (empty) (omega arith)) alone kept.0 in
            let append = append_to_lane sink batch_size attach mask msg.encoded in
            let appended = lane_then-Kept flush append kept fresh in
            let queued = lane_then sink batch_size attach mask flush append in
            elim (Bool-cases msg.express) [
              | inl x ↦
                  rw (e, x)
                    (lane_then-Kept queued (flush_lane sink batch_size attach mask) appended
                      (flush_lane-Kept queued.lane queued.state appended.1 appended.0).0)
              | inr x ↦
                  elim (Bool-cases (
                    not (is_empty l.batch)
                    && ltb batch_size (length l.batch + length msg.encoded))) [
                      | inl y ↦ rw (e, x, y) appended
                      | inr y ↦
                          rw (e, x, y)
                            (append_to_lane-Kept msg.encoded l s hl
                              (room batch_size l.batch (length msg.encoded) alone y) alone hs)
                    ]
            ]
      ]
