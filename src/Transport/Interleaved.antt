-- ===== src/Transport/Interleaved.antt =====
-- fragmenter.go into reassembler.go, where fragments of other lanes arrive in between.
use zenoh_go_client.Prelude.{
  ℕ, ◌≤◌, ◌<◌, ◌≡◌, refl, sym, ◌∙◌, Bool, false, List, [], ◌∷◌, ◌++◌, drop, All, none, length,
}
use zenoh_go_client.Codec.Types.{Bytes}
use zenoh_go_client.Codec.Ext.{Extension}
use zenoh_go_client.Wire.Frame.{Fragment}
use zenoh_go_client.Transport.Sn.{normalize_sn_mask}
use zenoh_go_client.Transport.Fragmenter.{Fragmenter, fragment_overhead, Sink, fragment}
use zenoh_go_client.Transport.Fragmenter.Together.{Steps, fragment-Together}
use zenoh_go_client.Transport.Reassembler.{LaneKey, Reassembler, Pushed, cleared, state_of, push}
use zenoh_go_client.Transport.Reassembler.Bounds.{same_lane_refl}
use zenoh_go_client.Transport.Reassembler.Lanes.{
  Arrival, push_all, push_all-caps, on_lane, push_all-on_lane,
}
use zenoh_go_client.Transport.Delivery.{Receiver, receive, fragment-Delivered}

abbrev front : List (List Arrival) → List Arrival
front [] = []
front (gap ∷ gaps) = gap

-- A sink that pushes what arrives in the next gap, and then the fragment.
unfoldable pub receive_among : LaneKey → Sink (Receiver × List (List Arrival)) Pushed
receive_among k ((r, out), gaps) f =
    let (s, e) = receive k ((push_all r (front gaps)).0, out) f in ((s, drop 1 gaps), e)

-- Two receivers that a lane cannot tell apart, and gaps without a fragment of it.
record Alike (k : LaneKey) (s : Receiver) (t : Receiver × List (List Arrival)) : Type 0 where
  same_cap : t.0.0.max_message_size ≡ s.0.max_message_size
  same_mask : t.0.0.sn_mask ≡ s.0.sn_mask
  lane : state_of t.0.0 k ≡ state_of s.0 k
  handed : t.0.1 ≡ s.1
  others : All (λ gap. on_lane k gap ≡ []) t.1

front-others :
    (k : LaneKey) (gaps : List (List Arrival))
    → All (λ gap. on_lane k gap ≡ []) gaps
    → (on_lane k (front gaps) ≡ []) × All (λ gap. on_lane k gap ≡ []) (drop 1 gaps)
unfolding on_lane
front-others k [] h = (refl, tt)
front-others k (gap ∷ gaps) (h, hs) = (h, hs)

receive-Steps :
    (k : LaneKey) (s : Receiver) (u : Receiver) (gaps : List (List Arrival)) (f : Fragment)
    → Alike k s (u, gaps)
    → Steps (Alike k) (receive k s f) (let (v, e) = receive k u f in ((v, gaps), e))
unfolding receive push
receive-Steps k (r, out) (r', out') gaps f h =
    let a = h.same_cap in
    let b = h.same_mask in
    let c = h.lane in
    let d = h.handed in
    rw (a, b, c, d)
      (record {
        error = refl;
        related = record {
          same_cap = refl;
          same_mask = refl;
          lane = rw (same_lane_refl k) refl;
          handed = refl;
          others = h.others;
        };
      })

receive_among-Steps :
    (k : LaneKey) (s : Receiver) (t : Receiver × List (List Arrival)) (f : Fragment)
    → Alike k s t
    → Steps (Alike k) (receive k s f) (receive_among k t f)
unfolding receive_among push_all on_lane
receive_among-Steps k s ((r, out), gaps) f h =
    let (none_here, later) = front-others k gaps h.others in
    let (cap, mask) = push_all-caps (front gaps) r in
    receive-Steps k s ((push_all r (front gaps)).0, out) (drop 1 gaps) f
      (record {
        same_cap = cap ∙ h.same_cap;
        same_mask = mask ∙ h.same_mask;
        lane = (push_all-on_lane r k (front gaps) [] none_here).1 ∙ h.lane;
        handed = h.handed;
        others = later;
      })

-- A message that is not empty and that the receiver has room for, fragmented with a body size above
-- the overhead, on a lane with nothing in flight and under the same sequence number mask, into the
-- reassembler, is handed out once and whole, without an error and with the lane empty, whatever
-- fragments of other lanes are pushed in front of each of its fragments, in order or not.
pub fragment-Interleaved :
    (f : Fragmenter) (msg : Bytes) (reliable : Bool) (sn : ℕ) (exts : List Extension)
    → (k : LaneKey) (r : Reassembler) (out : List Bytes) (gaps : List (List Arrival))
    → fragment_overhead < f.max_body_size
    → normalize_sn_mask f.sn_mask ≡ r.sn_mask
    → (state_of r k).active ≡ false
    → 0 < length msg
    → length msg ≤ r.max_message_size
    → All (λ gap. on_lane k gap ≡ []) gaps
    → let sent = fragment (receive_among k) f msg reliable sn exts ((r, out), gaps) in
      (sent.error ≡ none)
      × (sent.state.0.1 ≡ out ++ (msg ∷ []))
      × (state_of sent.state.0.0 k ≡ cleared)
fragment-Interleaved f msg reliable sn exts k r out gaps big same idle some_left small others =
    let (no_error, handed, empty) =
      fragment-Delivered f msg reliable sn exts k r out big same idle some_left small in
    let both =
      fragment-Together (receive k) (receive_among k) (Alike k) (receive_among-Steps k) reliable
        exts f msg sn (r, out) ((r, out), gaps)
        (record {
          same_cap = refl;
          same_mask = refl;
          lane = refl;
          handed = refl;
          others = others;
        }) in
    (sym both.error ∙ no_error, both.related.handed ∙ handed, both.related.lane ∙ empty)
