-- ===== src/Transport/Reassembler.antt =====
-- internal/transport/reassembler.go: the fragments of each lane put together again.
pub mod Bounds
pub mod Lanes
use zenoh_go_client.Prelude.{
  ℕ, ◌+◌, ◌≤◌, ◌<◌, ◌≡◌, ◌≢◌, refl, Bool, true, false, not, ◌&&◌, List, [], ◌∷◌, ◌++◌, Option, none,
  some, length, ltb, ◌==◌, if◌then◌else◌, arith,
}
use zenoh_go_client.Codec.Types.{Bytes}
use zenoh_go_client.Codec.Ext.{Extension, find_ext, ext_enc_z64}
use zenoh_go_client.Wire.Qos.{ext_id_qos, qos_priority_data, decode_qos_z64}
use zenoh_go_client.Transport.Sn.{normalize_sn_mask, next_sn}

pub record LaneKey : Type 0 where
  pub priority : ℕ
  pub reliable : Bool

abbrev pub same_bool : Bool → Bool → Bool
same_bool true b = b
same_bool false b = not b

abbrev pub same_lane : LaneKey → LaneKey → Bool
same_lane k l = k.priority == l.priority && same_bool k.reliable l.reliable

-- `LanePriorityFromExts`
abbrev priority_of : Option Extension → ℕ
priority_of none = qos_priority_data
priority_of (some e) =
    if e.header.encoding == ext_enc_z64 then (decode_qos_z64 e.z64).priority else qos_priority_data

unfoldable pub lane_priority_from_exts : List Extension → ℕ
lane_priority_from_exts exts = priority_of (find_ext exts ext_id_qos)

pub record ReassemblyState : Type 0 where
  pub expected_sn : ℕ
  pub buf : Bytes
  pub active : Bool

pub record Reassembler : Type 0 where
  pub max_message_size : ℕ
  pub sn_mask : ℕ
  pub lanes : LaneKey → Option ReassemblyState

unfoldable pub new_reassembler : ℕ → ℕ → Reassembler
new_reassembler max mask = record {
  max_message_size = max;
  sn_mask = normalize_sn_mask mask;
  lanes = λ k. none;
}

-- `r.clear`, and the zero value of the state.
abbrev pub cleared : ReassemblyState
cleared = record { expected_sn = 0; buf = []; active = false }

-- What `Push` returns: a message, nothing yet, or one of its two errors.
pub data Pushed : Type 0 where
  complete : Bytes → Pushed
  pending sn_gap too_large : Pushed

-- A lane that is not in the map starts from the zero value.
abbrev pub present : Option ReassemblyState → ReassemblyState
present none = cleared
present (some st) = st

abbrev pub state_of : Reassembler → LaneKey → ReassemblyState
state_of r k = present (r.lanes k)

abbrev pub set_lane : Reassembler → LaneKey → ReassemblyState → Reassembler
set_lane r k st = record r { lanes = λ l. if same_lane k l then some st else r.lanes l }

-- `Push` behind the check of the sequence number.
unfoldable pub accept : ℕ → ℕ → Bytes → ℕ → Bool → Bytes → ReassemblyState × Pushed
accept max mask buf sn more body =
    if ltb max (length buf + length body)
    then (cleared, too_large)
    else if more
    then (record { expected_sn = next_sn mask sn; buf = buf ++ body; active = true }, pending)
    else (cleared, complete (buf ++ body))

-- `Push` on the state of the lane.
unfoldable pub push_state : ℕ → ℕ → ReassemblyState → ℕ → Bool → Bytes → ReassemblyState × Pushed
push_state max mask st sn more body =
    if not st.active
    then accept max mask [] sn more body
    else if not (sn == st.expected_sn)
    then (cleared, sn_gap)
    else accept max mask st.buf sn more body

unfoldable pub push : Reassembler → LaneKey → ℕ → Bool → Bytes → Reassembler × Pushed
push r k sn more body =
    let (st, res) = push_state r.max_message_size r.sn_mask (state_of r k) sn more body in
    (set_lane r k st, res)

abbrev clear_known : Reassembler → LaneKey → Option ReassemblyState → Reassembler
clear_known r k none = r
clear_known r k (some st) = set_lane r k cleared

unfoldable pub clear : Reassembler → LaneKey → Reassembler
clear r k = clear_known r k (r.lanes k)
