-- ===== src/Examples/Wire.antt =====
-- internal/wire: each theorem at an input.
use zenoh_go_client.Prelude.{true, false, [], ◌∷◌, arith}
use zenoh_go_client.Codec.Carries.{Carries}
use zenoh_go_client.Codec.Ext.{set_more}
use zenoh_go_client.Examples.Codec.{two_exts, two_exts-All}
use zenoh_go_client.Wire.Zid.{ZenohId}
use zenoh_go_client.Wire.Frame.{after_header, Frame, Fragment}
use zenoh_go_client.Wire.Session.{Init, encode_init, decode_init, Open, Join}
use zenoh_go_client.Wire.Session.RoundTrip.{IsIdentity, IsSizeInfo, IsCookie, encode_init-Carries}

abbrev zid : ZenohId
zid = record { bytes = 1 ∷ 2 ∷ 3 ∷ [] }

zid-IsIdentity : IsIdentity zid 1
zid-IsIdentity = record { zid_some = omega arith; zid_fits = omega arith; role_known = omega arith }

sized : IsSizeInfo true 0x0A 65535
sized = record { batch_size_fits = omega arith; absent = λ h. cc }

cookie : IsCookie true (7 ∷ 8 ∷ [])
cookie = record { cookie_fits = omega arith; absent = λ h. cc }

abbrev init_ack : Init
init_ack = record {
  ack = true;
  version = 9;
  zid = zid;
  what_am_i = 1;
  has_size_info = true;
  resolution = 0x0A;
  batch_size = 65535;
  cookie = 7 ∷ 8 ∷ [];
  extensions = two_exts;
}

encode_init-Carries_example :
    Carries
      (encode_init init_ack)
      (after_header decode_init)
      (record init_ack { extensions = set_more two_exts })
encode_init-Carries_example = encode_init-Carries init_ack zid-IsIdentity sized cookie two_exts-All

abbrev open_syn : Open
open_syn = record {
  ack = false;
  lease_seconds = true;
  lease = 10;
  initial_sn = 300;
  cookie = 7 ∷ 8 ∷ [];
  extensions = two_exts;
}

abbrev join : Join
join = record {
  lease_seconds = true;
  has_size_info = true;
  version = 9;
  zid = zid;
  what_am_i = 1;
  resolution = 0x0A;
  batch_size = 65535;
  lease = 10;
  next_sn_rel = 300;
  next_sn_be = 4;
  extensions = two_exts;
}

abbrev frame : Frame
frame = record { reliable = true; seq_num = 300; extensions = two_exts; body = 1 ∷ 2 ∷ [] }

abbrev fragment : Fragment
fragment = record {
  reliable = true;
  more = true;
  seq_num = 300;
  extensions = two_exts;
  body = 1 ∷ 2 ∷ [];
}
