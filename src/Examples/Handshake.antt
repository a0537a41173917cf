-- ===== src/Examples/Handshake.antt =====
-- internal/session/handshake.go and handshake_responder.go: the agreement at an input.
use zenoh_go_client.Prelude.{ℕ, ◌≡◌, true, [], ◌∷◌, some, arith}
use zenoh_go_client.Codec.Types.{Bytes}
use zenoh_go_client.Session.Handshake.{HandshakeConfig, AcceptConfig, HandshakeResult, done}
use zenoh_go_client.Session.Handshake.Sides.{do_handshake, do_handshake_responder, converse}
use zenoh_go_client.Session.Handshake.Agreement.{AreParties, Agreed, do_handshake-Agreed}

-- A digest for the run.
abbrev digest : Bytes → ℕ
digest b = 12345

abbrev client : HandshakeConfig
client = record {
  zid = record { bytes = 1 ∷ 2 ∷ 3 ∷ [] };
  what_am_i = 2;
  batch_size = 65535;
  lease_millis = 10000;
  resolution = 0x0A;
  enable_qos = true;
}

abbrev router : AcceptConfig
router = record {
  zid = record { bytes = 4 ∷ 5 ∷ [] };
  what_am_i = 0;
  batch_size = 2048;
  lease_millis = 5000;
  resolution = 0x05;
  enable_qos = true;
}

parties : AreParties digest client router (7 ∷ 8 ∷ [])
parties = record {
  initiator = record {
    identity = record { zid_some = omega arith; zid_fits = omega arith; role_known = omega arith };
    batch_some = omega arith;
    batch_fits = omega arith;
    lease_some = omega arith;
    lease_fits = omega arith;
  };
  responder = record {
    identity = record { zid_some = omega arith; zid_fits = omega arith; role_known = omega arith };
    batch_some = omega arith;
    batch_fits = omega arith;
    lease_some = omega arith;
    lease_fits = omega arith;
  };
  others = λ e. cc;
  cookie_fits = omega arith;
  digest_fits = λ d. omega arith;
}

do_handshake-Agreed_example :
    (r : HandshakeResult) × (s : HandshakeResult) × (converse 3
        (do_handshake digest client)
        (do_handshake_responder digest router (some (7 ∷ 8 ∷ [])))
        []
      ≡ (done r, done s))
    × Agreed client router r s
do_handshake-Agreed_example = do_handshake-Agreed digest client router (7 ∷ 8 ∷ []) parties
