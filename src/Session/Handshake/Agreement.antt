-- ===== src/Session/Handshake/Agreement.antt =====
-- handshake.go and handshake_responder.go: over a link that loses nothing both sides finish, and agree.
use zenoh_go_client.Prelude.{
  ℕ, ◌^◌, ◌≤◌, ◌<◌, ◌≡◌, ◌≢◌, refl, sym, ap, ◌∙◌, min, Bool, true, false, ◌&&◌, [], ◌∷◌, length,
  some, ◌==◌, bytes_eq, bytes_eq→eq, bytes_eq_refl, Bool-cases, inl, inr, arith,
}
use zenoh_go_client.Codec.Types.{Bytes}
use zenoh_go_client.Codec.Carries.{Carries}
use zenoh_go_client.Wire.Ids.{id_transport_init, id_transport_open}
use zenoh_go_client.Wire.Resolution.{frame_sn, bits, min_resolution}
use zenoh_go_client.Wire.Zid.{ZenohId, is_valid}
use zenoh_go_client.Wire.Frame.{after_header}
use zenoh_go_client.Wire.Session.{Init, encode_init, decode_init, Open, encode_open, decode_open}
use zenoh_go_client.Wire.Session.RoundTrip.{IsIdentity}
use zenoh_go_client.Session.Handshake.{
  Side, send, recv, done, HandshakeConfig, AcceptConfig, HandshakeResult, compute_initial_sn,
  message, read_init, read_open, negotiated_batch, guarded, with_message,
}
use zenoh_go_client.Session.Handshake.Sides.{
  init_syn, open_syn, initiator_result, init_ack, open_ack, responder_result, on_init_ack,
  do_handshake, on_open_syn, issue_cookie, on_init_syn, do_handshake_responder, feed, converse,
}
use zenoh_go_client.Session.Handshake.Messages.{
  decode_init-Checks, decode_open-Checks, received, write_transport-Carries, has_qos_ext-qos_exts,
  init-Carries, open-Carries, compute_initial_sn-fits, raises-min_resolution,
}

-- A configuration whose numbers fit the wire, and that passes the guards.
pub record IsParty (zid : ZenohId) (what_am_i batch_size lease : ℕ) : Type 0 where
  pub identity : IsIdentity zid what_am_i
  pub batch_some : 1 ≤ batch_size
  pub batch_fits : batch_size < 2 ^ 16
  pub lease_some : 1 ≤ lease
  pub lease_fits : lease < 2 ^ 64

pub record AreParties (shake : Bytes → ℕ) (a : HandshakeConfig) (b : AcceptConfig) (cookie : Bytes)
    : Type 0 where
  pub initiator : IsParty a.zid a.what_am_i a.batch_size a.lease_millis
  pub responder : IsParty b.zid b.what_am_i b.batch_size b.lease_millis
  pub others : a.zid.bytes ≢ b.zid.bytes
  pub cookie_fits : length cookie < 2 ^ 16
  pub digest_fits : (d : Bytes) → shake d < 2 ^ 64

-- What both sides hold in the end.
pub record Agreed (a : HandshakeConfig) (b : AcceptConfig) (r s : HandshakeResult) : Type 0 where
  pub zids : (r.peer_zid ≡ b.zid) × (s.peer_zid ≡ a.zid)
  pub roles : (r.peer_what_am_i ≡ b.what_am_i) × (s.peer_what_am_i ≡ a.what_am_i)
  pub batch :
      (r.negotiated_batch_size ≡ min a.batch_size b.batch_size)
      × (s.negotiated_batch_size ≡ min a.batch_size b.batch_size)
  pub resolution :
      (r.negotiated_resolution ≡ min_resolution b.resolution a.resolution)
      × (s.negotiated_resolution ≡ min_resolution b.resolution a.resolution)
  pub leases :
      (r.my_lease_millis ≡ a.lease_millis)
      × (s.peer_lease_millis ≡ a.lease_millis)
      × (s.my_lease_millis ≡ b.lease_millis)
      × (r.peer_lease_millis ≡ b.lease_millis)
  pub initial_sns : (r.peer_initial_sn ≡ s.my_initial_sn) × (s.peer_initial_sn ≡ r.my_initial_sn)
  pub qos :
      (r.qos_enabled ≡ (a.enable_qos && b.enable_qos))
      × (s.qos_enabled ≡ (a.enable_qos && b.enable_qos))

is_valid_lem : (z : ZenohId) → 1 ≤ length z.bytes → length z.bytes ≤ 16 → is_valid z ≡ true
unfolding is_valid
is_valid_lem z lo hi = ground arith

guarded-passes :
    {A : Type 0} (zid : ZenohId) (role batch lease : ℕ) (k : Side A)
    → IsParty zid role batch lease
    → guarded zid batch lease k ≡ k
guarded-passes zid role batch lease k v =
    let b = v.batch_some in
    let l = v.lease_some in
    let batch' : (batch == 0) ≡ false = ground arith in
    let lease' : (lease == 0) ≡ false = ground arith in
    rw (is_valid_lem zid v.identity.zid_some v.identity.zid_fits, batch', lease') refl

differ_bytes : (x y : Bytes) → x ≢ y → bytes_eq x y ≡ false
differ_bytes x y h = elim (Bool-cases (bytes_eq x y)) [
  | inl e ↦ absurd (h (bytes_eq→eq x y e))
  | inr e ↦ e
]

module _ (shake : Bytes → ℕ) (a : HandshakeConfig) (b : AcceptConfig) (cookie : Bytes)
    (v : AreParties shake a b cookie) where
  abbrev syn : Init
  syn = init_syn a

  abbrev resolution : ℕ
  resolution = min_resolution b.resolution a.resolution

  abbrev ack : Init
  ack = init_ack b syn resolution cookie

  abbrev sn_a : ℕ
  sn_a = compute_initial_sn shake a.zid.bytes b.zid.bytes (bits resolution frame_sn)

  abbrev sn_b : ℕ
  sn_b = compute_initial_sn shake b.zid.bytes a.zid.bytes (bits resolution frame_sn)

  abbrev opening : Open
  opening = open_syn a ack sn_a

  abbrev opened : Open
  opened = open_ack b syn sn_b

  syn-Carries : Carries (encode_init syn) (after_header decode_init) syn
  unfolding init_syn
  syn-Carries =
      init-Carries _ a.enable_qos refl v.initiator.identity
        (record { batch_size_fits = v.initiator.batch_fits; absent = λ h. absurd cc })
        (record { cookie_fits = omega arith; absent = λ h. refl })

  batch_min : negotiated_batch b.batch_size syn ≡ min a.batch_size b.batch_size
  unfolding negotiated_batch init_syn
  batch_min = ground arith

  ack-Carries : Carries (encode_init ack) (after_header decode_init) ack
  unfolding init_ack
  ack-Carries =
      init-Carries _ _ refl v.responder.identity
        (record {
          batch_size_fits = let fits = v.initiator.batch_fits in omega (arith, batch_min);
          absent = λ h. absurd cc;
        })
        (record { cookie_fits = v.cookie_fits; absent = λ h. absurd cc })

  opening-Carries : Carries (encode_open opening) (after_header decode_open) opening
  unfolding open_syn init_ack
  opening-Carries =
      open-Carries _ _ refl v.initiator.lease_fits
        (compute_initial_sn-fits shake a.zid.bytes b.zid.bytes _ v.digest_fits)
        (record { cookie_fits = v.cookie_fits; absent = λ h. absurd cc })

  opened-Carries : Carries (encode_open opened) (after_header decode_open) opened
  unfolding open_ack
  opened-Carries =
      open-Carries _ _ refl v.responder.lease_fits
        (compute_initial_sn-fits shake b.zid.bytes a.zid.bytes _ v.digest_fits)
        (record { cookie_fits = omega arith; absent = λ h. refl })

  syn_received : read_init false syn-Carries.bytes ≡ message syn
  unfolding read_init init_syn
  syn_received =
      rw (received id_transport_init decode_init syn syn-Carries refl decode_init-Checks) refl

  ack_received : read_init true ack-Carries.bytes ≡ message ack
  unfolding read_init init_ack
  ack_received =
      rw (received id_transport_init decode_init ack ack-Carries refl decode_init-Checks) refl

  opening_received : read_open false opening-Carries.bytes ≡ message opening
  unfolding read_open open_syn
  opening_received =
      rw (received id_transport_open decode_open opening opening-Carries refl decode_open-Checks)
        refl

  opened_received : read_open true opened-Carries.bytes ≡ message opened
  unfolding read_open open_ack
  opened_received =
      rw (received id_transport_open decode_open opened opened-Carries refl decode_open-Checks) refl

  abbrev result_a : HandshakeResult
  result_a = initiator_result a ack opened resolution sn_a

  abbrev result_b : HandshakeResult
  result_b = responder_result b syn opening resolution sn_b

  -- The sides between two messages.
  abbrev awaits_ack : Side HandshakeResult
  awaits_ack = recv λ batch. with_message (read_init true batch) λ m. on_init_ack shake a m

  abbrev awaits_opening : Side HandshakeResult
  awaits_opening =
      recv λ batch.
        with_message (read_open false batch) λ m. on_open_syn shake b syn cookie resolution m

  abbrev awaits_opened : Side HandshakeResult
  awaits_opened = recv λ batch.
      with_message (read_open true batch) λ m. done (initiator_result a ack m resolution sn_a)

  starts : do_handshake shake a ≡ send syn-Carries.bytes awaits_ack
  unfolding do_handshake
  starts =
      guarded-passes a.zid a.what_am_i a.batch_size a.lease_millis _ v.initiator
      ∙ write_transport-Carries syn-Carries _

  answers : on_init_syn shake b (some cookie) syn ≡ send ack-Carries.bytes awaits_opening
  unfolding on_init_syn init_syn issue_cookie
  answers =
      let apart = differ_bytes a.zid.bytes b.zid.bytes v.others in
      rw (apart) (write_transport-Carries ack-Carries _)

  opens : on_init_ack shake a ack ≡ send opening-Carries.bytes awaits_opened
  unfolding on_init_ack init_ack
  opens =
      let apart = differ_bytes b.zid.bytes a.zid.bytes (λ e. v.others (sym e)) in
      let kept = raises-min_resolution b.resolution a.resolution in
      rw (apart, kept) (write_transport-Carries opening-Carries _)

  accepts :
      on_open_syn shake b syn cookie resolution opening ≡ send opened-Carries.bytes (done result_b)
  unfolding on_open_syn open_syn init_ack init_syn
  accepts = rw (bytes_eq_refl cookie) (write_transport-Carries opened-Carries _)

  feed_a : feed (do_handshake shake a) [] ≡ (syn-Carries.bytes ∷ [], awaits_ack)
  unfolding feed
  feed_a = rw (starts) refl

  feed_b :
      feed (do_handshake_responder shake b (some cookie)) (syn-Carries.bytes ∷ [])
      ≡ (ack-Carries.bytes ∷ [], awaits_opening)
  unfolding feed do_handshake_responder
  feed_b =
      ap (λ k. feed k (syn-Carries.bytes ∷ []))
        (guarded-passes b.zid b.what_am_i b.batch_size b.lease_millis _ v.responder)
      ∙ ap (λ m. feed (with_message m (λ syn'. on_init_syn shake b (some cookie) syn')) [])
          syn_received
      ∙ ap (λ k. feed k []) answers

  feed_a' : feed awaits_ack (ack-Carries.bytes ∷ []) ≡ (opening-Carries.bytes ∷ [], awaits_opened)
  unfolding feed
  feed_a' =
      ap (λ m. feed (with_message m (λ m'. on_init_ack shake a m')) []) ack_received
      ∙ ap (λ k. feed k []) opens

  feed_b' :
      feed awaits_opening (opening-Carries.bytes ∷ []) ≡ (opened-Carries.bytes ∷ [], done result_b)
  unfolding feed
  feed_b' =
      ap (λ m. feed (with_message m (λ m'. on_open_syn shake b syn cookie resolution m')) [])
        opening_received
      ∙ ap (λ k. feed k []) accepts

  feed_a'' : feed awaits_opened (opened-Carries.bytes ∷ []) ≡ ([], done result_a)
  unfolding feed
  feed_a'' =
      ap (λ m. feed (with_message m (λ m'. done (initiator_result a ack m' resolution sn_a))) [])
        opened_received

  both_done :
      converse 3 (do_handshake shake a) (do_handshake_responder shake b (some cookie)) []
      ≡ (done result_a, done result_b)
  unfolding converse feed
  both_done = rw (feed_a, feed_b, feed_a', feed_b', feed_a'') refl

  and_comm : (x y : Bool) → (x && y) ≡ (y && x)
  and_comm true y = ground arith
  and_comm false y = ground arith

  qos_choice : (x y : Bool) → (x && (y && x)) ≡ (x && y)
  qos_choice true y = ground arith
  qos_choice false y = refl

  agreed : Agreed a b result_a result_b
  unfolding initiator_result responder_result init_ack init_syn open_syn open_ack
  agreed = record {
    zids = (refl, refl);
    roles = (refl, refl);
    batch = (unfold negotiated_batch init_ack init_syn in ground (arith, batch_min), batch_min);
    resolution = (refl, refl);
    leases = (refl, refl, refl, refl);
    initial_sns = (refl, refl);
    qos = (
      ap (λ x. a.enable_qos && x)
            (has_qos_ext-qos_exts _
              ∙ ap (λ x. b.enable_qos && x) (has_qos_ext-qos_exts a.enable_qos))
          ∙ qos_choice a.enable_qos b.enable_qos,
      ap (λ x. b.enable_qos && x) (has_qos_ext-qos_exts a.enable_qos)
          ∙ and_comm b.enable_qos a.enable_qos,
    );
  }

-- Two different parties whose configurations fit the wire, over a link that loses nothing, with a
-- digest below 2 ^ 64 and a cookie of less than 2 ^ 16 bytes: both sides of the handshake finish,
-- and hold the other's identity and lease, the lower batch size, the lower resolution of each
-- field, the other's initial sequence number, and the same QoS choice.
pub do_handshake-Agreed :
    (shake : Bytes → ℕ) (a : HandshakeConfig) (b : AcceptConfig) (cookie : Bytes)
    → AreParties shake a b cookie
    → (r : HandshakeResult) × (s : HandshakeResult) × (converse 3
          (do_handshake shake a)
          (do_handshake_responder shake b (some cookie))
          []
        ≡ (done r, done s))
      × Agreed a b r s
do_handshake-Agreed shake a b cookie v = (
  result_a shake a b cookie v,
  result_b shake a b cookie v,
  both_done shake a b cookie v,
  agreed shake a b cookie v,
)
