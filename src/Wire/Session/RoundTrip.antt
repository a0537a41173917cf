-- ===== src/Wire/Session/RoundTrip.antt =====
-- init.go, open.go and join.go: what is written is read back.
use zenoh_go_client.Prelude.{ℕ, ◌^◌, ◌≤◌, ◌<◌, ◌≡◌, sym, Bool, false, not, [], length, All, arith}
use zenoh_go_client.Codec.Types.{Bytes, when, optional}
use zenoh_go_client.Codec.Carries.{Carries, Carries->>, Carries-last, Carries-optional}
use zenoh_go_client.Codec.Vle.RoundTrip.{encode_z64-Carries}
use zenoh_go_client.Codec.Primitives.{encode_bytes_z16, decode_bytes_z16}
use zenoh_go_client.Codec.Primitives.Laws.{
  append_byte-Carries, append_u16_le-Carries, encode_bytes_z16-Carries,
}
use zenoh_go_client.Codec.Header.Laws.{encode_header-Carries}
use zenoh_go_client.Codec.Ext.{set_more}
use zenoh_go_client.Codec.Ext.HeaderByte.{IsExt}
use zenoh_go_client.Codec.Ext.Chain.{extensions-Carries}
use zenoh_go_client.Wire.Frame.{after_header}
use zenoh_go_client.Wire.Zid.{ZenohId, encode_packed_zid_byte-Carries, encode_zid_bytes-Carries}
use zenoh_go_client.Wire.Session.{
  encode_size_info, decode_size_info, Init, encode_init, decode_init, Open, encode_open,
  decode_open, Join, encode_join, decode_join,
}

-- The identity that INIT and JOIN announce.
pub record IsIdentity (zid : ZenohId) (what_am_i : ℕ) : Type 0 where
  pub zid_some : 1 ≤ length zid.bytes
  pub zid_fits : length zid.bytes ≤ 16
  pub role_known : what_am_i < 4

-- The size information is in range, and absent where the flag is off.
pub record IsSizeInfo (flag : Bool) (resolution batch_size : ℕ) : Type 0 where
  pub batch_size_fits : batch_size < 2 ^ 16
  pub absent : flag ≡ false → (resolution ≡ 0) × (batch_size ≡ 0)

-- A cookie that fits its length, and is absent where the flag is off.
pub record IsCookie (flag : Bool) (cookie : Bytes) : Type 0 where
  pub cookie_fits : length cookie < 2 ^ 16
  pub absent : flag ≡ false → cookie ≡ []

size_info-Carries :
    (flag : Bool) (resolution batch_size : ℕ)
    → IsSizeInfo flag resolution batch_size
    → Carries
        (when flag (encode_size_info resolution batch_size))
        (optional flag (0, 0) decode_size_info)
        (resolution, batch_size)
size_info-Carries flag resolution batch_size v =
    Carries-optional flag
      (λ on.
        Carries->> _ (append_byte-Carries resolution)
          (Carries-last _ (append_u16_le-Carries batch_size v.batch_size_fits)))
      (λ off. let (no_res, no_size) = v.absent off in ground arith)

cookie-Carries :
    (flag : Bool) (cookie : Bytes)
    → IsCookie flag cookie
    → Carries (when flag (encode_bytes_z16 cookie)) (optional flag [] decode_bytes_z16) cookie
cookie-Carries flag cookie v =
    Carries-optional flag (λ on. encode_bytes_z16-Carries cookie v.cookie_fits)
      (λ off. sym (v.absent off))

-- Every INIT whose fields fit the wire is read back, syn and ack, with and without size
-- information.
pub encode_init-Carries :
    (m : Init)
    → IsIdentity m.zid m.what_am_i
    → IsSizeInfo m.has_size_info m.resolution m.batch_size
    → IsCookie m.ack m.cookie
    → All IsExt m.extensions
    → Carries
        (encode_init m)
        (after_header decode_init)
        (record m { extensions = set_more m.extensions })
unfolding encode_init decode_init
encode_init-Carries m who size cookie hs = Carries->> _ (encode_header-Carries _ (omega arith)) (
    Carries->> _ (append_byte-Carries m.version) (
      Carries->> _
        (encode_packed_zid_byte-Carries (length m.zid.bytes) m.what_am_i who.zid_some who.zid_fits
          who.role_known)
        (Carries->> _ (encode_zid_bytes-Carries m.zid) (
          Carries->> _ (size_info-Carries m.has_size_info m.resolution m.batch_size size) (
            Carries->> _ (cookie-Carries m.ack m.cookie cookie)
              (Carries-last _ (extensions-Carries m.extensions hs)))))))

-- Every OPEN whose fields fit the wire is read back, syn and ack.
pub encode_open-Carries :
    (m : Open)
    → m.lease < 2 ^ 64
    → m.initial_sn < 2 ^ 64
    → IsCookie (not m.ack) m.cookie
    → All IsExt m.extensions
    → Carries
        (encode_open m)
        (after_header decode_open)
        (record m { extensions = set_more m.extensions })
unfolding encode_open decode_open
encode_open-Carries m lease sn cookie hs = Carries->> _ (encode_header-Carries _ (omega arith)) (
    Carries->> _ (encode_z64-Carries m.lease lease) (
      Carries->> _ (encode_z64-Carries m.initial_sn sn) (
        Carries->> _ (cookie-Carries (not m.ack) m.cookie cookie)
          (Carries-last _ (extensions-Carries m.extensions hs)))))

-- Every JOIN whose fields fit the wire is read back.
pub encode_join-Carries :
    (m : Join)
    → IsIdentity m.zid m.what_am_i
    → IsSizeInfo m.has_size_info m.resolution m.batch_size
    → m.lease < 2 ^ 64
    → m.next_sn_rel < 2 ^ 64
    → m.next_sn_be < 2 ^ 64
    → All IsExt m.extensions
    → Carries
        (encode_join m)
        (after_header decode_join)
        (record m { extensions = set_more m.extensions })
unfolding encode_join decode_join
encode_join-Carries m who size lease rel be hs =
    Carries->> _ (encode_header-Carries _ (omega arith)) (
      Carries->> _ (append_byte-Carries m.version) (
        Carries->> _
          (encode_packed_zid_byte-Carries (length m.zid.bytes) m.what_am_i who.zid_some who.zid_fits
            who.role_known)
          (Carries->> _ (encode_zid_bytes-Carries m.zid) (
            Carries->> _ (size_info-Carries m.has_size_info m.resolution m.batch_size size) (
              Carries->> _ (encode_z64-Carries m.lease lease) (
                Carries->> _ (encode_z64-Carries m.next_sn_rel rel) (
                  Carries->> _ (encode_z64-Carries m.next_sn_be be)
                    (Carries-last _ (extensions-Carries m.extensions hs)))))))))
