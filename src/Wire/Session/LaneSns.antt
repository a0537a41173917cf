-- ===== src/Wire/Session/LaneSns.antt =====
-- internal/wire/join.go: the per-lane sequence numbers that a JOIN carries in its QoS extension.
use zenoh_go_client.Prelude.{
  ℕ, zero, suc, ◌^◌, ◌<◌, ◌≡◌, refl, sym, ap, ◌∙◌, Bool, true, false, ◌&&◌, List, [], ◌∷◌, ◌++◌,
  append-nil, length, All, Option, none, some, arith, ◌==◌, if◌then◌else◌,
}
use zenoh_go_client.Codec.Types.{
  Bytes, trailing_bytes, Result, ok, err, Parser, ◌>>=◌, pure, Encoder, ◌>>◌, skip,
}
use zenoh_go_client.Codec.Carries.{Carries, Carries->>, Carries-last, Carries-skip}
use zenoh_go_client.Codec.Vle.{encode_z64, decode_z64}
use zenoh_go_client.Codec.Vle.RoundTrip.{encode_z64-Carries}
use zenoh_go_client.Codec.Ext.{Extension, ext_enc_zbuf}
use zenoh_go_client.Wire.Qos.{ext_id_qos}
use zenoh_go_client.Wire.Fields.{bytes_of}
use zenoh_go_client.Wire.Session.{Join}

-- Two arrays of eight, by priority.
pub record LaneSns : Type 0 where
  pub reliable : List ℕ
  pub best_effort : List ℕ

-- The loop over the priorities: reliable first, then best effort.
unfoldable pub encode_lanes : List ℕ → List ℕ → Encoder
encode_lanes [] bes = skip
encode_lanes (r ∷ rels) [] = skip
encode_lanes (r ∷ rels) (b ∷ bes) = encode_z64 r >> (encode_z64 b >> encode_lanes rels bes)

unfoldable pub attach_lane_sns : Join → LaneSns → Join
attach_lane_sns j sns = record j {
  extensions =
      j.extensions
      ++ (record {
        header = record {
          id = ext_id_qos;
          mandatory = true;
          encoding = ext_enc_zbuf;
          more = false;
        };
        z64 = 0;
        zbuf = bytes_of (encode_lanes sns.reliable sns.best_effort []);
      }
          ∷ []);
}

unfoldable pub decode_lanes : ℕ → Parser LaneSns
decode_lanes zero = pure (record { reliable = []; best_effort = [] })
decode_lanes (suc n) = do
  r ← decode_z64
  b ← decode_z64
  rest ← decode_lanes n
  pure (record { reliable = r ∷ rest.reliable; best_effort = b ∷ rest.best_effort })

-- `if r.Len() != 0 { return error }`
unfoldable pub at_end : Result (LaneSns × Bytes) → Result (Option LaneSns)
at_end (ok (sns, [])) = ok (some sns)
at_end (ok (sns, b ∷ r)) = err trailing_bytes
at_end (err e) = err e

abbrev pub is_lane_ext : Extension → Bool
is_lane_ext e = e.header.id == ext_id_qos && e.header.encoding == ext_enc_zbuf

-- The first QoS extension with a body decides.
unfoldable pub decode_lane_sns : List Extension → Result (Option LaneSns)
decode_lane_sns [] = ok none
decode_lane_sns (e ∷ exts) =
    if is_lane_ext e then at_end (decode_lanes 8 e.zbuf) else decode_lane_sns exts

lanes-Carries :
    (n : ℕ) (rels bes : List ℕ)
    → length rels ≡ n
    → length bes ≡ n
    → All (λ v. v < 2 ^ 64) rels
    → All (λ v. v < 2 ^ 64) bes
    → Carries
        (encode_lanes rels bes)
        (decode_lanes n)
        (record { reliable = rels; best_effort = bes })
unfolding encode_lanes decode_lanes
lanes-Carries zero [] [] hr hb vr vb = Carries-skip _
lanes-Carries (suc n) (r ∷ rels) (b ∷ bes) hr hb (r_fits, vr) (b_fits, vb) =
    Carries->> _ (encode_z64-Carries r r_fits) (
      Carries->> _ (encode_z64-Carries b b_fits)
        (Carries-last _ (lanes-Carries n rels bes (omega arith) (omega arith) vr vb)))
lanes-Carries zero (r ∷ rels) bes hr hb vr vb = absurd (omega arith)
lanes-Carries zero [] (b ∷ bes) hr hb vr vb = absurd (omega arith)
lanes-Carries (suc n) [] bes hr hb vr vb = absurd (omega arith)
lanes-Carries (suc n) (r ∷ rels) [] hr hb vr vb = absurd (omega arith)

pub record IsLaneSns (sns : LaneSns) : Type 0 where
  pub reliable_len : length sns.reliable ≡ 8
  pub best_effort_len : length sns.best_effort ≡ 8
  pub reliable_fit : All (λ v. v < 2 ^ 64) sns.reliable
  pub best_effort_fit : All (λ v. v < 2 ^ 64) sns.best_effort

-- Sixteen 64-bit numbers that are attached to a JOIN without lane numbers are the ones that it
-- decodes to.
pub decode_lane_sns-attach_lane_sns :
    (j : Join) (sns : LaneSns)
    → All (λ e. is_lane_ext e ≡ false) j.extensions
    → IsLaneSns sns
    → decode_lane_sns (attach_lane_sns j sns).extensions ≡ ok (some sns)
unfolding attach_lane_sns decode_lane_sns at_end
decode_lane_sns-attach_lane_sns j sns hs v = skip_others j.extensions hs ∙ lane
  where
    c : Carries (encode_lanes sns.reliable sns.best_effort) (decode_lanes 8) sns
    c =
        lanes-Carries 8 sns.reliable sns.best_effort v.reliable_len v.best_effort_len v.reliable_fit
          v.best_effort_fit

    attached : List Extension
    attached =
        record {
          header = record {
            id = ext_id_qos;
            mandatory = true;
            encoding = ext_enc_zbuf;
            more = false;
          };
          z64 = 0;
          zbuf = bytes_of (encode_lanes sns.reliable sns.best_effort []);
        }
        ∷ []

    skip_others :
        (exts : List Extension)
        → All (λ e. is_lane_ext e ≡ false) exts
        → decode_lane_sns (exts ++ attached) ≡ decode_lane_sns attached
    skip_others [] hs = refl
    skip_others (e ∷ exts) (h, hs) = rw (h) (skip_others exts hs)

    lane : decode_lane_sns attached ≡ ok (some sns)
    lane =
        ap (λ (b : Bytes). at_end (decode_lanes 8 b))
          (ap bytes_of (c.writes []) ∙ sym (append-nil c.bytes))
        ∙ ap at_end (c.reads [])
