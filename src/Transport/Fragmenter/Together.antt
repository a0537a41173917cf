-- ===== src/Transport/Fragmenter/Together.antt =====
-- fragmenter.go: the same call on two sinks.
use zenoh_go_client.Prelude.{
  ℕ, zero, suc, ◌-◌, ◌≡◌, refl, Bool, List, [], ◌∷◌, Option, none, some, length, leb, Bool-cases,
  inl, inr,
}
use zenoh_go_client.Codec.Types.{Bytes}
use zenoh_go_client.Codec.Ext.{Extension}
use zenoh_go_client.Wire.Frame.{Fragment}
use zenoh_go_client.Transport.Sn.{next_sn, normalize_sn_mask}
use zenoh_go_client.Transport.Fragmenter.{
  Fragmenter, Sink, Sent, cut, after_sink, fragment_loop, fragment, fragment_overhead,
}

-- Two runs that end alike, with related states.
pub record Together {S T E : Type 0} (R : S → T → Type 0) (x : Sent S E) (y : Sent T E)
    : Type 0 where
  pub next : x.next ≡ y.next
  pub error : x.error ≡ y.error
  pub related : R x.state y.state

-- A round of two sinks: the same error, if any, and related states.
pub record Steps {S T E : Type 0} (R : S → T → Type 0) (x : S × Option E) (y : T × Option E)
    : Type 0 where
  pub error : x.1 ≡ y.1
  pub related : R x.0 y.0

module _ {S T E : Type 0} (left : Sink S E) (right : Sink T E) (R : S → T → Type 0)
    (round : (s : S) (t : T) (f : Fragment) → R s t → Steps R (left s f) (right t f))
    (reliable : Bool) (exts : List Extension) where
  after_sink-Together :
      (chunk mask sn : ℕ) (x : S × Option E) (y : T × Option E) (go : S → Sent S E)
      (go' : T → Sent T E)
      → Steps R x y
      → ((s : S) (t : T) → R s t → Together R (go s) (go' t))
      → Together R
          (after_sink left chunk mask reliable exts sn x go)
          (after_sink right chunk mask reliable exts sn y go')
  unfolding after_sink
  after_sink-Together chunk mask sn (s, none) (t, none) go go' h f = f s t h.related
  after_sink-Together chunk mask sn (s, some e) (t, some e') go go' h f =
      let same = h.error in record { next = refl; error = cc; related = h.related }
  after_sink-Together chunk mask sn (s, none) (t, some e) go go' h f =
      let same = h.error in absurd cc
  after_sink-Together chunk mask sn (s, some e) (t, none) go go' h f =
      let same = h.error in absurd cc

  loop-Together :
      (chunk mask fuel sn : ℕ) (msg : Bytes) (s : S) (t : T)
      → R s t
      → Together R
          (fragment_loop left chunk mask reliable exts fuel sn msg s)
          (fragment_loop right chunk mask reliable exts fuel sn msg t)
  unfolding fragment_loop
  loop-Together chunk mask zero sn msg s t h = record { next = refl; error = refl; related = h }
  loop-Together chunk mask (suc fuel) sn [] s t h = record {
    next = refl;
    error = refl;
    related = h;
  }
  loop-Together chunk mask (suc fuel) sn (b ∷ msg) s t h =
      after_sink-Together chunk mask sn _ _ _ _ (round s t (cut chunk reliable sn exts (b ∷ msg)) h)
        λ s' t' h'. loop-Together chunk mask fuel (next_sn mask sn) _ s' t' h'

  pub fragment-Together :
      (f : Fragmenter) (msg : Bytes) (sn : ℕ) (s : S) (t : T)
      → R s t
      → Together R
          (fragment left f msg reliable sn exts s)
          (fragment right f msg reliable sn exts t)
  unfolding fragment
  fragment-Together f msg sn s t h = elim (Bool-cases (leb f.max_body_size fragment_overhead)) [
    | inl e ↦ rw (e) (record { next = refl; error = refl; related = h })
    | inr e ↦ rw (e) (
        loop-Together (f.max_body_size - fragment_overhead) (normalize_sn_mask f.sn_mask)
          (length msg) sn msg s t h)
  ]
