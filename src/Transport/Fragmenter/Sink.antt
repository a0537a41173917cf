-- ===== src/Transport/Fragmenter/Sink.antt =====
-- fragmenter.go: what holds of the sink's state through a call.
use zenoh_go_client.Prelude.{
  ℕ, zero, suc, ◌-◌, ◌≤◌, ◌≡◌, refl, min, Bool, List, [], ◌∷◌, Option, none, some, length,
  length-take, leb, Bool-cases, inl, inr, arith,
}
use zenoh_go_client.Codec.Types.{Bytes}
use zenoh_go_client.Codec.Ext.{Extension}
use zenoh_go_client.Wire.Frame.{Fragment}
use zenoh_go_client.Transport.Sn.{next_sn, normalize_sn_mask}
use zenoh_go_client.Transport.Fragmenter.{
  Fragmenter, Sink, Sent, cut, after_sink, fragment_loop, fragment, fragment_overhead,
}

module _ {S E : Type 0} (sink : Sink S E) (reliable : Bool) (exts : List Extension)
    (P : S → Type 0) where
  after_sink-P :
      (chunk mask sn : ℕ) (r : S × Option E) (go_on : S → Sent S E)
      → P r.0
      → ((s : S) → P s → P (go_on s).state)
      → P (after_sink sink chunk mask reliable exts sn r go_on).state
  unfolding after_sink
  after_sink-P chunk mask sn (s, none) go_on h f = f s h
  after_sink-P chunk mask sn (s, some e) go_on h f = h

  loop-P :
      (chunk mask fuel sn : ℕ) (msg : Bytes) (s : S)
      → ((t : S) (f : Fragment)
          → length f.body ≤ chunk
          → f.extensions ≡ exts
          → P t
          → P (sink t f).0)
      → P s
      → P (fragment_loop sink chunk mask reliable exts fuel sn msg s).state
  unfolding fragment_loop cut
  loop-P chunk mask zero sn msg s keeps h = h
  loop-P chunk mask (suc fuel) sn [] s keeps h = h
  loop-P chunk mask (suc fuel) sn (b ∷ msg) s keeps h =
      let size = length-take (min chunk (length (b ∷ msg))) (b ∷ msg) in
      after_sink-P chunk mask sn (sink s (cut chunk reliable sn exts (b ∷ msg))) _
        (keeps s (cut chunk reliable sn exts (b ∷ msg)) (omega (arith, size)) refl h)
        (λ t ht. loop-P chunk mask fuel (next_sn mask sn) _ t keeps ht)

  -- What every fragment small enough for its batch keeps of the sink's state, the whole call keeps.
  pub fragment-P :
      (f : Fragmenter) (msg : Bytes) (sn : ℕ) (s : S)
      → ((t : S) (g : Fragment)
          → length g.body ≤ f.max_body_size - fragment_overhead
          → g.extensions ≡ exts
          → P t
          → P (sink t g).0)
      → P s
      → P (fragment sink f msg reliable sn exts s).state
  unfolding fragment
  fragment-P f msg sn s keeps h = elim (Bool-cases (leb f.max_body_size fragment_overhead)) [
    | inl e ↦ rw (e) h
    | inr e ↦ rw (e) (
        loop-P (f.max_body_size - fragment_overhead) (normalize_sn_mask f.sn_mask) (length msg) sn
          msg s keeps h)
  ]
