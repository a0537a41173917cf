-- ===== src/Transport/Fragmenter.antt =====
-- internal/transport/fragmenter.go: a serialised message cut into FRAGMENT messages. The sink is a
-- function on the caller's state that may refuse a fragment.
pub mod Sink
pub mod Together
use zenoh_go_client.Prelude.{
  ℕ, zero, suc, ◌-◌, min, Bool, List, [], ◌∷◌, Option, none, some, length, take, drop, ltb, leb,
  if◌then◌else◌,
}
use zenoh_go_client.Codec.Types.{Bytes}
use zenoh_go_client.Codec.Ext.{Extension}
use zenoh_go_client.Wire.Frame.{Fragment}
use zenoh_go_client.Transport.Sn.{normalize_sn_mask, next_sn}

pub record Fragmenter : Type 0 where
  pub max_body_size : ℕ
  pub sn_mask : ℕ

abbrev pub fragment_overhead : ℕ
fragment_overhead = 16

pub data FragmentError (E : Type 0) : Type 0 where
  body_size_too_small : FragmentError E
  refused : E → FragmentError E

abbrev pub Sink : Type 0 → Type 0 → Type 0
Sink S E = S → Fragment → S × Option E

-- What a call returns: the next sequence number, the error, and the caller's state behind the sink.
pub record Sent (S E : Type 0) : Type 0 where
  pub next : ℕ
  pub error : Option (FragmentError E)
  pub state : S

-- One fragment of a message that has at most `chunk` bytes of its body.
unfoldable pub cut : ℕ → Bool → ℕ → List Extension → Bytes → Fragment
cut chunk reliable sn exts msg =
    let n = min chunk (length msg) in
    record {
      reliable = reliable;
      more = ltb n (length msg);
      seq_num = sn;
      extensions = exts;
      body = take n msg;
    }

module _ {S E : Type 0} (sink : Sink S E) (chunk mask : ℕ) (reliable : Bool)
    (exts : List Extension) where
  unfoldable pub after_sink : ℕ → S × Option E → (S → Sent S E) → Sent S E
  after_sink sn (s, some e) go_on = record { next = sn; error = some (refused e); state = s }
  after_sink sn (s, none) go_on = go_on s

  -- The loop of `Fragment` on fuel: every round takes a byte at least.
  unfoldable pub fragment_loop : ℕ → ℕ → Bytes → S → Sent S E
  fragment_loop zero sn msg s = record { next = sn; error = none; state = s }
  fragment_loop (suc fuel) sn [] s = record { next = sn; error = none; state = s }
  fragment_loop (suc fuel) sn (b ∷ msg) s =
      after_sink sn (sink s (cut chunk reliable sn exts (b ∷ msg))) (λ s'.
        fragment_loop fuel (next_sn mask sn) (drop (min chunk (length (b ∷ msg))) (b ∷ msg)) s')

unfoldable pub fragment :
    {S E : Type 0} → Sink S E → Fragmenter → Bytes → Bool → ℕ → List Extension → S → Sent S E
fragment sink f msg reliable sn exts s =
    if leb f.max_body_size fragment_overhead
    then record { next = sn; error = some body_size_too_small; state = s }
    else fragment_loop sink (f.max_body_size - fragment_overhead) (normalize_sn_mask f.sn_mask)
        reliable exts (length msg) sn msg s
