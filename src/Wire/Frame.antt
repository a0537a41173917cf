-- ===== src/Wire/Frame.antt =====
-- internal/wire/keepalive.go, close.go, frame.go and fragment.go: the transport messages of an
-- established session. A decoder is given the header that its caller has read.
use zenoh_go_client.Prelude.{
  ℕ, ◌^◌, ◌<◌, Bool, false, not, List, [], All, ◌==◌, if◌then◌else◌, arith,
}
use zenoh_go_client.Codec.Types.{
  Bytes, unexpected_id, Parser, ◌>>=◌, pure, fail, Encoder, ◌>>◌, when, optional,
}
use zenoh_go_client.Codec.Carries.{
  Carries, Carries->>, Carries-last, Leaves, Leaves-body, Leaves->>, Fills, Fills-body, Fills->>,
}
use zenoh_go_client.Codec.Buffer.{read_byte, read_rest, append_byte, append_bytes}
use zenoh_go_client.Codec.Vle.{encode_z64, decode_z64}
use zenoh_go_client.Codec.Vle.RoundTrip.{encode_z64-Carries}
use zenoh_go_client.Codec.Primitives.Laws.{append_byte-Carries}
use zenoh_go_client.Codec.Header.{Header, encode_header, decode_header}
use zenoh_go_client.Codec.Header.Laws.{encode_header-Carries}
use zenoh_go_client.Codec.Ext.{Extension, encode_extensions, decode_extensions, set_more, non_empty}
use zenoh_go_client.Codec.Ext.HeaderByte.{IsExt}
use zenoh_go_client.Codec.Ext.Chain.{extensions-Carries}
use zenoh_go_client.Wire.Ids.{
  id_transport_keep_alive, id_transport_close, id_transport_frame, id_transport_fragment,
}

-- `if h.ID != want { return error }` in front of a decoder.
abbrev pub expect_id {ℓ} : {A : Type ℓ} → ℕ → Header → Parser A → Parser A
expect_id want h p = if not (h.id == want) then fail (unexpected_id h.id) else p

-- A decoder behind the header of its message.
abbrev pub after_header {ℓ} : {A : Type ℓ} → (Header → Parser A) → Parser A
after_header p = decode_header >>= p

pub record KeepAlive : Type 0 where
  pub extensions : List Extension

unfoldable pub encode_keep_alive : KeepAlive → Encoder
encode_keep_alive m =
    let z = non_empty m.extensions in
    encode_header (record { id = id_transport_keep_alive; f1 = false; f2 = false; z = z })
    >> when z (encode_extensions m.extensions)

unfoldable pub decode_keep_alive : Header → Parser KeepAlive
decode_keep_alive h =
    expect_id id_transport_keep_alive h
      do exts ← optional h.z [] decode_extensions; pure (record { extensions = exts })

pub record Close : Type 0 where
  pub session : Bool
  pub reason : ℕ
  pub extensions : List Extension

unfoldable pub encode_close : Close → Encoder
encode_close m =
    let z = non_empty m.extensions in
    encode_header (record { id = id_transport_close; f1 = m.session; f2 = false; z = z })
    >> (append_byte m.reason >> when z (encode_extensions m.extensions))

unfoldable pub decode_close : Header → Parser Close
decode_close h = expect_id id_transport_close h do
  reason ← read_byte
  exts ← optional h.z [] decode_extensions
  pure (record { session = h.f1; reason = reason; extensions = exts })

pub record Frame : Type 0 where
  pub reliable : Bool
  pub seq_num : ℕ
  pub extensions : List Extension
  pub body : Bytes

unfoldable pub encode_frame : Frame → Encoder
encode_frame m =
    let z = non_empty m.extensions in
    encode_header (record { id = id_transport_frame; f1 = m.reliable; f2 = false; z = z })
    >> (encode_z64 m.seq_num >> (when z (encode_extensions m.extensions) >> append_bytes m.body))

-- The body stays in the reader.
unfoldable pub decode_frame : Header → Parser Frame
decode_frame h = expect_id id_transport_frame h do
  sn ← decode_z64
  exts ← optional h.z [] decode_extensions
  pure (record { reliable = h.f1; seq_num = sn; extensions = exts; body = [] })

pub record Fragment : Type 0 where
  pub reliable : Bool
  pub more : Bool
  pub seq_num : ℕ
  pub extensions : List Extension
  pub body : Bytes

unfoldable pub encode_fragment : Fragment → Encoder
encode_fragment m =
    let z = non_empty m.extensions in
    encode_header (record { id = id_transport_fragment; f1 = m.reliable; f2 = m.more; z = z })
    >> (encode_z64 m.seq_num >> (when z (encode_extensions m.extensions) >> append_bytes m.body))

-- The body is all that is left of the batch.
unfoldable pub decode_fragment : Header → Parser Fragment
decode_fragment h = expect_id id_transport_fragment h do
  sn ← decode_z64
  exts ← optional h.z [] decode_extensions
  body ← read_rest
  pure (record { reliable = h.f1; more = h.f2; seq_num = sn; extensions = exts; body = body })

-- Every KEEP_ALIVE whose extensions fit the wire is read back.
pub encode_keep_alive-Carries :
    (m : KeepAlive)
    → All IsExt m.extensions
    → Carries
        (encode_keep_alive m)
        (after_header decode_keep_alive)
        (record { extensions = set_more m.extensions })
unfolding encode_keep_alive decode_keep_alive
encode_keep_alive-Carries m hs =
    Carries->> _ (encode_header-Carries _ (omega arith))
      (Carries-last _ (extensions-Carries m.extensions hs))

-- Every CLOSE whose extensions fit the wire is read back.
pub encode_close-Carries :
    (m : Close)
    → All IsExt m.extensions
    → Carries
        (encode_close m)
        (after_header decode_close)
        (record m { extensions = set_more m.extensions })
unfolding encode_close decode_close
encode_close-Carries m hs = Carries->> _ (encode_header-Carries _ (omega arith)) (
    Carries->> _ (append_byte-Carries m.reason)
      (Carries-last _ (extensions-Carries m.extensions hs)))

-- A FRAME whose sequence number and extensions fit the wire is read back but for its body, which
-- the decoder leaves in front of what follows.
pub encode_frame-Leaves :
    (m : Frame)
    → m.seq_num < 2 ^ 64
    → All IsExt m.extensions
    → Leaves m.body
        (encode_frame m)
        (after_header decode_frame)
        (record m { extensions = set_more m.extensions; body = [] })
unfolding encode_frame decode_frame
encode_frame-Leaves m h hs = Leaves->> m.body _ (encode_header-Carries _ (omega arith)) (
    Leaves->> m.body _ (encode_z64-Carries m.seq_num h)
      (Leaves->> m.body _ (extensions-Carries m.extensions hs) (Leaves-body m.body _)))

-- A FRAGMENT at the end of a batch is read back whole, body included, where its sequence number and
-- extensions fit the wire.
pub encode_fragment-Fills :
    (m : Fragment)
    → m.seq_num < 2 ^ 64
    → All IsExt m.extensions
    → Fills
        (encode_fragment m)
        (after_header decode_fragment)
        (record m { extensions = set_more m.extensions })
unfolding encode_fragment decode_fragment
encode_fragment-Fills m h hs = Fills->> _ (encode_header-Carries _ (omega arith)) (
    Fills->> _ (encode_z64-Carries m.seq_num h)
      (Fills->> _ (extensions-Carries m.extensions hs) (Fills-body _ m.body)))
