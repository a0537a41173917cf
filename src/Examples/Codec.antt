-- ===== src/Examples/Codec.antt =====
-- internal/codec: runs, and each theorem at an input.
use zenoh_go_client.Prelude.{
  ◌^◌, ◌≡◌, refl, true, false, List, [], ◌∷◌, All, length, take, none, arith,
}
use zenoh_go_client.Codec.Framing.{encode_stream_batch, read_stream_batch, ended, eof}
use zenoh_go_client.Codec.Framing.RoundTrip.{
  keep, Reads, send_batches, send_batches-Reads, read_stream_batch-cut,
}
use zenoh_go_client.Codec.Types.{Bytes, ok, written, ◌>>=◌, pure}
use zenoh_go_client.Codec.Carries.{Carries}
use zenoh_go_client.Codec.Buffer.{read_byte, read_n}
use zenoh_go_client.Codec.Buffer.Cursor.{
  Reader, Advances, view, reader_after, unread, cursor_read_n, cursor_skip, read_n_refines,
}
use zenoh_go_client.Codec.Vle.{encode_z64, decode_z64, decode_vle, decode_loop, encode_loop}
use zenoh_go_client.Codec.Vle.RoundTrip.{encode_z64-Carries}
use zenoh_go_client.Codec.Vle.Bounds.{Took, decode_vle-Took}
use zenoh_go_client.Codec.Ext.{
  Extension, encode_extensions, decode_extensions, decode_exts_loop, set_more,
}
use zenoh_go_client.Codec.Ext.HeaderByte.{IsExt}
use zenoh_go_client.Codec.Ext.Chain.{encode_extensions-Carries, decode_exts_loop-fuel}

-- A QoS extension, as the batcher writes it.
abbrev pub qos_ext : Extension
qos_ext = record {
  header = record { id = 1; mandatory = true; encoding = 1; more = false };
  z64 = 5;
  zbuf = [];
}

pub qos_ext-IsExt : IsExt qos_ext
qos_ext-IsExt = record {
  id_fits = omega arith;
  encoding_known = omega arith;
  z64_fits = omega arith;
  z64_only = λ h. absurd (h refl);
  zbuf_fits = omega arith;
  zbuf_only = λ h. refl;
}

abbrev pub two_exts : List Extension
two_exts = qos_ext ∷ qos_ext ∷ []

pub two_exts-All : All IsExt two_exts
two_exts-All = (qos_ext-IsExt, (qos_ext-IsExt, tt))

encode_z64_run : encode_z64 300 [] ≡ written (0xAC ∷ 0x02 ∷ [])
unfolding encode_z64 encode_loop
encode_z64_run = refl

encode_z64-Carries_example : Carries (encode_z64 300) decode_z64 300
encode_z64-Carries_example = encode_z64-Carries 300 (omega arith)

three_hundred : decode_vle 9 (0xAC ∷ 0x02 ∷ []) ≡ ok (300, [])
unfolding decode_vle decode_loop ◌>>=◌ read_byte pure
three_hundred = refl

decode_vle-Took_example : Took (2 ^ 64) 9 (0xAC ∷ 0x02 ∷ []) 300 []
decode_vle-Took_example =
    decode_vle-Took 9 (0xAC ∷ 0x02 ∷ []) 300 [] (omega arith, (omega arith, tt)) three_hundred

encode_extensions-Carries_example :
    Carries (encode_extensions two_exts) decode_extensions (set_more two_exts)
encode_extensions-Carries_example = encode_extensions-Carries two_exts two_exts-All (λ h. cc)

decode_exts_loop-fuel_example :
    decode_exts_loop 2 [] (0x31 ∷ 5 ∷ []) ≡ decode_exts_loop 9 [] (0x31 ∷ 5 ∷ [])
decode_exts_loop-fuel_example =
    decode_exts_loop-fuel 2 9 [] (0x31 ∷ 5 ∷ []) (omega arith) (omega arith)

abbrev reader : Reader
reader = record { buf = 1 ∷ 2 ∷ 3 ∷ []; off = 1 }

read_n_refines_example :
    (view (cursor_read_n 2 reader) ≡ read_n 2 (unread reader))
    × Advances reader (reader_after (cursor_read_n 2 reader))
    × (reader_after (cursor_skip 2 reader) ≡ reader_after (cursor_read_n 2 reader))
read_n_refines_example = read_n_refines 2 reader (omega arith)

-- A batch, an empty one and another.
abbrev batches : List Bytes
batches = (1 ∷ 2 ∷ 3 ∷ []) ∷ [] ∷ (9 ∷ []) ∷ []

send_batches_run : send_batches batches [] ≡ (3 ∷ 0 ∷ 1 ∷ 2 ∷ 3 ∷ 0 ∷ 0 ∷ 1 ∷ 0 ∷ 9 ∷ [], none)
unfolding send_batches encode_stream_batch
send_batches_run = refl

send_batches-Reads_example :
    (stream : Bytes) × (send_batches batches [] ≡ (stream, none)) × Reads 65535 stream batches
send_batches-Reads_example =
    send_batches-Reads 65535 batches (omega arith) (omega arith, (omega arith, (omega arith, tt)))

-- The stream ends behind the length of a batch of three bytes.
read_stream_batch-cut_example :
    (stream : Bytes) × (encode_stream_batch keep (1 ∷ 2 ∷ 3 ∷ []) [] ≡ (stream, none))
    × (length stream ≡ 5)
    × (read_stream_batch 65535 (take 2 stream) ≡ ended eof)
read_stream_batch-cut_example =
    read_stream_batch-cut 65535 2 (1 ∷ 2 ∷ 3 ∷ []) (omega arith) (omega arith) (omega arith)
