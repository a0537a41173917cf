-- ===== src/Codec/Framing.antt =====
-- internal/codec/framing.go: batches on a stream, each behind its length as two bytes. The writer is a
-- function on the caller's state that may refuse. A stream that is read is the bytes that it holds until
-- its end; `io.ReadFull` tells a stream that ended before its first byte from one that ended later.
pub mod RoundTrip
use zenoh_go_client.Prelude.{
  ℕ, ◌/◌, ◌%◌, List, [], ◌∷◌, Option, none, some, length, take, drop, leb, ltb, ◌==◌, if◌then◌else◌,
}
use zenoh_go_client.Codec.Types.{Bytes}
use zenoh_go_client.Codec.Buffer.{u16_of}

abbrev pub max_batch_size : ℕ
max_batch_size = 65535

pub data FramingError (E : Type 0) : Type 0 where
  batch_too_large : ℕ → FramingError E
  write_failed : E → FramingError E

-- `io.EOF`, `io.ErrUnexpectedEOF`, and the buffer's size with the one that is needed.
pub data ReadError : Type 0 where
  eof : ReadError
  unexpected_eof : ReadError
  buffer_too_small : ℕ → ℕ → ReadError

-- The bytes that were read with those that follow, or the error.
pub data StreamRead : Type 0 where
  full : Bytes → Bytes → StreamRead
  ended : ReadError → StreamRead

abbrev pub length_prefix : Bytes → Bytes
length_prefix batch = (length batch % 256) ∷ (length batch / 256 % 256) ∷ []

module _ {S E : Type 0} (write : S → Bytes → S × Option E) where
  abbrev pub after_write :
      S × Option E → (S → S × Option (FramingError E)) → S × Option (FramingError E)
  after_write (s, some e) k = (s, some (write_failed e))
  after_write (s, none) k = k s

  unfoldable pub encode_stream_batch : Bytes → S → S × Option (FramingError E)
  encode_stream_batch batch s =
      if ltb max_batch_size (length batch)
      then (s, some (batch_too_large (length batch)))
      else after_write (write s (length_prefix batch))
          (λ s'. after_write (write s' batch) (λ s''. (s'', none)))

unfoldable pub read_full : ℕ → Bytes → StreamRead
read_full n stream =
    if leb n (length stream)
    then full (take n stream) (drop n stream)
    else if length stream == 0
    then ended eof
    else ended unexpected_eof

-- Behind the length.
unfoldable pub read_prefixed : ℕ → StreamRead → StreamRead
read_prefixed room (ended e) = ended e
read_prefixed room (full prefix rest) =
    let n = u16_of prefix in
    if ltb room n then ended (buffer_too_small room n) else read_full n rest

unfoldable pub read_stream_batch : ℕ → Bytes → StreamRead
read_stream_batch room stream = read_prefixed room (read_full 2 stream)
