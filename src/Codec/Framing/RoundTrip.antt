-- ===== src/Codec/Framing/RoundTrip.antt =====
-- framing.go: what is written on a stream is read back batch by batch, and what a cut stream gives.
use zenoh_go_client.Prelude.{
  ℕ, zero, suc, ◌+◌, ◌≤◌, ◌<◌, ◌≡◌, refl, ap, ◌∙◌, ◌||◌, true, false, List, [], ◌∷◌, ◌++◌, Option,
  none, some, length, take, leb, ltb, ◌==◌, if◌then◌else◌, arith, All, append_assoc, append-nil,
  take-append, drop-append, length-append, length-take,
}
use zenoh_go_client.Codec.Types.{Bytes}
use zenoh_go_client.Codec.Buffer.{u16_of}
use zenoh_go_client.Codec.Primitives.Laws.{u16-bytes}
use zenoh_go_client.Codec.Framing.{
  max_batch_size, FramingError, ReadError, eof, unexpected_eof, full, ended, length_prefix,
  encode_stream_batch, read_full, read_prefixed, read_stream_batch,
}

-- A stream that keeps what is written.
abbrev pub keep : Bytes → Bytes → Bytes × Option ⊥
keep s b = (s ++ b, none)

-- The bytes of a batch on the stream.
abbrev pub framed : Bytes → Bytes
framed b = length_prefix b ++ b

leb-true : (a b : ℕ) → a ≤ b → leb a b ≡ true
leb-true a b h = ground arith

leb-false : (a b : ℕ) → b < a → leb a b ≡ false
leb-false a b h = ground arith

ltb-false : (a b : ℕ) → b ≤ a → ltb a b ≡ false
ltb-false a b h = ground arith

abbrev wrote : Bytes → Bytes × Option (FramingError ⊥)
wrote t = (t, none)

encode_stream_batch-framed :
    (b w : Bytes) → length b ≤ max_batch_size → encode_stream_batch keep b w ≡ (w ++ framed b, none)
unfolding encode_stream_batch
encode_stream_batch-framed b w h =
    rw (ltb-false max_batch_size (length b) h) (ap wrote (append_assoc w (length_prefix b) b))

u16_of-length_prefix : (b : Bytes) → length b ≤ max_batch_size → u16_of (length_prefix b) ≡ length b
unfolding u16_of
u16_of-length_prefix b h = u16-bytes (length b) (omega arith)

read_full-append : (a b : Bytes) → read_full (length a) (a ++ b) ≡ full a b
unfolding read_full
read_full-append a b =
    rw
      (
        leb-true (length a) (length (a ++ b)) (omega (arith, length-append a b)),
        take-append a b,
        drop-append a b,
      )
      refl

-- What `io.ReadFull` gives on fewer bytes than it wants.
abbrev pub short : ℕ → ReadError
short n = if n == 0 then eof else unexpected_eof

read_full-short : (n : ℕ) (s : Bytes) → length s < n → read_full n s ≡ ended (short (length s))
unfolding read_full
read_full-short n [] h = rw (leb-false n 0 h) refl
read_full-short n (x ∷ s) h = rw (leb-false n (length (x ∷ s)) h) (ground arith)

-- Behind the prefix of a batch that the buffer has room for.
read_stream_batch-prefix :
    (room : ℕ) (b s : Bytes)
    → length b ≤ max_batch_size
    → length b ≤ room
    → read_stream_batch room (length_prefix b ++ s) ≡ read_full (length b) s
unfolding read_stream_batch read_prefixed
read_stream_batch-prefix room b s fits holds =
    rw
      (
        read_full-append (length_prefix b) s,
        u16_of-length_prefix b fits,
        ltb-false room (length b) holds,
      )
      refl

-- The batches that a stream gives, one after the other, to its end.
pub data Reads (room : ℕ) : Bytes → List Bytes → Type 0 where
  at_end : {s : Bytes} → read_stream_batch room s ≡ ended eof → Reads room s []
  batch_then :
      {s rest : Bytes} {b : Bytes} {bs : List Bytes}
      → read_stream_batch room s ≡ full b rest
      → Reads room rest bs
      → Reads room s (b ∷ bs)

abbrev pub if_sent :
    Bytes × Option (FramingError ⊥)
    → (Bytes → Bytes × Option (FramingError ⊥))
    → Bytes × Option (FramingError ⊥)
if_sent (s, some e) k = (s, some e)
if_sent (s, none) k = k s

unfoldable pub send_batches : List Bytes → Bytes → Bytes × Option (FramingError ⊥)
send_batches [] s = (s, none)
send_batches (b ∷ bs) s = if_sent (encode_stream_batch keep b s) (send_batches bs)

-- The bytes of some batches.
stream_of : List Bytes → Bytes
stream_of [] = []
stream_of (b ∷ bs) = framed b ++ stream_of bs

abbrev pub Framable : Bytes → Type 0
Framable b = length b ≤ max_batch_size

send_batches-stream_of :
    (bs : List Bytes) (w : Bytes) → All Framable bs → send_batches bs w ≡ (w ++ stream_of bs, none)
unfolding send_batches stream_of
send_batches-stream_of [] w fits = rw (append-nil w) refl
send_batches-stream_of (b ∷ bs) w (fit, fits) = rw (encode_stream_batch-framed b w fit) (
    send_batches-stream_of bs (w ++ framed b) fits
    ∙ ap wrote (append_assoc w (framed b) (stream_of bs)))

stream_of-Reads :
    (room : ℕ) (bs : List Bytes)
    → max_batch_size ≤ room
    → All Framable bs
    → Reads room (stream_of bs) bs
unfolding stream_of read_stream_batch read_full read_prefixed
stream_of-Reads room [] holds fits = at_end refl
stream_of-Reads room (b ∷ bs) holds (fit, fits) =
    batch_then
      (read_stream_batch-prefix room b (b ++ stream_of bs) fit (omega arith)
        ∙ read_full-append b (stream_of bs))
      (stream_of-Reads room bs holds fits)

-- What is written on a stream that loses nothing, any batches of at most 65535 bytes each, is read
-- back into a buffer of that size: the same batches in the same order, and then the end of the
-- stream.
pub send_batches-Reads :
    (room : ℕ) (bs : List Bytes)
    → max_batch_size ≤ room
    → All Framable bs
    → (stream : Bytes) × (send_batches bs [] ≡ (stream, none)) × Reads room stream bs
send_batches-Reads room bs holds fits =
    (stream_of bs, send_batches-stream_of bs [] fits, stream_of-Reads room bs holds fits)

short-take : (k : ℕ) (b : Bytes) → k < length b → length (take k b) ≡ k
short-take k b h = omega (arith, length-take k b)

-- A batch on a stream that ends early is refused: as a stream that ended cleanly where it ends
-- before the length or right behind it, and as a stream that was cut everywhere else; the batch has
-- at most 65535 bytes and the buffer has that size.
pub read_stream_batch-cut :
    (room k : ℕ) (b : Bytes)
    → max_batch_size ≤ room
    → length b ≤ max_batch_size
    → k < length b + 2
    → (stream : Bytes) × (encode_stream_batch keep b [] ≡ (stream, none))
      × (length stream ≡ length b + 2)
      × (read_stream_batch room (take k stream)
          ≡ ended (if k == 0 || k == 2 then eof else unexpected_eof))
unfolding read_stream_batch read_full read_prefixed
read_stream_batch-cut room k b holds fits less =
    (framed b, encode_stream_batch-framed b [] fits, omega arith, cut_at k less)
  where
    cut_at :
        (k : ℕ)
        → k < length b + 2
        → read_stream_batch room (take k (framed b))
          ≡ ended (if k == 0 || k == 2 then eof else unexpected_eof)
    cut_at zero h = refl
    cut_at (suc zero) h = refl
    cut_at (suc (suc n)) h =
        read_stream_batch-prefix room b (take n b) fits (omega arith)
        ∙ read_full-short (length b) (take n b) (omega (arith, length-take n b))
        ∙ ap (λ (t : ℕ). ended (short t)) (short-take n b (omega arith))
        ∙ ground arith
