-- ===== src/Lib.antt =====
-- Verification of zenoh-go-client, a Go client of the Zenoh protocol.
--
-- The program is layered. internal/codec writes and reads integers, byte strings, message headers and
-- extension chains. internal/wire builds the protocol's messages from them. internal/transport packs
-- serialised messages into batches and cuts those that are too large into fragments, which the receiving
-- side puts together again. internal/keyexpr decides how key expressions relate. internal/session runs
-- the protocol over these parts, and zenoh is the public interface.
--
-- Prelude: Boolean tests, lists over native numbers, bit operations as arithmetic; Prelude/Maps has Go's
--   maps and sets as lists, and Prelude/Dict those whose keys are strings.
-- Codec: internal/codec. Types says how readers and writers are seen; Buffer and Buffer/Cursor are
--   buffer.go, Vle is vle.go, Primitives is primitives.go, Header is header.go, Ext is ext.go,
--   Framing is framing.go with `io.ReadFull` on the bytes of a stream. Carries is the promise between
--   an encoder and its decoder, and how it composes.
-- Wire: internal/wire. Ids, Qos, Resolution and Zid are the files of these names; Values is
--   timestamp.go, encoding.go and wireexpr.go; Frame is keepalive.go, close.go, frame.go and
--   fragment.go; Session is init.go, open.go and join.go, and Session/LaneSns the sequence numbers of the
--   lanes in a JOIN. Data is the PUT and DEL of data.go, and push.go; Query is request.go; Response,
--   Declare, Interest and Scout are the files of these names. Fields has what the messages share and what
--   must hold of a field for the wire to hold it; Starts is that an encoded message starts with its header.
-- KeyExpr: internal/keyexpr. KeyExpr itself has the operations of keyexpr.go, join.go, include.go and
--   intersect.go on texts; Text is what they use of Go's strings package; Matches is the meaning of an
--   expression; Chunks, Intersects, Complete, Canonical, Intersection and Inclusion take the operations
--   from texts to lists of chunks and to that meaning.
-- Transport: internal/transport. Sn is normalizeSNMask and the step of a sequence number, Fragmenter is
--   fragmenter.go, Reassembler is reassembler.go, Delivery runs one into the other, and
--   Interleaved does so with fragments of other lanes in between; Lane and Batcher are batcher.go, and the
--   children of Batcher bound what reaches the sink.
-- Session: internal/session. Aliases is aliases.go. Matching is matching.go: Matching/Entry has what an
--   operation does to one entry, Laws and View are about it, and Matching itself has the registry.
--   Registries is subscriber.go, queryable.go, liveliness.go and get_collector.go. Handshake is
--   initial_sn.go and what handshake.go and handshake_responder.go share; Handshake/Sides has the two
--   sides as programs that send and receive, Handshake/Messages and Handshake/Agreement let them talk.
--   Reader is reader.go. State is the part of session.go that a message reaches, with what the user's
--   callbacks are given as a list of events; Dispatch is dispatch.go and multicast_dispatch.go. Multicast is
--   the table of peers of multicast_peer.go; Multicast/Datagram takes a datagram apart, Multicast/Joining has
--   the configuration, the JOIN that is sent and the queue. Lookups, Answers and Evictions are about the
--   table, Announce about a JOIN from one peer to the other, and Parity about the multicast side beside
--   Reader.
-- Zenoh: zenoh. Json5 is json5.go: Json5/Lexical has the strings, numbers, words and keys, Json5/Parser the
--   values; Json5/Ends and Json5/Fuel are about the fuel, and Json5/Printer, Printed, Heads, Entered,
--   Steps and RoundTrip about what a printer gives. Config is config.go: Config/Keys walks along the recognised keys,
--   Config/Insert has their handlers and the entry points, Config/Nesting compares paths and documents.
-- Locator: internal/locator; Locator/Printed is about the text of a locator.
-- Parameters: the digest SHAKE128 of the initial sequence number, the random cookie of the responder,
--   which may fail, the sink behind a batcher, and the dispatcher of the reader, which Dispatch fills; the
--   tables of package unicode, `strconv.ParseFloat`, floats with their conversions, and `net.SplitHostPort`.
-- Examples: runs, and each theorem at an input.
--
-- Bounds. A byte is a number below 256 and machine integers keep their wrap-around. Loops run on fuel:
-- the variable-length loops have as many rounds as the source allows, `decode_exts_loop` has the number of
-- unread bytes, `chunk_intersect` and `ltr_includes` one more than the bytes of both texts,
-- `fragment_loop` the length of the message. The loops of the reader have the number of unread bytes, and
-- each round takes a header. `converse` runs two sides in rounds; the handshake needs three, as it has four
-- messages and each round has one of each side. `datagram_loop` has the number of unread bytes. The parser of
-- JSON5 has five rounds for a byte and five more.
--
-- Not modelled: sockets, goroutines, timers and channels, the run loop of a session; SubReader of
-- internal/codec; the public interface but its configuration; GenerateMulticastInitialSNs and GenerateZID,
-- which draw random numbers; log lines and the texts of errors.
pub mod Prelude
pub mod Codec
pub mod Wire
pub mod KeyExpr
pub mod Transport
pub mod Session
pub mod Zenoh
pub mod Locator
pub mod Examples
