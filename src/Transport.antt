-- ===== src/Transport.antt =====
-- internal/transport: fragmenting messages that are too large for a batch, and their reassembly.
pub mod Sn
pub mod Fragmenter
pub mod Reassembler
pub mod Delivery
pub mod Interleaved
pub mod Lane
pub mod Batcher
