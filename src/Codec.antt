-- ===== src/Codec.antt =====
-- internal/codec: the byte-level primitives of the wire format.
pub mod Types
pub mod Carries
pub mod Within
pub mod Buffer
pub mod Vle
pub mod Primitives
pub mod Header
pub mod Shrinks
pub mod Ext
pub mod Framing
