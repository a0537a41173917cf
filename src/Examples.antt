-- ===== src/Examples.antt =====
-- Runs of the definitions, and each theorem at an input.
pub mod Codec
pub mod Wire
pub mod KeyExpr
pub mod Transport
pub mod Session
pub mod Network
pub mod Matching
pub mod Handshake
pub mod Inbound
pub mod Json5
pub mod Config
pub mod Multicast
pub mod Locator
