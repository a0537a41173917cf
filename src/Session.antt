-- ===== src/Session.antt =====
-- internal/session: the registries of a session.
pub mod Aliases
pub mod Matching
pub mod Handshake
pub mod Reader
pub mod Multicast
pub mod Registries
pub mod State
pub mod Dispatch
