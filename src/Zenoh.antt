-- ===== src/Zenoh.antt =====
-- zenoh: the public package, of which the configuration and its reader are here.
pub mod Json5
pub mod Config
