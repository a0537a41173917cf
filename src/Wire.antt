-- ===== src/Wire.antt =====
-- internal/wire: the typed messages of the protocol and the values that they carry.
pub mod Ids
pub mod Qos
pub mod Resolution
pub mod Zid
pub mod Fields
pub mod Starts
pub mod Values
pub mod Session
pub mod Frame
pub mod Data
pub mod Query
pub mod Response
pub mod Declare
pub mod Interest
pub mod Scout
