-- ===== src/Rpc.antt =====
-- rpc: the tables of a connection, and reference-counted clients.
pub mod Slots
pub mod Exports
pub mod Embargoes
pub mod Refcount
pub mod Imports
mod Tests
