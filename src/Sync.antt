-- ===== src/Sync.antt =====
-- zowpy/protocol/historysync: the hash of a synchronised collection.
pub mod Words
pub mod LtHash
pub mod Expansion
pub mod Laws
mod Examples
