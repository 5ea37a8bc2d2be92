-- ===== src/Tests.antt =====
-- Concrete runs: a writer of flatbuffers, and the theorems at concrete transactions and clients.
pub mod Flatbuffer
pub mod Samples
pub mod Mosaics
pub mod Transfers
pub mod Locks
pub mod Names
pub mod Values
pub mod Addresses
pub mod Infos
pub mod Socket
pub mod Signing
pub mod Links
pub mod Metadata
