-- ===== src/Tests.antt =====
-- Tests, and the theorems at concrete inputs.
pub mod Digests
pub mod Bitdemon
pub mod Matchmaking
pub mod Sessions
pub mod Accounts
pub mod Requests
pub mod Bits
pub mod Connections
