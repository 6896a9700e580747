-- ===== src/Bitdemon.antt =====
-- internal/online/bitdemon: the wire formats.
pub mod ByteBuffer
pub mod BitBuffer
pub mod Frame
pub mod Tiger
pub mod Crypto
