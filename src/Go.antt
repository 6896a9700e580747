-- ===== src/Go.antt =====
-- What the program uses of the Go language and its standard library.
pub mod Map
pub mod Counter
pub mod Binary
pub mod Bits
pub mod Bytes
pub mod Int32
pub mod Stream
pub mod Reading
pub mod Discrete
pub mod Tally
pub mod Net
pub mod Word64
