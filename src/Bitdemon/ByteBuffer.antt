-- ===== src/Bitdemon/ByteBuffer.antt =====
-- internal/online/bitdemon/bytebuffer.go: the type tags and errors that the writer and the reader
-- share. `%w` wraps a sentinel in a text; the model keeps the sentinel.
pub mod Writer
pub mod Reader
pub mod Encoding
pub mod RoundTrip
use codboz_nx_online.Base.{ℕ}

abbrev pub type_uint8 : ℕ
type_uint8 = 0x03

abbrev pub type_int32 : ℕ
type_int32 = 0x07

abbrev pub type_uint32 : ℕ
type_uint32 = 0x08

abbrev pub type_uint64 : ℕ
type_uint64 = 0x0a

abbrev pub type_string : ℕ
type_string = 0x10

abbrev pub type_blob : ℕ
type_blob = 0x13

-- `math.MaxUint32`
abbrev pub max_uint32 : ℕ
max_uint32 = 0xffff_ffff

pub data Error : Type 0 where
  embedded_nul missing_nul value_too_large unexpected_eof : Error
  type_error : ℕ → ℕ → Error
