-- ===== src/Bitdemon/ByteBuffer/Writer.antt =====
-- bytebuffer.go, ByteWriter. A method returns the new writer.
use codboz_nx_online.Base.{
  ℕ, ◌+◌, Bool, List, [], ◌∷◌, ◌++◌, ltb, if◌then◌else◌, length, Result, ok, err,
}
use codboz_nx_online.Go.Binary.{le_bytes}
use codboz_nx_online.Go.Bytes.{contains_byte}
use codboz_nx_online.Go.Int32.{ℤ, to_uint32}
use codboz_nx_online.Bitdemon.ByteBuffer.{
  Error, embedded_nul, value_too_large, type_uint8, type_int32, type_uint32, type_uint64,
  type_string, type_blob, max_uint32,
}

pub record ByteWriter : Type 0 where
  pub type_checked : Bool
  pub written : List ℕ

unfoldable pub new_byte_writer : Bool → ByteWriter
new_byte_writer checked = record { type_checked = checked; written = [] }

-- `writer.data = append(writer.data, value...)`
unfoldable pub write_raw : List ℕ → ByteWriter → ByteWriter
write_raw value w = record w { written = w.written ++ value }

unfoldable pub write_type : ℕ → ByteWriter → ByteWriter
unfolding write_raw
write_type t w = if w.type_checked then write_raw (t ∷ []) w else w

unfoldable pub write_uint8 : ℕ → ByteWriter → ByteWriter
unfolding write_type write_raw
write_uint8 value w = write_raw (value ∷ []) (write_type type_uint8 w)

unfoldable pub write_int32 : ℤ → ByteWriter → ByteWriter
unfolding write_type write_raw
write_int32 value w = write_raw (le_bytes 4 (to_uint32 value)) (write_type type_int32 w)

unfoldable pub write_uint32 : ℕ → ByteWriter → ByteWriter
unfolding write_type write_raw
write_uint32 value w = write_raw (le_bytes 4 value) (write_type type_uint32 w)

unfoldable pub write_uint64 : ℕ → ByteWriter → ByteWriter
unfolding write_type write_raw
write_uint64 value w = write_raw (le_bytes 8 value) (write_type type_uint64 w)

unfoldable pub write_string : List ℕ → ByteWriter → Result Error ByteWriter
unfolding write_type write_raw
write_string value w =
    if contains_byte 0 value
    then err embedded_nul
    else if ltb max_uint32 (length value + 1)
    then err value_too_large
    else ok (write_raw (0 ∷ []) (write_raw value (write_type type_string w)))

unfoldable pub write_blob : List ℕ → ByteWriter → Result Error ByteWriter
unfolding write_type write_raw write_uint32
write_blob value w =
    if ltb max_uint32 (length value)
    then err value_too_large
    else ok (write_raw value (write_uint32 (length value) (write_type type_blob w)))
