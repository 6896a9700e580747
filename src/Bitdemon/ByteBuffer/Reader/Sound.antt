-- ===== src/Bitdemon/ByteBuffer/Reader/Sound.antt =====
-- bytebuffer.go, ByteReader: what a read does to the reader, on success and on failure.
use codboz_nx_online.Base.{ℕ, ◌+◌, ◌≤◌, ◌≡◌, arith, drop, length, length-drop, Result, ok, err}
use codboz_nx_online.Go.Bytes.{index_byte_cases}
use codboz_nx_online.Bitdemon.ByteBuffer.Reader.{
  ByteReader, read_raw, read_uint8, read_int32, read_uint32, read_uint64, read_string, read_blob,
}

-- A success leaves the buffer alone and moves the offset forward, never past the end; a failure
-- leaves the whole reader as it was.
abbrev pub Sound : {E A : Type 0} → ByteReader → Result E A × ByteReader → Type 0
Sound r (ok a, r') =
    (r'.bytes ≡ r.bytes)
    × (r'.type_checked ≡ r.type_checked)
    × (r.offset ≤ r'.offset)
    × (r'.offset ≤ length r.bytes)
Sound r (err e, r') = r' ≡ r

module _ (r : ByteReader) (inside : r.offset ≤ length r.bytes) where
  pub read_raw-Sound : (n : ℕ) → Sound r (read_raw n r)
  unfolding read_raw
  read_raw-Sound n = ground arith

  pub read_uint8-Sound : Sound r (read_uint8 r)
  unfolding read_uint8
  read_uint8-Sound = ground arith

  pub read_int32-Sound : Sound r (read_int32 r)
  unfolding read_int32
  read_int32-Sound = ground arith

  pub read_uint32-Sound : Sound r (read_uint32 r)
  unfolding read_uint32
  read_uint32-Sound = ground arith

  pub read_uint64-Sound : Sound r (read_uint64 r)
  unfolding read_uint64
  read_uint64-Sound = ground arith

  pub read_blob-Sound : (n : ℕ) → Sound r (read_blob n r)
  unfolding read_blob
  read_blob-Sound n = ground arith

  pub read_string-Sound : (n : ℕ) → Sound r (read_string n r)
  unfolding read_string
  read_string-Sound n = ground (
    arith,
    index_byte_cases 0 (drop r.offset r.bytes),
    index_byte_cases 0 (drop (r.offset + 1) r.bytes),
    length-drop r.offset r.bytes,
    length-drop (r.offset + 1) r.bytes,
  )

  -- Each of the seven reads of a reader whose offset lies in its buffer: on success the buffer and
  -- the type mode are the same and the offset has not gone back nor past the end; on any error,
  -- also one that strikes after the type tag was taken, the reader is what it was before the call.
  pub reads-Sound :
      (n : ℕ)
      → Sound r (read_raw n r)
        × Sound r (read_uint8 r)
        × Sound r (read_int32 r)
        × Sound r (read_uint32 r)
        × Sound r (read_uint64 r)
        × Sound r (read_string n r)
        × Sound r (read_blob n r)
  reads-Sound n = (
    read_raw-Sound n,
    read_uint8-Sound,
    read_int32-Sound,
    read_uint32-Sound,
    read_uint64-Sound,
    read_string-Sound n,
    read_blob-Sound n,
  )
