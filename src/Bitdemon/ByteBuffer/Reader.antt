-- ===== src/Bitdemon/ByteBuffer/Reader.antt =====
-- bytebuffer.go, ByteReader. A method returns its (value, error) pair and the reader afterwards, for
-- a failed method changes the reader too. `bytes` is the field `data`.
pub mod Sound
use codboz_nx_online.Base.{
  ℕ, ◌+◌, ◌-◌, ◌≤◌, Bool, List, [], ◌==◌, ltb, if◌then◌else◌, length, take, drop, get_or, Option,
  none, some, Result, ok, err,
}
use codboz_nx_online.Go.Binary.{le_value}
use codboz_nx_online.Go.Bytes.{index_byte}
use codboz_nx_online.Go.Reading.{Reading, pure, raise, ◌>>=◌, ◌>>◌}
use codboz_nx_online.Go.Int32.{ℤ, to_int32}
use codboz_nx_online.Bitdemon.ByteBuffer.{
  Error, missing_nul, value_too_large, unexpected_eof, type_error, type_uint8, type_int32,
  type_uint32, type_uint64, type_string, type_blob,
}

pub record ByteReader : Type 0 where
  pub type_checked : Bool
  pub bytes : List ℕ
  pub offset : ℕ

unfoldable pub new_byte_reader : List ℕ → Bool → ByteReader
new_byte_reader bytes checked = record { type_checked = checked; bytes = bytes; offset = 0 }

-- A method of the reader, or a parser that calls its methods, with the errors `E`.
abbrev pub Read : Type 0 → Type 0 → Type 0
Read E A = Reading ByteReader E A

module _ {E : Type 0} where
  abbrev pub settle : {A : Type 0} → ℕ → Result E A × ByteReader → Result E A × ByteReader
  settle start (ok a, r) = (ok a, r)
  settle start (err e, r) = (err e, record r { offset = start })

  -- `start := reader.offset`, and `reader.offset = start` before each error is returned.
  abbrev pub restoring : {A : Type 0} → Read E A → Read E A
  restoring m r = settle r.offset (m r)

unfoldable pub remaining : ByteReader → ℕ
remaining r = length r.bytes - r.offset

-- `reader.data[reader.offset:]`
unfoldable pub remainder : ByteReader → List ℕ
remainder r = drop r.offset r.bytes

-- The lengths that the callers pass come from a uint32 or a constant and are not negative as an int
-- of 64 bits, so the test `length < 0` never holds.
unfoldable pub read : ℕ → Read Error (List ℕ)
unfolding remaining remainder
read n r =
    if ltb (remaining r) n
    then (err unexpected_eof, r)
    else (ok (take n (remainder r)), record r { offset = r.offset + n })

-- `actual := DataType(data[0])`, of a slice of one byte.
abbrev pub first : List ℕ → ℕ
first bs = get_or bs 0 0

unfoldable pub check_type : ℕ → ℕ → Read Error (Unit {0})
check_type expected actual =
    if actual == expected then pure tt else raise (type_error expected actual)

unfoldable pub expect : ℕ → Read Error (Unit {0})
unfolding read check_type
expect expected r =
    if r.type_checked then (read 1 >>= λ bs. check_type expected (first bs)) r else (ok tt, r)

unfoldable pub read_raw : ℕ → Read Error (List ℕ)
unfolding read
read_raw n = restoring (read n)

unfoldable pub read_uint8 : Read Error ℕ
unfolding read expect
read_uint8 = restoring do expect type_uint8; bs ← read 1; pure (first bs)

unfoldable pub read_int32 : Read Error ℤ
unfolding read expect
read_int32 = restoring do expect type_int32; bs ← read 4; pure (to_int32 (le_value bs))

unfoldable pub read_uint32 : Read Error ℕ
unfolding read expect
read_uint32 = restoring do expect type_uint32; bs ← read 4; pure (le_value bs)

unfoldable pub read_uint64 : Read Error ℕ
unfolding read expect
read_uint64 = restoring do expect type_uint64; bs ← read 8; pure (le_value bs)

-- ReadString after the type tag: `found` is the index of the terminator.
unfoldable pub cut_string : ℕ → Option ℕ → Read Error (List ℕ)
unfolding remainder
cut_string max_length none r = (err missing_nul, r)
cut_string max_length (some terminator) r =
    if ltb max_length terminator
    then (err value_too_large, r)
    else (ok (take terminator (remainder r)), record r { offset = r.offset + (terminator + 1) })

unfoldable pub read_string : ℕ → Read Error (List ℕ)
unfolding expect cut_string remainder
read_string max_length =
    restoring do expect type_string; λ r. cut_string max_length (index_byte 0 (remainder r)) r

unfoldable pub check_length : ℕ → ℕ → Read Error (Unit {0})
check_length max_length n = if ltb max_length n then raise value_too_large else pure tt

unfoldable pub read_blob : ℕ → Read Error (List ℕ)
unfolding read expect read_uint32 check_length
read_blob max_length =
    restoring do expect type_blob; n ← read_uint32; check_length max_length n; read n
