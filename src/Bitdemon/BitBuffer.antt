-- ===== src/Bitdemon/BitBuffer.antt =====
-- internal/online/bitdemon/bitbuffer.go: BitWriter and BitReader. A bit offset counts the bits of a
-- buffer in memory and stays far below 2 ^ 64; a value that is written holds at least the bits that
-- are taken from it.
pub mod Copy
pub mod Writes
pub mod Reads
pub mod Padding
pub mod Requests
use Prim.Native.Nat.{bit_and}
use codboz_nx_online.Base.{
  ℕ, zero, suc, ◌+◌, ◌-◌, ◌*◌, ◌/◌, ◌%◌, Bool, true, false, not, List, [], ◌∷◌, ◌++◌, ltb, ◌==◌,
  if◌then◌else◌, length, replicate, get_or, Result, ok, err,
}
use codboz_nx_online.Go.Binary.{le_bytes, le_value}
use codboz_nx_online.Go.Bits.{bit_at, set_at}
use codboz_nx_online.Go.Reading.{Reading, pure, raise, ◌>>=◌, ◌>>◌}
use codboz_nx_online.Bitdemon.ByteBuffer.{
  Error, unexpected_eof, type_error, type_uint8, type_uint32, type_uint64,
}

abbrev pub bit_mode_type_width : ℕ
bit_mode_type_width = 5

pub record BitWriter : Type 0 where
  pub type_checked : Bool
  pub written : List ℕ
  pub bit_offset : ℕ

unfoldable pub new_bit_writer : Bool → BitWriter
new_bit_writer checked = record { type_checked = checked; written = []; bit_offset = 0 }

-- `if b { buffer[…] |= 1 << … }`
abbrev pub mark : Bool → ℕ → List ℕ → List ℕ
mark b i buffer = if b then set_at buffer i else buffer

-- The buffer gets another byte where the bit lies behind its end.
abbrev pub grow : ℕ → List ℕ → List ℕ
grow i buffer = if i / 8 == length buffer then buffer ++ 0 ∷ [] else buffer

-- The loop of writeBits, with the rounds that are left.
unfoldable pub write_loop : ℕ → ℕ → List ℕ → ℕ → List ℕ → List ℕ
unfolding bit_at set_at
write_loop zero bit value offset buffer = buffer
write_loop (suc rounds) bit value offset buffer =
    write_loop rounds (bit + 1) value offset
      (mark (bit_at value bit) (offset + bit) (grow (offset + bit) buffer))

unfoldable pub write_bits : List ℕ → ℕ → BitWriter → BitWriter
unfolding write_loop
write_bits value count w = record w {
  written = write_loop count 0 value w.bit_offset w.written;
  bit_offset = w.bit_offset + count;
}

unfoldable pub set_type_checked : Bool → BitWriter → BitWriter
set_type_checked checked w = record w { type_checked = checked }

unfoldable pub write_type_checked_flag : BitWriter → BitWriter
unfolding write_bits
write_type_checked_flag w =
    if w.type_checked then write_bits (1 ∷ []) 1 w else write_bits (0 ∷ []) 1 w

unfoldable pub write_raw : List ℕ → BitWriter → BitWriter
unfolding write_bits
write_raw value w = write_bits value (8 * length value) w

unfoldable pub write_type : ℕ → BitWriter → BitWriter
unfolding write_bits
write_type t w = if w.type_checked then write_bits (t ∷ []) bit_mode_type_width w else w

unfoldable pub write_uint8 : ℕ → BitWriter → BitWriter
unfolding write_type write_bits
write_uint8 value w = write_bits (value ∷ []) 8 (write_type type_uint8 w)

unfoldable pub write_uint32 : ℕ → BitWriter → BitWriter
unfolding write_type write_bits
write_uint32 value w = write_bits (le_bytes 4 value) 32 (write_type type_uint32 w)

pub record BitReader : Type 0 where
  pub type_checked : Bool
  pub bytes : List ℕ
  pub bit_offset : ℕ

abbrev pub Read : Type 0 → Type 0 → Type 0
Read E A = Reading BitReader E A

unfoldable pub new_bit_reader : List ℕ → BitReader
new_bit_reader bytes = record { type_checked = false; bytes = bytes; bit_offset = 0 }

-- SetTypeChecked of the reader, as a step of a parser.
unfoldable pub set_reading_mode : {E : Type 0} → Bool → Read E (Unit {0})
set_reading_mode checked r = (ok tt, record r { type_checked = checked })

unfoldable pub remaining_bits : BitReader → ℕ
remaining_bits r = 8 * length r.bytes - r.bit_offset

-- The loop of readBits, with the rounds that are left.
unfoldable pub read_loop : ℕ → ℕ → List ℕ → ℕ → List ℕ → List ℕ
unfolding bit_at set_at
read_loop zero bit bytes offset result = result
read_loop (suc rounds) bit bytes offset result =
    read_loop rounds (bit + 1) bytes offset (mark (bit_at bytes (offset + bit)) bit result)

unfoldable pub read_bits : ℕ → Read Error (List ℕ)
unfolding read_loop remaining_bits
read_bits count r =
    let result_bytes = if count % 8 == 0 then count / 8 else count / 8 + 1 in
    if ltb (remaining_bits r) count then (err unexpected_eof, r) else (
      ok (read_loop count 0 r.bytes r.bit_offset (replicate result_bytes 0)),
      record r { bit_offset = r.bit_offset + count },
    )

unfoldable pub flag_mode : List ℕ → Read Error Bool
flag_mode value r =
    let checked = not (bit_and (get_or value 0 0) 1 == 0) in
    (ok checked, record r { type_checked = checked })

unfoldable pub read_type_checked_flag : Read Error Bool
unfolding read_bits flag_mode
read_type_checked_flag = read_bits 1 >>= flag_mode

unfoldable pub read_raw : ℕ → Read Error (List ℕ)
unfolding read_bits
read_raw length r =
    if ltb (remaining_bits r) (8 * length)
    then (err unexpected_eof, r)
    else read_bits (8 * length) r

unfoldable pub check_type : ℕ → ℕ → Read Error (Unit {0})
check_type expected actual =
    if actual == expected then pure tt else raise (type_error expected actual)

unfoldable pub expect : ℕ → Read Error (Unit {0})
unfolding read_bits check_type
expect expected r =
    if r.type_checked
    then (read_bits bit_mode_type_width >>= λ encoded. check_type expected (get_or encoded 0 0)) r
    else (ok tt, r)

abbrev pub settle : {A : Type 0} → ℕ → Result Error A × BitReader → Result Error A × BitReader
settle start (ok a, r) = (ok a, r)
settle start (err e, r) = (err e, record r { bit_offset = start })

-- `start := reader.bitOffset`, and `reader.bitOffset = start` before each error is returned.
abbrev pub restoring : {A : Type 0} → Read Error A → Read Error A
restoring m r = settle r.bit_offset (m r)

unfoldable pub read_uint32 : Read Error ℕ
unfolding read_bits expect
read_uint32 = restoring do expect type_uint32; value ← read_bits 32; pure (le_value value)

unfoldable pub read_uint64 : Read Error ℕ
unfolding read_bits expect
read_uint64 = restoring do expect type_uint64; value ← read_bits 64; pure (le_value value)
