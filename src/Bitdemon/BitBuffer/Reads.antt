-- ===== src/Bitdemon/BitBuffer/Reads.antt =====
-- bitbuffer.go: what the methods of a BitReader take off the bits that are left.
use codboz_nx_online.Base.{
  ℕ, zero, suc, ◌+◌, ◌-◌, ◌*◌, ◌/◌, ◌%◌, ◌^◌, ◌≤◌, ◌<◌, ◌≡◌, refl, sym, ap, ◌∙◌, subst, Bool, true,
  false, List, [], ◌∷◌, ◌++◌, append-nil, length, take, drop, replicate, get_or, All, arith, ltb,
  ◌==◌, le→ltb, ==_refl, if◌then◌else◌, if_true, if_false, ok, length-append, length-replicate,
  length-drop, length-take, take-append, drop-append, drop-drop,
}
use codboz_nx_online.Go.Binary.{
  IsByte, le_bytes, le_value, le_value-le_bytes, length-le_bytes, le_bytes-IsByte,
}
use codboz_nx_online.Go.Bits.{bits, byte_bits, test_bit, bits-injective, length-bits}
use codboz_nx_online.Go.Reading.{◌>>=◌, pure, Gives, bind-Gives}
use codboz_nx_online.Bitdemon.ByteBuffer.{Error, type_uint32, type_uint64}
use codboz_nx_online.Bitdemon.BitBuffer.{
  BitReader, Read, set_reading_mode, remaining_bits, read_loop, read_bits, flag_mode,
  read_type_checked_flag, read_raw, check_type, expect, restoring, read_uint32, read_uint64,
}
use codboz_nx_online.Bitdemon.BitBuffer.Copy.{falses, Shows, read_loop-Shows}
use codboz_nx_online.Bitdemon.BitBuffer.Writes.{tag_bits}

-- The reader is in the mode `checked` and has the bits `xs` still to read.
pub record Ready (checked : Bool) (xs : List Bool) (r : BitReader) : Type 0 where
  pub left : drop r.bit_offset (bits r.bytes) ≡ xs
  pub inside : r.bit_offset ≤ 8 * length r.bytes
  pub moded : r.type_checked ≡ checked

pub remaining_bits-length :
    (checked : Bool) (xs : List Bool) (r : BitReader)
    → Ready checked xs r
    → remaining_bits r ≡ length xs
unfolding remaining_bits
remaining_bits-length checked xs r ready =
    omega
      (arith, ap length ready.left, length-drop r.bit_offset (bits r.bytes), length-bits r.bytes)

bits-zeros : (n : ℕ) → Shows (falses (8 * n)) (replicate n 0)
unfolding bits byte_bits test_bit
bits-zeros zero = (refl, tt)
bits-zeros (suc n) =
    let (e, valid) = bits-zeros n in
    let size : 8 * suc n ≡ suc (suc (suc (suc (suc (suc (suc (suc (8 * n)))))))) = omega arith in
    (ap (λ l. falses 8 ++ l) e ∙ ap falses (sym size), (omega arith, valid))

-- `ys` are the bits that are read and `value` the bytes that hold them.
module _ (checked : Bool) (ys rest : List Bool) (k : ℕ) (value : List ℕ) (r : BitReader)
    (small : k < 8) (shown : bits value ≡ ys ++ falses k) (valid : All IsByte value)
    (ready : Ready checked (ys ++ rest) r) where
  size : 8 * length value ≡ length ys + k
  size = omega (
    arith,
    length-bits value,
    ap length shown,
    length-append ys (falses k),
    length-replicate k false,
  )

  enough : r.bit_offset + length ys ≤ 8 * length r.bytes
  enough = omega (
    arith,
    ready.inside,
    length-bits r.bytes,
    ap length ready.left,
    length-drop r.bit_offset (bits r.bytes),
    length-append ys rest,
  )

  read_loop-value :
      read_loop (length ys) 0 r.bytes r.bit_offset (replicate (length value) 0) ≡ value
  read_loop-value =
      let (zeros, zeros_valid) = bits-zeros (length value) in
      let start : r.bit_offset + 0 ≡ r.bit_offset = omega arith in
      let (e, read_valid) =
        read_loop-Shows (length ys) [] k r.bytes r.bit_offset (replicate (length value) 0)
          (omega (arith, enough)) (zeros ∙ ap falses size, zeros_valid) in
      let taken : take (length ys) (drop (r.bit_offset + 0) (bits r.bytes)) ≡ ys =
        ap (λ j. take (length ys) (drop j (bits r.bytes))) start
        ∙ ap (take (length ys)) ready.left
        ∙ take-append ys rest in
      bits-injective _ value read_valid valid (e ∙ ap (λ l. l ++ falses k) taken ∙ sym shown)

  result_size : (if length ys % 8 == 0 then length ys / 8 else length ys / 8 + 1) ≡ length value
  result_size = ground (arith, size)

  after : BitReader
  after = record r { bit_offset = r.bit_offset + length ys }

  read_bits-ok : read_bits (length ys) r ≡ (ok value, after)
  unfolding read_bits after
  read_bits-ok =
      let fits : ltb (8 * length r.bytes - r.bit_offset) (length ys) ≡ false =
        le→ltb (8 * length r.bytes - r.bit_offset) (length ys) (omega (arith, enough)) in
      rw (fits, result_size) (ap (λ (v : List ℕ). (ok v, after)) read_loop-value)

  after-Ready : Ready checked rest after
  unfolding after
  after-Ready = record {
    left =
        sym (drop-drop r.bit_offset (length ys) (bits r.bytes))
        ∙ ap (drop (length ys)) ready.left
        ∙ drop-append ys rest;
    inside = enough;
    moded = ready.moded;
  }

  pub read_bits-Gives : (n : ℕ) → n ≡ length ys → Gives (Ready checked rest) value (read_bits n r)
  read_bits-Gives n same =
      subst (λ j. Gives (Ready checked rest) value (read_bits j r)) (sym same)
        (after, read_bits-ok, after-Ready)

-- The next steps of a parser are in the mode `checked`, with `rest` to read.
flag_byte : Bool → ℕ
flag_byte b = if b then 1 else 0

flag_mode-Gives :
    (checked b : Bool) (rest : List Bool) (r : BitReader)
    → Ready checked rest r
    → Gives (Ready b rest) b (flag_mode (flag_byte b ∷ []) r)
unfolding flag_mode flag_byte
flag_mode-Gives checked true rest r ready = (
  record r { type_checked = true },
  refl,
  record { left = ready.left; inside = ready.inside; moded = refl },
)
flag_mode-Gives checked false rest r ready = (
  record r { type_checked = false },
  refl,
  record { left = ready.left; inside = ready.inside; moded = refl },
)

flag_byte-bits :
    (b : Bool) → (bits (flag_byte b ∷ []) ≡ (b ∷ []) ++ falses 7) × All IsByte (flag_byte b ∷ [])
unfolding flag_byte bits byte_bits test_bit
flag_byte-bits true = (refl, (omega arith, tt))
flag_byte-bits false = (refl, (omega arith, tt))

-- The flag becomes the mode.
pub read_type_checked_flag-Gives :
    (checked b : Bool) (rest : List Bool) (r : BitReader)
    → Ready checked (b ∷ rest) r
    → Gives (Ready b rest) b (read_type_checked_flag r)
unfolding read_type_checked_flag
read_type_checked_flag-Gives checked b rest r ready =
    let (shown, valid) = flag_byte-bits b in
    bind-Gives (Ready checked rest) (Ready b rest) (flag_byte b ∷ []) b (read_bits 1) flag_mode r
      (read_bits-Gives checked (b ∷ []) rest 7 (flag_byte b ∷ []) r (omega arith) shown valid ready
        1 (omega arith))
      (λ s. flag_mode-Gives checked b rest s)

pub set_reading_mode-Gives :
    {E : Type 0} (checked b : Bool) (rest : List Bool) (r : BitReader)
    → Ready checked rest r
    → Gives {E = E} (Ready b rest) tt (set_reading_mode b r)
unfolding set_reading_mode
set_reading_mode-Gives checked b rest r ready = (
  record r { type_checked = b },
  refl,
  record { left = ready.left; inside = ready.inside; moded = refl },
)

-- Whole bytes.
module _ (checked : Bool) (rest : List Bool) (value : List ℕ) (r : BitReader)
    (valid : All IsByte value) where
  whole-Gives :
      (n : ℕ)
      → n ≡ 8 * length value
      → Ready checked (bits value ++ rest) r
      → Gives (Ready checked rest) value (read_bits n r)
  whole-Gives n same ready =
      read_bits-Gives checked (bits value) rest 0 value r (omega arith)
        (sym (append-nil (bits value))) valid ready n (same ∙ sym (length-bits value))

  pub read_raw-Gives :
      Ready checked (bits value ++ rest) r
      → Gives (Ready checked rest) value (read_raw (length value) r)
  unfolding read_raw
  read_raw-Gives ready =
      let left : remaining_bits r ≡ 8 * length value + length rest = omega (
        arith,
        remaining_bits-length checked (bits value ++ rest) r ready,
        length-append (bits value) rest,
        length-bits value,
      ) in
      subst (Gives (Ready checked rest) value)
        (sym (
          if_false (ltb (remaining_bits r) (8 * length value)) _ (read_bits (8 * length value) r)
            (le→ltb (remaining_bits r) (8 * length value) (omega (arith, left)))))
        (whole-Gives (8 * length value) refl ready)

-- A type tag: five bits, which the checked mode alone reads.
abbrev pub IsTag : ℕ → Type 0
IsTag t = (bits (t ∷ []) ≡ take 5 (bits (t ∷ [])) ++ falses 3) × IsByte t

expect-Gives :
    (checked : Bool) (t : ℕ) (rest : List Bool) (r : BitReader)
    → IsTag t
    → Ready checked (tag_bits checked t ++ rest) r
    → Gives (Ready checked rest) tt (expect t r)
unfolding expect
expect-Gives true t rest r (shown, small) ready =
    let tag = take 5 (bits (t ∷ [])) in
    let check : List ℕ → Read Error (Unit {0}) = λ encoded. check_type t (get_or encoded 0 0) in
    subst (Gives (Ready true rest) tt)
      (sym (if_true r.type_checked ((read_bits 5 >>= check) r) _ ready.moded))
      (bind-Gives (Ready true rest) (Ready true rest) (t ∷ []) tt (read_bits 5) check r
        (read_bits-Gives true tag rest 3 (t ∷ []) r (omega arith) shown (small, tt) ready 5
          (omega (arith, length-take 5 (bits (t ∷ [])), length-bits (t ∷ []))))
        (λ s done. (s, unfold check_type in rw (==_refl t), done)))
expect-Gives false t rest r tag ready =
    subst (Gives (Ready false rest) tt) (sym (if_false r.type_checked _ (ok tt, r) ready.moded))
      (r, refl, ready)

restoring-Gives :
    {A : Type 0} (P : BitReader → Type 0) (v : A) (m : Read Error A) (r : BitReader)
    → Gives P v (m r)
    → Gives P v (restoring m r)
restoring-Gives P v m r (s, e, ready) = (s, rw (e, restoring), ready)

-- A number of `n` bits behind its tag.
number-Gives :
    (checked : Bool) (t n : ℕ) (value : List ℕ) (rest : List Bool) (r : BitReader)
    → IsTag t
    → All IsByte value
    → n ≡ 8 * length value
    → Ready checked (tag_bits checked t ++ (bits value ++ rest)) r
    → Gives
        (Ready checked rest)
        (le_value value)
        (restoring (expect t >>= λ _. read_bits n >>= λ bytes. pure (le_value bytes)) r)
number-Gives checked t n value rest r tag valid same ready =
    let fetch : Unit {0} → Read Error ℕ = λ _. read_bits n >>= λ bytes. pure (le_value bytes) in
    restoring-Gives (Ready checked rest) (le_value value) (expect t >>= fetch) r (
      bind-Gives (Ready checked (bits value ++ rest)) (Ready checked rest) tt (le_value value)
        (expect t) fetch r (expect-Gives checked t (bits value ++ rest) r tag ready)
        (λ s ready1.
          bind-Gives (Ready checked rest) (Ready checked rest) value (le_value value) (read_bits n)
            (λ bytes. pure (le_value bytes)) s
            (whole-Gives checked rest value s valid n same ready1) (λ u ready2. (u, refl, ready2))))

pub read_uint32-Gives :
    (checked : Bool) (v : ℕ) (rest : List Bool) (r : BitReader)
    → v < 2 ^ 32
    → Ready checked (tag_bits checked type_uint32 ++ (bits (le_bytes 4 v) ++ rest)) r
    → Gives (Ready checked rest) v (read_uint32 r)
unfolding read_uint32 bits byte_bits test_bit
read_uint32-Gives checked v rest r small ready =
    subst (λ z. Gives (Ready checked rest) z (read_uint32 r)) (le_value-le_bytes 4 v small)
      (number-Gives checked type_uint32 32 (le_bytes 4 v) rest r (refl, omega arith)
        (le_bytes-IsByte 4 v) (omega (arith, length-le_bytes 4 v)) ready)

pub read_uint64-Gives :
    (checked : Bool) (v : ℕ) (rest : List Bool) (r : BitReader)
    → v < 2 ^ 64
    → Ready checked (tag_bits checked type_uint64 ++ (bits (le_bytes 8 v) ++ rest)) r
    → Gives (Ready checked rest) v (read_uint64 r)
unfolding read_uint64 bits byte_bits test_bit
read_uint64-Gives checked v rest r small ready =
    subst (λ z. Gives (Ready checked rest) z (read_uint64 r)) (le_value-le_bytes 8 v small)
      (number-Gives checked type_uint64 64 (le_bytes 8 v) rest r (refl, omega arith)
        (le_bytes-IsByte 8 v) (omega (arith, length-le_bytes 8 v)) ready)
