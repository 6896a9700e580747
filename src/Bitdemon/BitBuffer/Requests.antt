-- ===== src/Bitdemon/BitBuffer/Requests.antt =====
-- A message that begins with its mode and two numbers, from a BitWriter to a BitReader: the requests
-- of internal/online/auth and the lobby's login are of this form.
use codboz_nx_online.Base.{
  ℕ, ◌+◌, ◌^◌, ◌<◌, ◌≡◌, ap, ◌∙◌, subst, Bool, true, false, List, [], ◌∷◌, ◌++◌, append_assoc,
  arith, ◌*◌, ◌%◌, length-append, take, ◌==◌, length,
}
use Prim.Native.Nat.{bit_and}
use codboz_nx_online.Go.Binary.{le_bytes, length-le_bytes}
use codboz_nx_online.Go.Bits.{bits, byte_bits, test_bit, length-bits}
use codboz_nx_online.Go.Reading.{Gives, wrap, wrap-Gives}
use codboz_nx_online.Bitdemon.ByteBuffer.{type_uint32}
use codboz_nx_online.Bitdemon.BitBuffer.{
  BitReader, new_bit_writer, new_bit_reader, read_type_checked_flag, read_uint32,
}
use codboz_nx_online.Bitdemon.BitBuffer.Copy.{falses}
use codboz_nx_online.Bitdemon.BitBuffer.Padding.{last, packed}
use codboz_nx_online.Bitdemon.BitBuffer.Reads.{
  Ready, read_type_checked_flag-Gives, read_uint32-Gives,
}
use codboz_nx_online.Bitdemon.BitBuffer.Writes.{
  tag_bits, Item, flag, uint32, item_bits, items_bits, write_items, write_items-items_bits,
}

abbrev pub header_bits : ℕ → ℕ → List Bool → List Bool
header_bits a b rest = true ∷ (item_bits true (uint32 a) ++ (item_bits true (uint32 b) ++ rest))

pub header_bits-append :
    (a b : ℕ) (xs ys : List Bool) → header_bits a b xs ++ ys ≡ header_bits a b (xs ++ ys)
header_bits-append a b xs ys =
    ap (λ l. true ∷ l)
      (append_assoc (item_bits true (uint32 a)) _ ys
        ∙ ap (λ l. item_bits true (uint32 a) ++ l) (append_assoc (item_bits true (uint32 b)) xs ys))

pub flag-Gives :
    {E : Type 0} (e : E) (rest : List Bool) (r : BitReader)
    → Ready false (true ∷ rest) r
    → Gives (Ready true rest) true (wrap (λ _. e) read_type_checked_flag r)
flag-Gives e rest r ready =
    wrap-Gives (λ _. e) (Ready true rest) true read_type_checked_flag r
      (read_type_checked_flag-Gives false true rest r ready)

pub number-Gives :
    {E : Type 0} (e : E) (n : ℕ) (rest : List Bool) (r : BitReader)
    → n < 2 ^ 32
    → Ready true (item_bits true (uint32 n) ++ rest) r
    → Gives (Ready true rest) n (wrap (λ _. e) read_uint32 r)
number-Gives e n rest r small ready =
    wrap-Gives (λ _. e) (Ready true rest) n read_uint32 r
      (read_uint32-Gives true n rest r small (
        subst (λ l. Ready true l r)
          (append_assoc (tag_bits true type_uint32) (bits (le_bytes 4 n)) rest) ready))

pub uint32_bits-length : (n : ℕ) → length (item_bits true (uint32 n)) ≡ 37
unfolding bits byte_bits test_bit
uint32_bits-length n =
    length-append (take 5 (bits (type_uint32 ∷ []))) (bits (le_bytes 4 n))
    ∙ ap (λ k. 5 + k) (length-bits (le_bytes 4 n) ∙ ap (λ k. 8 * k) (length-le_bytes 4 n))

header_bits-length : (a b : ℕ) (rest : List Bool) → length (header_bits a b rest) ≡ 75 + length rest
header_bits-length a b rest = omega (
  arith,
  uint32_bits-length a,
  uint32_bits-length b,
  length-append (item_bits true (uint32 a)) (item_bits true (uint32 b) ++ rest),
  length-append (item_bits true (uint32 b)) rest,
)

abbrev pub request_items : ℕ → ℕ → List Item → List Item
request_items a b items = flag ∷ uint32 a ∷ uint32 b ∷ items

abbrev pub request_buffer : ℕ → ℕ → List Item → List ℕ
request_buffer a b items = (write_items (request_items a b items) (new_bit_writer true)).written

-- What a BitWriter makes of a request, behind the two bytes of its envelope.
pub request_buffer-Ready :
    (kind a b : ℕ) (items : List Item)
    → length (items_bits true items) % 8 ≡ 0
    → (8 * length (request_buffer a b items) ≡ 80 + length (items_bits true items))
      × ((bit_and (last (0 ∷ kind ∷ request_buffer a b items)) 0xf8 == 0) ≡ true)
      × Ready false
          (header_bits a b (items_bits true items ++ falses 5))
          (new_bit_reader (request_buffer a b items))
request_buffer-Ready kind a b items whole =
    let (mode, wrote) = write_items-items_bits true (request_items a b items) in
    let xs = items_bits true items in
    let size = header_bits-length a b xs in
    let (filled, clear, ready) =
      packed 0 kind (header_bits a b xs) (request_buffer a b items) (omega (arith, size))
        wrote.held in
    (
      omega (arith, size, filled),
      clear,
      subst (λ l. Ready false l (new_bit_reader (request_buffer a b items)))
          (header_bits-append a b xs (falses 5)) ready,
    )
