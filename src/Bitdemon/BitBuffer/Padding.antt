-- ===== src/Bitdemon/BitBuffer/Padding.antt =====
-- The end of a message that a BitWriter has filled to three bits of its last byte: the requests of
-- internal/online/auth and the lobby's login are all of this form.
use Prim.Native.Nat.{bit_and}
use codboz_nx_online.Base.{
  ℕ, suc, ◌+◌, ◌-◌, ◌*◌, ◌%◌, ◌≤◌, ◌≡◌, refl, sym, ap, ◌∙◌, Bool, true, false, List, [], ◌∷◌, ◌++◌,
  zero, append-nil, length, drop, get_or, All, arith, ◌==◌, length-append, length-replicate,
}
use codboz_nx_online.Go.Binary.{IsByte}
use codboz_nx_online.Go.Bits.{bits, byte_bits, length-bits, bit_and-high_bits}
use codboz_nx_online.Bitdemon.BitBuffer.{new_bit_reader}
use codboz_nx_online.Bitdemon.BitBuffer.Copy.{falses, Holds}
use codboz_nx_online.Bitdemon.BitBuffer.Reads.{Ready}

abbrev pub last : List ℕ → ℕ
last bytes = get_or bytes (length bytes - 1) 0

drop-append_le : (n : ℕ) (xs ys : List Bool) → n ≤ length xs → drop n (xs ++ ys) ≡ drop n xs ++ ys
drop-append_le zero xs ys h = refl
drop-append_le (suc n) [] ys h = absurd (omega arith)
drop-append_le (suc n) (x ∷ xs) ys h = drop-append_le n xs ys (omega arith)

last_byte :
    (b : ℕ) (ys : List Bool)
    → IsByte b
    → byte_bits b ≡ ys ++ falses 5
    → (bit_and b 0xf8 == 0) ≡ true
unfolding byte_bits
last_byte b ys h e =
    let three : length ys ≡ 3 = omega (arith, ap length e, length-append ys (falses 5)) in
    bit_and-high_bits b h (
      ap (drop 3) e
      ∙ drop-append_le 3 ys (falses 5) (omega arith)
      ∙ ap (λ l. l ++ falses 5) (empty ys three))
  where
    empty : (zs : List Bool) → length zs ≡ 3 → drop 3 zs ≡ []
    empty (x ∷ y ∷ z ∷ []) h = refl
    empty [] h = absurd (omega arith)
    empty (x ∷ []) h = absurd (omega arith)
    empty (x ∷ y ∷ []) h = absurd (omega arith)
    empty (x ∷ y ∷ z ∷ u ∷ zs) h = absurd (omega arith)

last_padded :
    (buffer : List ℕ) (ys : List Bool)
    → All IsByte buffer
    → bits buffer ≡ ys ++ falses 5
    → (bit_and (last buffer) 0xf8 == 0) ≡ true
unfolding bits
last_padded [] ys valid e = absurd (omega (arith, ap length e, length-append ys (falses 5)))
last_padded (b ∷ []) ys valid e = last_byte b ys valid.0 (sym (append-nil (byte_bits b)) ∙ e)
last_padded (b ∷ c ∷ rest) ys valid e =
    let long : 8 ≤ length ys =
      omega (arith, length-bits (b ∷ c ∷ rest), ap length e, length-append ys (falses 5)) in
    let place : length (b ∷ c ∷ rest) - 1 ≡ suc (length (c ∷ rest) - 1) = omega arith in
    let behind : bits (c ∷ rest) ≡ drop 8 ys ++ falses 5 =
      unfold byte_bits in ap (drop 8) e ∙ drop-append_le 8 ys (falses 5) long in
    ap (λ i. bit_and (get_or (b ∷ c ∷ rest) i 0) 0xf8 == 0) place
    ∙ last_padded (c ∷ rest) (drop 8 ys) valid.1 behind

-- A buffer behind two more bytes: its size, its last byte, and what a new reader of it has to read.
pub packed :
    (a b : ℕ) (xs : List Bool) (buffer : List ℕ)
    → length xs % 8 ≡ 3
    → Holds xs buffer
    → (8 * length buffer ≡ length xs + 5)
      × ((bit_and (last (a ∷ b ∷ buffer)) 0xf8 == 0) ≡ true)
      × Ready false (xs ++ falses 5) (new_bit_reader buffer)
unfolding new_bit_reader
packed a b xs buffer three h =
    let size : 8 * length buffer ≡ length xs + h.spare = omega (
      arith,
      length-bits buffer,
      ap length h.shown,
      length-append xs (falses h.spare),
      length-replicate h.spare false,
    ) in
    let five : h.spare ≡ 5 = omega (arith, h.few) in
    let shown : bits buffer ≡ xs ++ falses 5 = h.shown ∙ ap (λ k. xs ++ falses k) five in
    let place : length (a ∷ b ∷ buffer) - 1 ≡ suc (suc (length buffer - 1)) = omega arith in
    (
      omega arith,
      ap (λ i. bit_and (get_or (a ∷ b ∷ buffer) i 0) 0xf8 == 0) place
          ∙ last_padded buffer xs h.valid shown,
      record { left = shown; inside = omega arith; moded = refl },
    )
