-- ===== src/Go/Bits.antt =====
-- Single bits of bytes, as `value & (1 << k) != 0` and `value |= 1 << k` read and set them, and a
-- string of bytes as the list of its bits, the lowest bit of each byte first.
use Prim.Native.Nat.{bit_and, bit_or}
use codboz_nx_online.Base.{
  ℕ, zero, suc, ◌+◌, ◌*◌, ◌/◌, ◌%◌, ◌^◌, ◌<◌, ◌≡◌, refl, sym, ap, ap₂, ◌∙◌, Bool, true, false, not,
  ◌&&◌, List, [], ◌∷◌, ◌++◌, append_assoc, length, take, drop, get_or, set, All, arith, ◌==◌, ==→eq,
  ltb, ltb→lt, replicate, if_true, if◌then◌else◌,
}
use codboz_nx_online.Go.Binary.{IsByte}

unfoldable pub test_bit : ℕ → ℕ → Bool
test_bit value k = not (bit_and value (2 ^ k) == 0)

unfoldable pub set_bit : ℕ → ℕ → ℕ
set_bit value k = bit_or value (2 ^ k)

unfoldable pub byte_bits : ℕ → List Bool
unfolding test_bit
byte_bits b =
    test_bit b 0
    ∷ test_bit b 1
    ∷ test_bit b 2
    ∷ test_bit b 3
    ∷ test_bit b 4
    ∷ test_bit b 5
    ∷ test_bit b 6
    ∷ test_bit b 7
    ∷ []

unfoldable pub bits : List ℕ → List Bool
unfolding byte_bits
bits [] = []
bits (b ∷ bs) = byte_bits b ++ bits bs

-- A test of the numbers under a bound, which the proofs below evaluate on all bytes.
tests_below : (ℕ → Bool) → ℕ → Bool
tests_below holds zero = true
tests_below holds (suc bound) = if holds bound then tests_below holds bound else false

tests_below-at :
    (holds : ℕ → Bool) (bound entry : ℕ)
    → entry < bound
    → tests_below holds bound ≡ true
    → holds entry ≡ true
unfolding tests_below
tests_below-at holds (suc bound) entry under passed =
    ground (arith, tests_below-at holds bound entry)
tests_below-at holds zero entry under passed = absurd (omega arith)

bit_value : Bool → ℕ → ℕ
bit_value b n = if b then n else 0

byte_of : List Bool → ℕ
unfolding bit_value
byte_of [] = 0
byte_of (b ∷ bs) = bit_value b 1 + 2 * byte_of bs

byte_table : tests_below (λ b. byte_of (byte_bits b) == b) 256 ≡ true
unfolding tests_below byte_of byte_bits
byte_table = refl

byte_of-byte_bits : (b : ℕ) → IsByte b → byte_of (byte_bits b) ≡ b
byte_of-byte_bits b h = ==→eq _ b (tests_below-at _ 256 b h byte_table)

same_bit : Bool → Bool → Bool
same_bit true b = b
same_bit false b = not b

same_bits : List Bool → List Bool → Bool
unfolding same_bit
same_bits [] [] = true
same_bits (a ∷ xs) (b ∷ bs) = same_bit a b && same_bits xs bs
same_bits [] (b ∷ bs) = false
same_bits (a ∷ xs) [] = false

same_bits_sound : (xs ys : List Bool) → same_bits xs ys ≡ true → xs ≡ ys
unfolding same_bits
same_bits_sound [] [] h = refl
same_bits_sound (true ∷ xs) (true ∷ bs) h = ap (λ l. true ∷ l) (same_bits_sound xs bs h)
same_bits_sound (false ∷ xs) (false ∷ bs) h =
    ap (λ l. false ∷ l) (same_bits_sound xs bs (ground arith))
same_bits_sound (true ∷ xs) (false ∷ bs) h = cc
same_bits_sound (false ∷ xs) (true ∷ bs) h = cc
same_bits_sound [] (b ∷ bs) h = cc
same_bits_sound (a ∷ xs) [] h = cc

set_table :
    tests_below
      (λ b.
        tests_below
          (λ k.
            same_bits (byte_bits (set_bit b k)) (set (byte_bits b) k true) && ltb (set_bit b k) 256)
          8)
      256
    ≡ true
unfolding tests_below same_bits byte_bits set_bit
set_table = refl

and_split : (a b : Bool) → (a && b) ≡ true → (a ≡ true) × (b ≡ true)
and_split true b h = (refl, h)
and_split false b h = cc

-- The bit at a place of the whole string, as the loops of the bit streams address it.
unfoldable pub bit_at : List ℕ → ℕ → Bool
unfolding test_bit
bit_at bytes i = test_bit (get_or bytes (i / 8) 0) (i % 8)

unfoldable pub set_at : List ℕ → ℕ → List ℕ
unfolding set_bit
set_at bytes i = set bytes (i / 8) (set_bit (get_or bytes (i / 8) 0) (i % 8))

byte_bits-set_bit :
    (b k : ℕ)
    → IsByte b
    → k < 8
    → (byte_bits (set_bit b k) ≡ set (byte_bits b) k true) × IsByte (set_bit b k)
byte_bits-set_bit b k h small =
    let row = tests_below-at _ 256 b h set_table in
    let cell = tests_below-at _ 8 k small row in
    let both = and_split _ _ cell in (same_bits_sound _ _ both.0, ltb→lt _ _ both.1)

byte_bits-injective : (b c : ℕ) → IsByte b → IsByte c → byte_bits b ≡ byte_bits c → b ≡ c
byte_bits-injective b c hb hc e =
    sym (byte_of-byte_bits b hb) ∙ ap byte_of e ∙ byte_of-byte_bits c hc

-- A string of bytes is known from its bits.
pub bits-injective : (xs ys : List ℕ) → All IsByte xs → All IsByte ys → bits xs ≡ bits ys → xs ≡ ys
unfolding bits
bits-injective [] [] hx hy e = refl
bits-injective [] (y ∷ ys) hx hy e = cc
bits-injective (x ∷ xs) [] hx hy e = cc
bits-injective (x ∷ xs) (y ∷ ys) hx hy e =
    ap₂ ◌∷◌ (byte_bits-injective x y hx.0 hy.0 (unfold byte_bits in ap (take 8) e))
      (bits-injective xs ys hx.1 hy.1 (unfold byte_bits in ap (drop 8) e))

pub length-bits : (xs : List ℕ) → length (bits xs) ≡ 8 * length xs
unfolding bits
length-bits [] = omega arith
length-bits (x ∷ xs) = omega (arith, length-bits xs)

pub bits-append : (xs ys : List ℕ) → bits (xs ++ ys) ≡ bits xs ++ bits ys
unfolding bits
bits-append [] ys = refl
bits-append (x ∷ xs) ys =
    ap (λ l. byte_bits x ++ l) (bits-append xs ys)
    ∙ sym (append_assoc (byte_bits x) (bits xs) (bits ys))

pub bit_at-bits :
    (bytes : List ℕ) (i : ℕ) → i < 8 * length bytes → bit_at bytes i ≡ get_or (bits bytes) i false
unfolding bit_at bits
bit_at-bits [] i h = absurd (omega arith)
bit_at-bits (b ∷ bs) zero h = refl
bit_at-bits (b ∷ bs) (suc zero) h = refl
bit_at-bits (b ∷ bs) (suc (suc zero)) h = refl
bit_at-bits (b ∷ bs) (suc (suc (suc zero))) h = refl
bit_at-bits (b ∷ bs) (suc (suc (suc (suc zero)))) h = refl
bit_at-bits (b ∷ bs) (suc (suc (suc (suc (suc zero))))) h = refl
bit_at-bits (b ∷ bs) (suc (suc (suc (suc (suc (suc zero)))))) h = refl
bit_at-bits (b ∷ bs) (suc (suc (suc (suc (suc (suc (suc zero))))))) h = refl
bit_at-bits (b ∷ bs) (suc (suc (suc (suc (suc (suc (suc (suc i)))))))) h =
    let quotient : suc (suc (suc (suc (suc (suc (suc (suc i))))))) / 8 ≡ suc (i / 8) =
      omega arith in
    let rest : suc (suc (suc (suc (suc (suc (suc (suc i))))))) % 8 ≡ i % 8 = omega arith in
    rw (quotient, rest) (bit_at-bits bs i (omega arith))

-- The first byte of a string carries the first eight places.
set_append :
    (xs ys : List Bool) (k : ℕ) → k < length xs → set (xs ++ ys) k true ≡ set xs k true ++ ys
set_append [] ys k h = absurd (omega arith)
set_append (x ∷ xs) ys zero h = refl
set_append (x ∷ xs) ys (suc k) h = ap (λ l. x ∷ l) (set_append xs ys k (omega arith))

first-IsByte :
    (b : ℕ) (bs : List ℕ) (k : ℕ)
    → All IsByte (b ∷ bs)
    → k < 8
    → (bits (set_bit b k ∷ bs) ≡ set (bits (b ∷ bs)) k true) × All IsByte (set_bit b k ∷ bs)
unfolding bits
first-IsByte b bs k h small =
    let (e, valid) = byte_bits-set_bit b k h.0 small in
    (
      ap (λ l. l ++ bits bs) e
          ∙ sym (set_append (byte_bits b) (bits bs) k (unfold byte_bits in small)),
      (valid, h.1),
    )

pub bits-set_at :
    (bytes : List ℕ) (i : ℕ)
    → All IsByte bytes
    → i < 8 * length bytes
    → (bits (set_at bytes i) ≡ set (bits bytes) i true) × All IsByte (set_at bytes i)
unfolding set_at bits
bits-set_at [] i h lt = absurd (omega arith)
bits-set_at (b ∷ bs) zero h lt = first-IsByte b bs 0 h (omega arith)
bits-set_at (b ∷ bs) (suc zero) h lt = first-IsByte b bs 1 h (omega arith)
bits-set_at (b ∷ bs) (suc (suc zero)) h lt = first-IsByte b bs 2 h (omega arith)
bits-set_at (b ∷ bs) (suc (suc (suc zero))) h lt = first-IsByte b bs 3 h (omega arith)
bits-set_at (b ∷ bs) (suc (suc (suc (suc zero)))) h lt = first-IsByte b bs 4 h (omega arith)
bits-set_at (b ∷ bs) (suc (suc (suc (suc (suc zero))))) h lt = first-IsByte b bs 5 h (omega arith)
bits-set_at (b ∷ bs) (suc (suc (suc (suc (suc (suc zero)))))) h lt =
    first-IsByte b bs 6 h (omega arith)
bits-set_at (b ∷ bs) (suc (suc (suc (suc (suc (suc (suc zero))))))) h lt =
    first-IsByte b bs 7 h (omega arith)
bits-set_at (b ∷ bs) (suc (suc (suc (suc (suc (suc (suc (suc i)))))))) h lt =
    let quotient : suc (suc (suc (suc (suc (suc (suc (suc i))))))) / 8 ≡ suc (i / 8) =
      omega arith in
    let rest : suc (suc (suc (suc (suc (suc (suc (suc i))))))) % 8 ≡ i % 8 = omega arith in
    let (e, valid) = bits-set_at bs i h.1 (omega arith) in
    rw (quotient, rest) (unfold byte_bits in ap (λ l. byte_bits b ++ l) e, (h.0, valid))

mask_table :
    tests_below
      (λ b.
        if same_bits (drop 3 (byte_bits b)) (replicate 5 false) then bit_and b 0xf8 == 0 else true)
      256
    ≡ true
unfolding tests_below same_bits byte_bits
mask_table = refl

-- `b & 0xf8 == 0` where the five highest bits are clear.
pub bit_and-high_bits :
    (b : ℕ) → IsByte b → drop 3 (byte_bits b) ≡ replicate 5 false → (bit_and b 0xf8 == 0) ≡ true
unfolding same_bits
bit_and-high_bits b h e =
    let row = tests_below-at _ 256 b h mask_table in
    let same : same_bits (drop 3 (byte_bits b)) (replicate 5 false) ≡ true =
      ap (λ l. same_bits l (replicate 5 false)) e in
    sym (
      if_true (same_bits (drop 3 (byte_bits b)) (replicate 5 false)) (bit_and b 0xf8 == 0) true
        same)
    ∙ row
