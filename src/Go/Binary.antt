-- ===== src/Go/Binary.antt =====
-- encoding/binary: the fixed-width little-endian and big-endian numbers, at a width of `k` bytes. A
-- byte is a number below 256, and a uintN a number below 2 ^ N.
use codboz_nx_online.Base.{
  ℕ, zero, suc, ◌+◌, ◌*◌, ◌/◌, ◌%◌, ◌<◌, ◌≡◌, refl, ap, List, [], ◌∷◌, ◌++◌, arith, length, All,
}

abbrev pub IsByte : ℕ → Type 0
IsByte b = b < 256

-- 256 ^ k, in the form that computes at a successor.
abbrev pub pow256 : ℕ → ℕ
pow256 zero = 1
pow256 (suc k) = 256 * pow256 k

-- `LittleEndian.PutUintN` and `AppendUintN`, the bytes alone.
unfoldable pub le_bytes : ℕ → ℕ → List ℕ
le_bytes zero n = []
le_bytes (suc k) n = (n % 256) ∷ le_bytes k (n / 256)

-- `LittleEndian.UintN` of the bytes given.
unfoldable pub le_value : List ℕ → ℕ
le_value [] = 0
le_value (b ∷ bs) = b + 256 * le_value bs

-- `BigEndian.PutUintN`.
unfoldable pub be_bytes : ℕ → ℕ → List ℕ
be_bytes zero n = []
be_bytes (suc k) n = be_bytes k (n / 256) ++ (n % 256) ∷ []

-- `BigEndian.UintN` of the bytes given, read from `acc` on.
unfoldable pub be_value_from : ℕ → List ℕ → ℕ
be_value_from acc [] = acc
be_value_from acc (b ∷ bs) = be_value_from (acc * 256 + b) bs

unfoldable pub be_value : List ℕ → ℕ
unfolding be_value_from
be_value bs = be_value_from 0 bs

pub length-le_bytes : (k n : ℕ) → length (le_bytes k n) ≡ k
unfolding le_bytes
length-le_bytes zero n = refl
length-le_bytes (suc k) n = ap suc (length-le_bytes k (n / 256))

pub le_bytes-IsByte : (k n : ℕ) → All IsByte (le_bytes k n)
unfolding le_bytes
le_bytes-IsByte zero n = tt
le_bytes-IsByte (suc k) n = (omega arith, le_bytes-IsByte k (n / 256))

pub le_value-le_bytes : (k n : ℕ) → n < pow256 k → le_value (le_bytes k n) ≡ n
unfolding le_bytes le_value
le_value-le_bytes zero n h = omega arith
le_value-le_bytes (suc k) n h = omega (arith, le_value-le_bytes k (n / 256) (omega arith))

pub le_value-lt : (bs : List ℕ) → All IsByte bs → le_value bs < pow256 (length bs)
unfolding le_value
le_value-lt [] h = omega arith
le_value-lt (b ∷ bs) h = omega (arith, le_value-lt bs h.1, h.0)

be_value_from-append :
    (acc : ℕ) (xs ys : List ℕ)
    → be_value_from acc (xs ++ ys) ≡ be_value_from (be_value_from acc xs) ys
unfolding be_value_from
be_value_from-append acc [] ys = refl
be_value_from-append acc (x ∷ xs) ys = be_value_from-append (acc * 256 + x) xs ys

pub be_value-be_bytes : (k n : ℕ) → n < pow256 k → be_value (be_bytes k n) ≡ n
unfolding be_bytes be_value
be_value-be_bytes zero n h = omega arith
be_value-be_bytes (suc k) n h = omega (
  arith,
  be_value_from-append 0 (be_bytes k (n / 256)) ((n % 256) ∷ []),
  be_value-be_bytes k (n / 256) (omega arith),
)
