-- ===== src/Go/Bytes.antt =====
-- The functions of bytes and strings that the program calls. A string is the list of its bytes.
use codboz_nx_online.Base.{
  ℕ, zero, suc, ◌<◌, ◌≡◌, ◌⊎◌, inl, inr, Option-cases, Option, none, some, List, [], ◌∷◌, ◌++◌,
  arith, Bool, true, false, ◌==◌, if◌then◌else◌, length,
}

abbrev pub succ? : Option ℕ → Option ℕ
succ? none = none
succ? (some i) = some (suc i)

-- `bytes.IndexByte` and `strings.IndexByte`, with `none` for -1.
unfoldable pub index_byte : ℕ → List ℕ → Option ℕ
index_byte b [] = none
index_byte b (x ∷ xs) = if x == b then some 0 else succ? (index_byte b xs)

-- `IndexByte(s, b) >= 0`
abbrev pub is_found : Option ℕ → Bool
is_found none = false
is_found (some i) = true

abbrev pub contains_byte : ℕ → List ℕ → Bool
contains_byte b xs = is_found (index_byte b xs)

index_byte-lt : (b : ℕ) (xs : List ℕ) (i : ℕ) → index_byte b xs ≡ some i → i < length xs
unfolding index_byte
index_byte-lt b [] i h = cc
index_byte-lt b (x ∷ xs) zero h = omega arith
index_byte-lt b (x ∷ xs) (suc i) h = ground (arith, index_byte-lt b xs i)

pub index_byte_cases :
    (b : ℕ) (xs : List ℕ)
    → (index_byte b xs ≡ none) ⊎ ((i : ℕ) × (index_byte b xs ≡ some i) × (i < length xs))
index_byte_cases b xs = elim (Option-cases (index_byte b xs)) [
  | inl e ↦ inl e
  | inr (i, e) ↦ inr (i, e, index_byte-lt b xs i e)
]

pub index_byte-append :
    (b : ℕ) (xs ys : List ℕ)
    → index_byte b xs ≡ none
    → index_byte b (xs ++ b ∷ ys) ≡ some (length xs)
unfolding index_byte
index_byte-append b [] ys h = ground arith
index_byte-append b (x ∷ xs) ys h = ground (arith, index_byte-append b xs ys)

pub index_byte_absent : (b : ℕ) (xs : List ℕ) → contains_byte b xs ≡ false → index_byte b xs ≡ none
index_byte_absent b xs h = ground arith
