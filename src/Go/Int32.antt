-- ===== src/Go/Int32.antt =====
-- Go's int32 and its conversions to and from uint32.
use codboz_nx_online.Base.{ℕ_discrete, ℕ, ◌-◌, ◌%◌, ◌^◌, ◌<◌, ◌≡◌, ap, arith, ltb, if◌then◌else◌}

-- `negsuc n` is -(n + 1).
pub data ℤ : Type 0 where
  pos : ℕ → ℤ
  negsuc : ℕ → ℤ

abbrev pub IsInt32 : ℤ → Type 0
IsInt32 (pos n) = n < 2 ^ 31
IsInt32 (negsuc n) = n < 2 ^ 31

same_sign : (f : ℕ → ℤ) {m n : ℕ} → (f m ≡ f n → m ≡ n) → Dec (m ≡ n) → Dec (f m ≡ f n)
same_sign f inj (yes p) = yes (ap f p)
same_sign f inj (no q) = no (λ e. q (inj e))

unfoldable pub ℤ-discrete : Discrete ℤ
unfolding same_sign ℕ_discrete
ℤ-discrete (pos m) (pos n) = same_sign pos (λ e. cc) (ℕ_discrete m n)
ℤ-discrete (negsuc m) (negsuc n) = same_sign negsuc (λ e. cc) (ℕ_discrete m n)
ℤ-discrete (pos m) (negsuc n) = no (λ e. cc)
ℤ-discrete (negsuc m) (pos n) = no (λ e. cc)

-- `uint32(value)`
unfoldable pub to_uint32 : ℤ → ℕ
to_uint32 (pos n) = n % 2 ^ 32
to_uint32 (negsuc n) = 2 ^ 32 - 1 - n % 2 ^ 32

-- `int32(value)` of a uint32.
unfoldable pub to_int32 : ℕ → ℤ
to_int32 w = if ltb w (2 ^ 31) then pos w else negsuc (2 ^ 32 - 1 - w)

pub to_uint32-lt : (z : ℤ) → to_uint32 z < 2 ^ 32
unfolding to_uint32
to_uint32-lt (pos n) = omega arith
to_uint32-lt (negsuc n) = omega arith

pub to_int32-to_uint32 : (z : ℤ) → IsInt32 z → to_int32 (to_uint32 z) ≡ z
unfolding to_uint32 to_int32
to_int32-to_uint32 (pos n) h = ground arith
to_int32-to_uint32 (negsuc n) h = ground arith
