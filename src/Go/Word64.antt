-- ===== src/Go/Word64.antt =====
-- Go's uint64 arithmetic, which wraps at 2 ^ 64.
use codboz_nx_online.Base.{ℕ, ◌+◌, ◌-◌, ◌*◌, ◌/◌, ◌%◌, ◌^◌}

abbrev pub mod64 : ℕ
mod64 = 2 ^ 64

unfoldable pub add64 : ℕ → ℕ → ℕ
add64 a b = (a + b) % mod64

unfoldable pub sub64 : ℕ → ℕ → ℕ
sub64 a b = (a + mod64 - b % mod64) % mod64

unfoldable pub mul64 : ℕ → ℕ → ℕ
mul64 a b = a * b % mod64

-- `^a`
unfoldable pub not64 : ℕ → ℕ
not64 a = mod64 - 1 - a

unfoldable pub shl64 : ℕ → ℕ → ℕ
shl64 a k = a * 2 ^ k % mod64

unfoldable pub shr64 : ℕ → ℕ → ℕ
shr64 a k = a / 2 ^ k

-- `byte(a >> k)`
unfoldable pub byte_at : ℕ → ℕ → ℕ
byte_at a k = a / 2 ^ k % 256
