-- ===== src/Go/Counter.antt =====
-- The program's counting maps, `map[K]int` with a zero that is never stored: `m[k]++`, and the
-- decrement that the stores and the server share.
use codboz_nx_online.Base.{
  ℕ, ◌+◌, ◌-◌, ◌≡◌, ite, Option, none, some, [], arith, ◌==◌, if◌then◌else◌,
}
use codboz_nx_online.Go.Map.{Map, lookup, insert, delete, lookup-insert, lookup-delete}

-- `m[k]` of a `map[K]int`, which is 0 where there is no entry.
abbrev pub or_zero : Option ℕ → ℕ
or_zero none = 0
or_zero (some n) = n

module _ {K : Type 0} (d : Discrete K) where
  unfoldable pub count : K → Map K ℕ → ℕ
  count k m = or_zero (lookup d k m)

  -- `m[k]++`
  unfoldable pub increment : K → Map K ℕ → Map K ℕ
  unfolding count
  increment k m = insert d k (count k m + 1) m

  -- `remaining := m[k] - 1; if remaining <= 0 { delete(m, k) } else { m[k] = remaining }`. On the
  -- natural numbers the difference stops at 0, which the test treats as the source does -1.
  unfoldable pub decrement : K → Map K ℕ → Map K ℕ
  unfolding count
  decrement k m =
      let remaining = count k m - 1 in
      if remaining == 0 then delete d k m else insert d k remaining m

  pub count-nil : (k : K) → count k [] ≡ 0
  unfolding count lookup
  count-nil k = ground arith

  pub count-increment :
      (k j : K) (m : Map K ℕ) → count j (increment k m) ≡ count j m + ite (d k j) 1 0
  unfolding increment
  count-increment k j m = ground (arith, lookup-insert d k j (count k m + 1) m)

  pub count-decrement :
      (k j : K) (m : Map K ℕ) → count j (decrement k m) ≡ count j m - ite (d k j) 1 0
  unfolding decrement
  count-decrement k j m =
      ground (arith, lookup-insert d k j (count k m - 1) m, lookup-delete d k j m)
