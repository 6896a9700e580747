-- ===== src/Go/Tally.antt =====
-- Maps whose entries have an owner, and the counting map that the program keeps beside them.
use codboz_nx_online.Base.{ℕ, ◌+◌, ◌≤◌, ◌≡◌, sym, ◌∙◌, ite, none, some, [], ◌∷◌, arith, length}
use codboz_nx_online.Go.Counter.{count, increment, decrement, count-increment, count-decrement}
use codboz_nx_online.Go.Map.{Map, lookup, insert, delete, Unique, delete-fresh}

-- How many entries belong to `o`, for maps whose values have an owner.
module _ {K V O : Type 0} (owned : Discrete O) (owner : V → O) where
  unfoldable pub tally : O → Map K V → ℕ
  tally o [] = 0
  tally o ((k, v) ∷ m) = ite (owned (owner v) o) 1 0 + tally o m

  pub tally-le-length : (o : O) (m : Map K V) → tally o m ≤ length m
  unfolding tally
  tally-le-length o [] = omega arith
  tally-le-length o ((k, v) ∷ m) = ground (arith, tally-le-length o m)

-- The counting map beside a map says for every owner how many entries it has.
abbrev pub Counted : {K V O : Type 0} → Discrete O → (V → O) → Map K V → Map O ℕ → Type 0
Counted {O = O} owned owner m counts = (o : O) → count owned o counts ≡ tally owned owner o m

module _ {K V O : Type 0} (d : Discrete K) (owned : Discrete O) (owner : V → O) where
  pub tally-insert_fresh :
      (o : O) (k : K) (v : V) (m : Map K V)
      → lookup d k m ≡ none
      → tally owned owner o (insert d k v m) ≡ tally owned owner o m + ite (owned (owner v) o) 1 0
  unfolding tally insert lookup
  tally-insert_fresh o k v [] h = omega arith
  tally-insert_fresh o k v ((j, w) ∷ m) h = ground (arith, tally-insert_fresh o k v m)

  pub tally-insert_same :
      (o : O) (k : K) (v w : V) (m : Map K V)
      → lookup d k m ≡ some w
      → owner w ≡ owner v
      → tally owned owner o (insert d k v m) ≡ tally owned owner o m
  unfolding tally insert lookup
  tally-insert_same o k v w [] h e = cc
  tally-insert_same o k v w ((j, x) ∷ m) h e = ground (arith, tally-insert_same o k v w m)

  pub tally-delete :
      (o : O) (k : K) (w : V) (m : Map K V)
      → Unique d m
      → lookup d k m ≡ some w
      → tally owned owner o m ≡ tally owned owner o (delete d k m) + ite (owned (owner w) o) 1 0
  unfolding tally delete lookup
  tally-delete o k w [] u h = cc
  tally-delete o k w ((j, x) ∷ m) u h = ground (arith, tally-delete o k w m u.1, delete-fresh d k m)

module _ {K V O : Type 0} (d : Discrete K) (owned : Discrete O) (owner : V → O) (m : Map K V)
    (counts : Map O ℕ) (counted : Counted owned owner m counts) where
  pub insert-Counted :
      (k : K) (v : V)
      → lookup d k m ≡ none
      → Counted owned owner (insert d k v m) (increment owned (owner v) counts)
  insert-Counted k v fresh o = omega (
    arith,
    count-increment owned (owner v) o counts,
    counted o,
    tally-insert_fresh d owned owner o k v m fresh,
  )

  pub replace-Counted :
      (k : K) (v w : V)
      → lookup d k m ≡ some w
      → owner w ≡ owner v
      → Counted owned owner (insert d k v m) counts
  replace-Counted k v w found e o =
      counted o ∙ sym (tally-insert_same d owned owner o k v w m found e)

  pub delete-Counted :
      (k : K) (w : V)
      → Unique d m
      → lookup d k m ≡ some w
      → Counted owned owner (delete d k m) (decrement owned (owner w) counts)
  delete-Counted k w unique found o = omega (
    arith,
    count-decrement owned (owner w) o counts,
    counted o,
    tally-delete d owned owner o k w m unique found,
  )
