-- ===== src/Go/Map.antt =====
-- Go's built-in map as an association list. The order of the list stands for Go's unspecified order
-- of iteration; the laws below are all that a client needs.
use codboz_nx_online.Base.{
  ◌+◌, ◌≤◌, ◌≡◌, refl, ite, Option, none, some, List, [], ◌∷◌, arith, length,
}

abbrev pub Map {ℓ} : Type ℓ → Type ℓ → Type ℓ
Map K V = List (K × V)

module _ {ℓ} {K V : Type ℓ} (d : Discrete K) where
  -- `value, ok := m[k]`
  unfoldable pub lookup : K → Map K V → Option V
  lookup k [] = none
  lookup k ((j, v) ∷ m) = ite (d j k) (some v) (lookup k m)

  -- `m[k] = v`
  unfoldable pub insert : K → V → Map K V → Map K V
  insert k v [] = (k, v) ∷ []
  insert k v ((j, w) ∷ m) = ite (d j k) ((k, v) ∷ m) ((j, w) ∷ insert k v m)

  -- `delete(m, k)`
  unfoldable pub delete : K → Map K V → Map K V
  delete k [] = []
  delete k ((j, w) ∷ m) = let rest = delete k m in ite (d j k) rest ((j, w) ∷ rest)

  -- Every key has one entry.
  abbrev pub Unique : Map K V → Type ℓ
  Unique [] = Unit
  Unique ((k, v) ∷ m) = (lookup k m ≡ none) × Unique m

  pub lookup-insert :
      (k j : K) (v : V) (m : Map K V) → lookup j (insert k v m) ≡ ite (d k j) (some v) (lookup j m)
  unfolding lookup insert
  lookup-insert k j v [] = refl
  lookup-insert k j v ((i, w) ∷ m) = ground (arith, lookup-insert k j v m)

  pub lookup-delete :
      (k j : K) (m : Map K V) → lookup j (delete k m) ≡ ite (d k j) none (lookup j m)
  unfolding lookup delete
  lookup-delete k j [] = ground arith
  lookup-delete k j ((i, w) ∷ m) = ground (arith, lookup-delete k j m)

  pub insert-Unique : (k : K) (v : V) (m : Map K V) → Unique m → Unique (insert k v m)
  unfolding insert lookup
  insert-Unique k v [] u = (refl, tt)
  insert-Unique k v ((j, w) ∷ m) u = ground (arith, lookup-insert k j v m, insert-Unique k v m u.1)

  pub delete-Unique : (k : K) (m : Map K V) → Unique m → Unique (delete k m)
  unfolding delete
  delete-Unique k [] u = tt
  delete-Unique k ((j, w) ∷ m) u = ground (arith, lookup-delete k j m, delete-Unique k m u.1)

  pub delete-fresh : (k : K) (m : Map K V) → lookup k m ≡ none → delete k m ≡ m
  unfolding delete lookup
  delete-fresh k [] h = refl
  delete-fresh k ((j, w) ∷ m) h = ground (arith, delete-fresh k m)

  pub length-insert_fresh :
      (k : K) (v : V) (m : Map K V) → lookup k m ≡ none → length (insert k v m) ≡ length m + 1
  unfolding insert lookup
  length-insert_fresh k v [] h = omega arith
  length-insert_fresh k v ((j, w) ∷ m) h = ground (arith, length-insert_fresh k v m)

  pub length-insert_present :
      (k : K) (v w : V) (m : Map K V) → lookup k m ≡ some w → length (insert k v m) ≡ length m
  unfolding insert lookup
  length-insert_present k v w [] h = cc
  length-insert_present k v w ((j, x) ∷ m) h = ground (arith, length-insert_present k v w m)

  pub length-delete-le : (k : K) (m : Map K V) → length (delete k m) ≤ length m
  unfolding delete
  length-delete-le k [] = omega arith
  length-delete-le k ((j, w) ∷ m) = ground (arith, length-delete-le k m)

  pub length-delete_present :
      (k : K) (v : V) (m : Map K V)
      → Unique m
      → lookup k m ≡ some v
      → length (delete k m) + 1 ≡ length m
  unfolding delete lookup
  length-delete_present k v [] u h = cc
  length-delete_present k v ((j, w) ∷ m) u h =
      ground (arith, length-delete_present k v m u.1, delete-fresh k m)
