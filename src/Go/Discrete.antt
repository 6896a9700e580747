-- ===== src/Go/Discrete.antt =====
-- Decidable equality of Go strings and arrays of bytes, the keys of the program's maps.
use codboz_nx_online.Base.{ℕ, ℕ_discrete, ◌≡◌, refl, ap₂, List, [], ◌∷◌}

Bytes-cons : {x y : ℕ} {xs ys : List ℕ} → Dec (x ≡ y) → Dec (xs ≡ ys) → Dec (x ∷ xs ≡ y ∷ ys)
Bytes-cons (yes p) (yes q) = yes (ap₂ ◌∷◌ p q)
Bytes-cons (yes p) (no q) = no (λ e. q (cc))
Bytes-cons (no p) d = no (λ e. p (cc))

unfoldable pub bytes_discrete : Discrete (List ℕ)
unfolding Bytes-cons ℕ_discrete
bytes_discrete [] [] = yes refl
bytes_discrete [] (y ∷ ys) = no (λ e. cc)
bytes_discrete (x ∷ xs) [] = no (λ e. cc)
bytes_discrete (x ∷ xs) (y ∷ ys) = Bytes-cons (ℕ_discrete x y) (bytes_discrete xs ys)
