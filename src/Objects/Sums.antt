-- ===== src/Objects/Sums.antt =====
-- Sums over a heap, and what a write of one cell does to them.
use lai.Base.{ℕ, zero, suc, ◌+◌, ◌≤◌, ◌<◌, ◌≡◌, List, [], ◌∷◌, length, get_or, set, arith}

module _ {ℓ} {A : Type ℓ} (w : A → ℕ) where
  unfoldable pub total : List A → ℕ
  total [] = 0
  total (x ∷ xs) = w x + total xs

  pub total-set :
      (xs : List A) (i : ℕ) (v d : A)
      → i < length xs
      → total (set xs i v) + w (get_or xs i d) ≡ total xs + w v
  unfolding total
  total-set [] i v d lt = absurd (omega (arith, lt))
  total-set (x ∷ xs) zero v d lt = omega arith
  total-set (x ∷ xs) (suc i) v d lt = omega (arith, total-set xs i v d (omega (arith, lt)))

  pub total-get : (xs : List A) (i : ℕ) (d : A) → i < length xs → w (get_or xs i d) ≤ total xs
  unfolding total
  total-get [] i d lt = absurd (omega (arith, lt))
  total-get (x ∷ xs) zero d lt = omega arith
  total-get (x ∷ xs) (suc i) d lt = omega (arith, total-get xs i d (omega (arith, lt)))
