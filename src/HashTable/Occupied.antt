-- ===== src/HashTable/Occupied.antt =====
-- How many entries of a table are in use.
use lai.Base.{
  ℕ, zero, suc, ◌+◌, ◌≤◌, ◌<◌, ◌≡◌, refl, Option, none, some, List, [], ◌∷◌, length, get_or, set,
  replicate, arith, ap, sym, ◌≢◌,
}
use lai.HashTable.{free_slot}

module _ {ℓ} {A : Type ℓ} where
  unfoldable pub occupied : List (Option A) → ℕ
  occupied [] = 0
  occupied (none ∷ xs) = occupied xs
  occupied (some _ ∷ xs) = suc (occupied xs)

  pub occupied-le-length : (xs : List (Option A)) → occupied xs ≤ length xs
  unfolding occupied
  occupied-le-length [] = omega arith
  occupied-le-length (none ∷ xs) = omega (arith, occupied-le-length xs)
  occupied-le-length (some _ ∷ xs) = omega (arith, occupied-le-length xs)

  -- A write of an entry into a free place counts one more.
  pub occupied-set-some :
      (xs : List (Option A)) (i : ℕ) (v : A)
      → i < length xs
      → get_or xs i none ≡ none
      → occupied (set xs i (some v)) ≡ suc (occupied xs)
  unfolding occupied
  occupied-set-some [] i v h e = elim h [ ]
  occupied-set-some (none ∷ xs) zero v h e = refl
  occupied-set-some (some _ ∷ xs) zero v h e = ground arith
  occupied-set-some (none ∷ xs) (suc i) v h e = occupied-set-some xs i v (omega arith) e
  occupied-set-some (some _ ∷ xs) (suc i) v h e =
      omega (arith, occupied-set-some xs i v (omega arith) e)

  -- Clearing an entry counts one less.
  pub occupied-set-none :
      (xs : List (Option A)) (i : ℕ) (v : A)
      → get_or xs i none ≡ some v
      → suc (occupied (set xs i none)) ≡ occupied xs
  unfolding occupied
  occupied-set-none [] i v e = ground arith
  occupied-set-none (none ∷ xs) zero v e = ground arith
  occupied-set-none (some _ ∷ xs) zero v e = refl
  occupied-set-none (none ∷ xs) (suc i) v e = occupied-set-none xs i v e
  occupied-set-none (some _ ∷ xs) (suc i) v e = omega (arith, occupied-set-none xs i v e)

  -- A table that is not full has a free place.
  pub free_index :
      (xs : List (Option A))
      → occupied xs < length xs
      → (i : ℕ) × (i < length xs) × (get_or xs i none ≡ none)
  unfolding occupied
  free_index [] h = elim h [ ]
  free_index (none ∷ xs) h = (0, omega arith, refl)
  free_index (some _ ∷ xs) h =
      let (i, below, free) = free_index xs (omega arith) in (suc i, omega arith, free)

  -- An entry in use lies within the table.
  pub used-lt-length :
      (xs : List (Option A)) (i : ℕ) (v : A) → get_or xs i none ≡ some v → i < length xs
  used-lt-length [] i v e = ground arith
  used-lt-length (x ∷ xs) zero v e = omega arith
  used-lt-length (x ∷ xs) (suc i) v e = omega (arith, used-lt-length xs i v e)

  -- The search for a free slot finds one.
  pub free_slot_lem :
      (xs : List (Option A)) (k : ℕ)
      → occupied xs < length xs
      → (i : ℕ) × (free_slot xs k ≡ k + i) × (i < length xs) × (get_or xs i none ≡ none)
  unfolding occupied free_slot
  free_slot_lem [] k h = elim h [ ]
  free_slot_lem (none ∷ xs) k h = (0, omega arith, omega arith, refl)
  free_slot_lem (some _ ∷ xs) k h =
      let (i, at, below, free) = free_slot_lem xs (k + 1) (omega arith) in
      (suc i, omega arith, omega arith, free)

pub occupied-replicate {ℓ} : (A : Type ℓ) (n : ℕ) → occupied {A = A} (replicate n none) ≡ 0
unfolding occupied
occupied-replicate A zero = refl
occupied-replicate A (suc n) = occupied-replicate A n

some≢none {ℓ} : {A : Type ℓ} (x : A) → some x ≢ none
some≢none x e = ground arith

module _ {ℓ} {A : Type ℓ} where
  occupied-none : (xs : List (Option A)) → ((i : ℕ) → get_or xs i none ≡ none) → occupied xs ≡ 0
  unfolding occupied
  occupied-none [] h = refl
  occupied-none (none ∷ xs) h = occupied-none xs (λ i. h (suc i))
  occupied-none (some x ∷ xs) h = absurd (some≢none x (h 0))

  -- Tables that read alike have as many entries in use.
  pub occupied_ext :
      (xs ys : List (Option A))
      → ((i : ℕ) → get_or xs i none ≡ get_or ys i none)
      → occupied xs ≡ occupied ys
  unfolding occupied
  occupied_ext [] ys h = sym (occupied-none ys (λ i. sym (h i)))
  occupied_ext (x ∷ xs) [] h = occupied-none (x ∷ xs) h
  occupied_ext (none ∷ xs) (none ∷ ys) h = occupied_ext xs ys (λ i. h (suc i))
  occupied_ext (none ∷ xs) (some y ∷ ys) h = absurd (some≢none y (sym (h 0)))
  occupied_ext (some x ∷ xs) (none ∷ ys) h = absurd (some≢none x (h 0))
  occupied_ext (some x ∷ xs) (some y ∷ ys) h = ap suc (occupied_ext xs ys (λ i. h (suc i)))
