-- ===== src/HashTable/Invariant.antt =====
-- When a table is well formed, and what it holds.
use mathlib.Core.Option.{some-injective}
use lai.Base.{
  sym, ap, ◌∙◌, Option-cases, inl, inr, ℕ, ◌≤◌, ◌<◌, ◌≡◌, ◌⊎◌, Option, none, some, List, length,
  get_or, set, arith, get_or-set, get_or-clear,
}
use native.Mathlib.Decide.{ℕ_discrete}
use lai.HashTable.{HashTable}
use lai.HashTable.Occupied.{occupied, occupied-set-some, occupied-set-none}
use lai.HashTable.Probe.{IsPower}

-- The buckets point at the elements, one bucket to an element and none to a free slot.
pub record Linked {ℓ} {E : Type ℓ} (ptrs : List (Option E)) (buckets : List (Option ℕ))
    : Type ℓ where
  pub covered :
      (k : ℕ) (e : E) → get_or ptrs k none ≡ some e → (b : ℕ) × (get_or buckets b none ≡ some k)
  pub placed : (b k : ℕ) → get_or buckets b none ≡ some k → (e : E) × (get_or ptrs k none ≡ some e)
  pub unique : (b c k : ℕ) → get_or buckets b none ≡ some k → get_or buckets c none ≡ some k → b ≡ c
  pub balanced : occupied buckets ≡ occupied ptrs

module _ {ℓ} {E : Type ℓ} where
  -- The hash and the pointer that slot `k` holds, unless it is free.
  unfoldable pub slot : HashTable E → ℕ → Option (ℕ × E)
  slot ht k = elim (get_or ht.elem_ptr_tab k none) [
    | none ↦ none
    | some e ↦ some (get_or ht.elem_hash_tab k 0, e)
  ]

  pub slot-free :
      (ht : HashTable E) (k : ℕ) → get_or ht.elem_ptr_tab k none ≡ none → slot ht k ≡ none
  unfolding slot
  slot-free ht k e = rw (slot, e)

  pub slot-used :
      (ht : HashTable E) (k : ℕ) (x : E)
      → get_or ht.elem_ptr_tab k none ≡ some x
      → slot ht k ≡ some (get_or ht.elem_hash_tab k 0, x)
  unfolding slot
  slot-used ht k x e = rw (slot, e)

  pub slot-eq-some :
      (ht : HashTable E) (k h : ℕ) (x : E)
      → slot ht k ≡ some (h, x)
      → (get_or ht.elem_ptr_tab k none ≡ some x) × (get_or ht.elem_hash_tab k 0 ≡ h)
  slot-eq-some ht k h x e = elim (Option-cases (get_or ht.elem_ptr_tab k none)) [
    | inl free ↦ cc (slot-free ht k free)
    | inr (y, used) ↦
        let same : some (get_or ht.elem_hash_tab k 0, y) ≡ some (h, x) =
          sym (slot-used ht k y used) ∙ e in
        let pair = some-injective _ _ same in
        (used ∙ ap (λ (t : ℕ × E). some t.1) pair, ap (λ (t : ℕ × E). t.0) pair)
  ]

  -- The tables have the sizes that the header states.
  pub record IsSized (ht : HashTable E) : Type ℓ where
    pub ptr_size : length ht.elem_ptr_tab ≡ ht.elem_capacity
    pub hash_size : length ht.elem_hash_tab ≡ ht.elem_capacity
    pub bucket_size : length ht.bucket_tab ≡ ht.bucket_capacity
    pub fits : ht.elem_capacity ≤ ht.bucket_capacity
    pub counted : occupied ht.elem_ptr_tab ≡ ht.num_elems
    pub linked : Linked ht.elem_ptr_tab ht.bucket_tab

  -- A table is well formed: it is a new one, or its bucket table is a power of 2 and it has a free
  -- slot.
  pub record IsValid (ht : HashTable E) : Type ℓ where
    pub sized : IsSized ht
    pub shape :
        ((ht.elem_capacity ≡ 0) × (ht.bucket_capacity ≡ 0))
        ⊎ ((ht.num_elems < ht.elem_capacity) × IsPower ht.bucket_capacity)

  module _ {ptrs : List (Option E)} {buckets : List (Option ℕ)} (w : Linked ptrs buckets) where
    open w use {covered, placed, unique, balanced}

    -- A new element in a free slot, with a bucket that was free.
    pub Linked-set :
        (k b : ℕ) (e : E)
        → k < length ptrs
        → b < length buckets
        → get_or ptrs k none ≡ none
        → get_or buckets b none ≡ none
        → Linked (set ptrs k (some e)) (set buckets b (some k))
    Linked-set k b e pk pb free_k free_b = record {
      covered = λ j f h. elim (ℕ_discrete k j) [
        | yes same ↦ (b, ground (arith, get_or-set buckets b b (some k) none))
        | no other ↦
            let (x, at) = covered j f (ground (arith, get_or-set ptrs k j (some e) none)) in
            (x, ground (arith, get_or-set buckets b x (some k) none))
      ];
      placed = λ c j h. elim (ℕ_discrete b c) [
        | yes same ↦ (
          e,
          ground (arith, get_or-set buckets b c (some k) none, get_or-set ptrs k j (some e) none),
        )
        | no other ↦
            let (x, at) = placed c j (ground (arith, get_or-set buckets b c (some k) none)) in
            (x, ground (arith, get_or-set ptrs k j (some e) none))
      ];
      unique = λ c d j p q. ground (
        arith,
        get_or-set buckets b c (some k) none,
        get_or-set buckets b d (some k) none,
        unique c d j,
        placed c j,
        placed d j,
      );
      balanced =
          omega
            (arith, occupied-set-some ptrs k e pk free_k, occupied-set-some buckets b k pb free_b);
    }

    -- An element leaves with its bucket.
    pub Linked-clear :
        (k b : ℕ) → get_or buckets b none ≡ some k → Linked (set ptrs k none) (set buckets b none)
    Linked-clear k b at = record {
      covered = λ j f h.
          let (x, link) = covered j f (ground (arith, get_or-clear ptrs k j none)) in
          (x, ground (arith, get_or-clear buckets b x none, get_or-clear ptrs k j none));
      placed = λ c j h.
          let (x, here) = placed c j (ground (arith, get_or-clear buckets b c none)) in
          (
            x,
            ground (arith, get_or-clear ptrs k j none, get_or-clear buckets b c none, unique b c k),
          );
      unique = λ c d j p q.
          ground
            (arith, get_or-clear buckets b c none, get_or-clear buckets b d none, unique c d j);
      balanced =
          let (x, here) = placed b k at in
          omega (arith, occupied-set-none ptrs k x here, occupied-set-none buckets b k at);
    }
