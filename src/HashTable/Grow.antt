-- ===== src/HashTable/Grow.antt =====
-- `lai_hashtable_grow`: every element keeps its slot and its hash.
use lai.Base.{
  ap, true, get_or-past, le→leb, ℕ, zero, suc, ◌+◌, ◌≤◌, ◌<◌, ◌≡◌, refl, Option, none, some, List,
  length, get_or, set, replicate, arith, get_or-set, get_or-set_self, get_or-set_ne, ◌∙◌, sym,
  length-set, length-replicate, get_or-replicate, ok, Option-cases, inl, inr,
}
use native.Mathlib.Decide.{ℕ_discrete, dec_lt}
use lai.HashTable.{grow, HashTable, Grown, rehash, probe, bucket_of}
use lai.HashTable.Occupied.{
  occupied_ext, used-lt-length, occupied, occupied-set-some, occupied-replicate, free_index,
}
use lai.HashTable.Probe.{IsPower, bucket_of-lt, bucket_of_onto, probe_free}
use lai.HashTable.Invariant.{slot-free, slot-used, IsSized, slot, Linked, Linked-set}

-- A bucket table that is not full takes one more element.
pub probe_room :
    (m h k : ℕ) (tab : List (Option ℕ))
    → IsPower m
    → length tab ≡ m
    → occupied tab < m
    → (r : ℕ) × (probe m h k m 0 tab ≡ ok (set tab (bucket_of m h r) (some k)))
      × (get_or tab (bucket_of m h r) none ≡ none)
probe_room m h k tab w size room =
    let (b, below, free) = free_index tab (omega arith) in
    let (i, lt, at) = bucket_of_onto m h b w (omega arith) in
    probe_free m h k tab m 0 i (omega arith) (omega arith) (rw at free)

abbrev none_of {ℓ} : (A : Type ℓ) → Option A
none_of A = none

module _ {ℓ} {E : Type ℓ} where
  -- The first `k` slots have been carried over, and nothing else.
  pub record Rehashed (ht : HashTable E) (n m k : ℕ) (g : Grown E) : Type ℓ where
    pub ptr_size : length g.new_elem_ptr_tab ≡ n
    pub hash_size : length g.new_elem_hash_tab ≡ n
    pub bucket_size : length g.new_bucket_tab ≡ m
    pub linked : Linked g.new_elem_ptr_tab g.new_bucket_tab
    pub few : occupied g.new_elem_ptr_tab ≤ k
    pub below : (j : ℕ) → j < k → get_or g.new_elem_ptr_tab j none ≡ get_or ht.elem_ptr_tab j none
    pub hashes :
        (j : ℕ) (e : E)
        → j < k
        → get_or ht.elem_ptr_tab j none ≡ some e
        → get_or g.new_elem_hash_tab j 0 ≡ get_or ht.elem_hash_tab j 0
    pub above : (j : ℕ) → k ≤ j → get_or g.new_elem_ptr_tab j none ≡ none

  module _ (ht : HashTable E) (n m : ℕ) (w : IsPower m) where
    skip_slot :
        (k : ℕ) (g : Grown E)
        → get_or ht.elem_ptr_tab k none ≡ none
        → Rehashed ht n m k g
        → Rehashed ht n m (k + 1) g
    skip_slot k g e r = record {
      ptr_size = r.ptr_size;
      hash_size = r.hash_size;
      bucket_size = r.bucket_size;
      linked = r.linked;
      few = omega (arith, r.few);
      below = λ j lt. elim (ℕ_discrete j k) [
        | yes same ↦ rw (same, e) (r.above k (omega arith))
        | no other ↦ r.below j (omega arith)
      ];
      hashes = λ j f lt h. elim (ℕ_discrete j k) [
        | yes same ↦ ground arith
        | no other ↦ r.hashes j f (omega arith) h
      ];
      above = λ j le. r.above j (omega arith);
    }

    keep_slot :
        (k b : ℕ) (e : E) (g : Grown E)
        → get_or ht.elem_ptr_tab k none ≡ some e
        → k < n
        → b < m
        → get_or g.new_bucket_tab b none ≡ none
        → Rehashed ht n m k g
        → Rehashed ht n m (k + 1) (record {
          new_elem_ptr_tab = set g.new_elem_ptr_tab k (some e);
          new_elem_hash_tab = set g.new_elem_hash_tab k (get_or ht.elem_hash_tab k 0);
          new_bucket_tab = set g.new_bucket_tab b (some k);
        })
    keep_slot k b e g at kn bm free r =
        let pk : k < length g.new_elem_ptr_tab = omega (arith, r.ptr_size) in
        let hk : k < length g.new_elem_hash_tab = omega (arith, r.hash_size) in
        let open_k = r.above k (omega arith) in
        record {
          ptr_size = rw length-set r.ptr_size;
          hash_size = rw length-set r.hash_size;
          bucket_size = rw length-set r.bucket_size;
          linked = Linked-set r.linked k b e pk (omega (arith, r.bucket_size)) open_k free;
          few = omega (arith, r.few, occupied-set-some g.new_elem_ptr_tab k e pk open_k);
          below = λ j lt. elim (ℕ_discrete k j) [
            | yes same ↦
                rw (← same) (get_or-set_self g.new_elem_ptr_tab k (some e) none pk ∙ sym at)
            | no other ↦
                get_or-set_ne g.new_elem_ptr_tab k j (some e) none other ∙ r.below j (omega arith)
          ];
          hashes = λ j f lt h. ground (
            arith,
            get_or-set g.new_elem_hash_tab k j (get_or ht.elem_hash_tab k 0) 0,
            r.hashes j f,
          );
          above = λ j le.
              get_or-set_ne g.new_elem_ptr_tab k j (some e) none (omega arith)
              ∙ r.above j (omega arith);
        }

    rehash_lem :
        (left k : ℕ) (g : Grown E)
        → k + left ≡ ht.elem_capacity
        → ht.elem_capacity ≤ n
        → ht.elem_capacity ≤ m
        → Rehashed ht n m k g
        → (out : Grown E) × (rehash ht m left k g ≡ ok out) × Rehashed ht n m ht.elem_capacity out
    unfolding rehash
    rehash_lem zero k g e p q r =
        let same : k ≡ ht.elem_capacity = omega arith in (g, refl, rw same at r)
    rehash_lem (suc left) k g e p q r = elim (Option-cases (get_or ht.elem_ptr_tab k none)) [
      | inl free ↦
          let (out, run, done) =
            rehash_lem left (k + 1) g (omega arith) p q (skip_slot k g free r) in
          (out, rw (rehash, free) run, done)
      | inr (x, at) ↦
          let h = get_or ht.elem_hash_tab k 0 in
          let (i, found, open_b) =
            probe_room m h k g.new_bucket_tab w r.bucket_size
              (omega (arith, r.few, r.linked.balanced)) in
          let (out, run, done) =
            rehash_lem left (k + 1) _ (omega arith) p q (
              keep_slot k (bucket_of m h i) x g at (omega arith) (bucket_of-lt m h i w) open_b r) in
          (out, rw (rehash, at, found) run, done)
    ]

  Rehashed-start :
      (ht : HashTable E) (n m : ℕ)
      → Rehashed ht n m 0 (record {
        new_elem_ptr_tab = replicate n none;
        new_elem_hash_tab = replicate n 0;
        new_bucket_tab = replicate m none;
      })
  Rehashed-start ht n m = record {
    ptr_size = length-replicate n none;
    hash_size = length-replicate n 0;
    bucket_size = length-replicate m none;
    linked = record {
      covered = λ k e h. ground (arith, get_or-replicate n k (none_of E));
      placed = λ b k h. ground (arith, get_or-replicate m b (none_of ℕ));
      unique = λ b c k h h'. ground (arith, get_or-replicate m b (none_of ℕ));
      balanced = omega (arith, occupied-replicate ℕ m, occupied-replicate E n);
    };
    few = omega (arith, occupied-replicate E n);
    below = λ j lt. absurd (omega arith);
    hashes = λ j e lt h. absurd (omega arith);
    above = λ j le. get_or-replicate n j none;
  }

  carried :
      (ht : HashTable E) (n m : ℕ) (s : IsSized ht) (g : Grown E)
      → Rehashed ht n m ht.elem_capacity g
      → (j : ℕ) → get_or g.new_elem_ptr_tab j none ≡ get_or ht.elem_ptr_tab j none
  carried ht n m s g r j = elim (dec_lt j ht.elem_capacity) [
    | yes below ↦ r.below j below
    | no above ↦
        r.above j (omega arith)
        ∙ sym (get_or-past ht.elem_ptr_tab j none (omega (arith, s.ptr_size)))
  ]

  -- What growing gives: the new capacities, the old count and every slot as it was.
  pub record Regrown (ht : HashTable E) (n m : ℕ) (out : HashTable E) : Type ℓ where
    pub sized : IsSized out
    pub elems : out.elem_capacity ≡ n
    pub buckets : out.bucket_capacity ≡ m
    pub count : out.num_elems ≡ ht.num_elems
    pub slots : (j : ℕ) → slot out j ≡ slot ht j

  pub slot_same :
      (a b : HashTable E) (j : ℕ)
      → get_or a.elem_ptr_tab j none ≡ get_or b.elem_ptr_tab j none
      → ((e : E)
          → get_or b.elem_ptr_tab j none ≡ some e
          → get_or a.elem_hash_tab j 0 ≡ get_or b.elem_hash_tab j 0)
      → slot a j ≡ slot b j
  slot_same a b j p q = elim (Option-cases (get_or b.elem_ptr_tab j none)) [
    | inl e ↦ slot-free a j (p ∙ e) ∙ sym (slot-free b j e)
    | inr (x, e) ↦
        slot-used a j x (p ∙ e) ∙ ap (λ (h : ℕ). some (h, x)) (q x e) ∙ sym (slot-used b j x e)
  ]

  pub grow_lem :
      (ht : HashTable E) (n m : ℕ)
      → IsSized ht
      → IsPower m
      → ht.elem_capacity ≤ n
      → ht.bucket_capacity ≤ m
      → n ≤ m
      → (out : HashTable E) × (grow true ht n m ≡ ok out) × Regrown ht n m out
  unfolding grow
  grow_lem ht n m s w pn pm nm =
      let (g, run, r) =
        rehash_lem ht n m w ht.elem_capacity 0 _ (omega arith) pn (omega arith)
          (Rehashed-start ht n m) in
      let same = λ (j : ℕ). carried ht n m s g r j in
      (
        _,
        rw (le→leb _ _ pn, le→leb _ _ pm, run) refl,
        record {
          sized = record {
            ptr_size = r.ptr_size;
            hash_size = r.hash_size;
            bucket_size = r.bucket_size;
            fits = nm;
            counted = occupied_ext g.new_elem_ptr_tab ht.elem_ptr_tab same ∙ s.counted;
            linked = r.linked;
          };
          elems = refl;
          buckets = refl;
          count = refl;
          slots = λ j. slot_same _ ht j (same j) (λ e at.
              r.hashes j e (omega (arith, used-lt-length ht.elem_ptr_tab j e at, s.ptr_size)) at);
        },
      )
