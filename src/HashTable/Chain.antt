-- ===== src/HashTable/Chain.antt =====
-- `lai_hashtable_chain_advance`, `_get` and `_remove`: a walk along the chain of a hash visits the
-- elements of that hash, all of them and no other.
use mathlib.Core.Option.{some-injective}
use lai.Base.{
  ℕ, zero, suc, ◌+◌, ◌-◌, ◌≤◌, ◌<◌, ◌≡◌, ◌⊎◌, refl, true, false, none, some, get_or, set, arith,
  get_or-set_self, get_or-set_ne, length-set, ok, Option-cases, inl, inr, ◌>>=◌, le→leb, lt→ltb,
  ◌==◌, if◌then◌else◌, sym, ap, ◌∙◌, Bool-cases, ==_self, ==_ne, ==_iff,
}
use native.Mathlib.Decide.{ℕ_discrete}
use lai.HashTable.{
  HashTable, bucket_of, matches, advance_loop, advance, chain_slot, chain_get, chain_remove,
}
use lai.HashTable.Occupied.{occupied-set-none, used-lt-length}
use lai.HashTable.Probe.{IsPower, bucket_of_onto}
use lai.HashTable.Grow.{slot_same}
use lai.HashTable.Invariant.{
  Linked-clear, IsSized, IsValid, slot, slot-free, slot-used, slot-eq-some,
}

module _ {ℓ} {E : Type ℓ} where
  -- A slot whose pointer is cleared is free, and the others stay.
  slot-clear :
      (ht out : HashTable E) (k : ℕ) (e : E)
      → get_or ht.elem_ptr_tab k none ≡ some e
      → out.elem_ptr_tab ≡ set ht.elem_ptr_tab k none
      → out.elem_hash_tab ≡ ht.elem_hash_tab
      → (j : ℕ) → slot out j ≡ (if k == j then none else slot ht j)
  slot-clear ht out k e at p q j = elim (ℕ_discrete k j) [
    | yes same ↦
        rw (← same, ==_self k)
          (slot-free out k (
            ap (λ t. get_or t k none) p
            ∙ get_or-set_self ht.elem_ptr_tab k none none (used-lt-length ht.elem_ptr_tab k e at)))
    | no other ↦ rw (==_ne k j other) (
        slot_same out ht j
          (ap (λ t. get_or t j none) p ∙ get_or-set_ne ht.elem_ptr_tab k j none none other)
          (λ x _. ap (λ t. get_or t j 0) q))
  ]

module _ {ℓ} {E : Type ℓ} (ht : HashTable E) (h : ℕ) where
  -- Position `i` is the first match from `seen` on.
  pub record IsNext (seen i : ℕ) : Type 0 where
    pub from : seen ≤ i
    pub below : i < ht.bucket_capacity
    pub hit : matches ht h i ≡ true
    pub misses : (j : ℕ) → seen ≤ j → j < i → matches ht h j ≡ false

  abbrev pub NoneFrom : ℕ → Type 0
  NoneFrom seen = (j : ℕ) → seen ≤ j → j < ht.bucket_capacity → matches ht h j ≡ false

  advance_loop_lem :
      (left seen : ℕ)
      → seen + left ≡ ht.bucket_capacity
      → ((i : ℕ) × IsNext seen i × (advance_loop ht h left seen ≡ (false, i + 1)))
        ⊎ (NoneFrom seen × (advance_loop ht h left seen ≡ (true, ht.bucket_capacity + 1)))
  unfolding advance_loop
  advance_loop_lem zero seen e =
      let last : seen ≡ ht.bucket_capacity = omega arith in
      inr ((λ j p q. absurd (omega arith)), ap (λ (t : ℕ). (true, t + 1)) last)
  advance_loop_lem (suc left) seen e = elim (Bool-cases (matches ht h seen)) [
    | inl hit ↦ inl (
      seen,
      record {
        from = omega arith;
        below = omega arith;
        hit = hit;
        misses = λ j p q. absurd (omega arith);
      },
      rw (advance_loop, hit) refl,
    )
    | inr miss ↦ elim (advance_loop_lem left (seen + 1) (omega arith)) [
      | inl (i, n, run) ↦ inl (
        i,
        record {
          from = omega (arith, n.from);
          below = n.below;
          hit = n.hit;
          misses = λ j p q. elim (ℕ_discrete j seen) [
            | yes same ↦ rw same miss
            | no other ↦ n.misses j (omega arith) q
          ];
        },
        rw (advance_loop, miss) run,
      )
      | inr (nothing, run) ↦ inr (
        (λ j p q. elim (ℕ_discrete j seen) [
          | yes same ↦ rw same miss
          | no other ↦ nothing j (omega arith) q
        ]),
        rw (advance_loop, miss) run,
      )
    ]
  ]

  -- From a position within the table lai_hashtable_chain_advance stops at the first position from
  -- there on whose bucket holds the hash, or reports the end when no such position is left, and
  -- ends in no panic.
  pub advance_lem :
      (seen : ℕ)
      → seen ≤ ht.bucket_capacity
      → ((i : ℕ) × IsNext seen i × (advance ht h seen ≡ ok (false, i + 1)))
        ⊎ (NoneFrom seen × (advance ht h seen ≡ ok (true, ht.bucket_capacity + 1)))
  unfolding advance
  advance_lem seen le =
      let guard = lt→ltb seen (ht.bucket_capacity + 1) (omega arith) in
      elim (advance_loop_lem (ht.bucket_capacity - seen) seen (omega arith)) [
        | inl (i, n, run) ↦ inl (i, n, rw (guard, run) refl)
        | inr (nothing, run) ↦ inr (nothing, rw (guard, run) refl)
      ]

  -- What a match stands for.
  pub record Standing (i k : ℕ) (e : E) : Type ℓ where
    pub bucket : get_or ht.bucket_tab (bucket_of ht.bucket_capacity h i) none ≡ some k
    pub element : get_or ht.elem_ptr_tab k none ≡ some e
    pub hash : get_or ht.elem_hash_tab k 0 ≡ h

  matches_free :
      (i : ℕ)
      → get_or ht.bucket_tab (bucket_of ht.bucket_capacity h i) none ≡ none
      → matches ht h i ≡ false
  unfolding matches
  matches_free i e = rw (matches, e) refl

  matches_used :
      (i k : ℕ)
      → get_or ht.bucket_tab (bucket_of ht.bucket_capacity h i) none ≡ some k
      → matches ht h i ≡ (get_or ht.elem_hash_tab k 0 == h)
  unfolding matches
  matches_used i k e = rw (matches, e) refl

  pub matches-Standing :
      (i : ℕ) → IsSized ht → matches ht h i ≡ true → (k : ℕ) × (e : E) × Standing i k e
  matches-Standing i s hit =
      elim (Option-cases (get_or ht.bucket_tab (bucket_of ht.bucket_capacity h i) none)) [
        | inl e ↦ cc (matches_free i e)
        | inr (k, e) ↦
            let (x, at) = s.linked.placed _ k e in
            (
              k,
              x,
              record {
                bucket = e;
                element = at;
                hash = (==_iff _ h).0 (sym (matches_used i k e) ∙ hit);
              },
            )
      ]

  -- Every element of the hash stands somewhere on the chain.
  pub slot-Standing :
      (k : ℕ) (e : E)
      → IsSized ht
      → IsPower ht.bucket_capacity
      → slot ht k ≡ some (h, e)
      → (i : ℕ) × (i < ht.bucket_capacity) × (matches ht h i ≡ true) × Standing i k e
  slot-Standing k e s w at =
      let (ptr, hash) = slot-eq-some ht k h e at in
      let (b, link) = s.linked.covered k e ptr in
      let (i, lt, to_b) =
        bucket_of_onto ht.bucket_capacity h b w
          (omega (arith, used-lt-length ht.bucket_tab b k link, s.bucket_size)) in
      let bucket = ap (λ (t : ℕ). get_or ht.bucket_tab t none) to_b ∙ link in
      (
        i,
        lt,
        matches_used i k bucket ∙ (==_iff _ h).1 hash,
        record { bucket = bucket; element = ptr; hash = hash },
      )

  -- The same of a well-formed table, a new one included.
  pub slot-Standing_valid :
      (k : ℕ) (e : E)
      → IsValid ht
      → slot ht k ≡ some (h, e)
      → (i : ℕ) × (i < ht.bucket_capacity) × (matches ht h i ≡ true) × Standing i k e
  slot-Standing_valid k e v at = elim v.shape [
    | inl (no_elems, _) ↦
        let (ptr, _) = slot-eq-some ht k h e at in
        absurd (omega (arith, used-lt-length ht.elem_ptr_tab k e ptr, v.sized.ptr_size))
    | inr (_, power) ↦ slot-Standing k e v.sized power at
  ]

  module _ (i k : ℕ) (e : E) (st : Standing i k e) where
    pub Standing-slot : slot ht k ≡ some (h, e)
    Standing-slot = slot-used ht k e st.element ∙ ap (λ (t : ℕ). some (t, e)) st.hash

    pub Standing-matches : matches ht h i ≡ true
    Standing-matches = matches_used i k st.bucket ∙ (==_iff _ h).1 st.hash

    pub chain_slot_lem : i < ht.bucket_capacity → chain_slot ht h (i + 1) ≡ ok k
    unfolding chain_slot
    chain_slot_lem lt =
        let back : i + 1 - 1 ≡ i = omega arith in
        let bucket =
          ap (λ (t : ℕ). get_or ht.bucket_tab (bucket_of ht.bucket_capacity h t) none) back
          ∙ st.bucket in
        rw (lt→ltb 0 (i + 1) (omega arith), le→leb (i + 1) ht.bucket_capacity (omega arith), bucket)
          refl

    pub chain_get_lem : i < ht.bucket_capacity → chain_get ht h (i + 1) ≡ ok e
    unfolding chain_get
    chain_get_lem lt = rw (chain_slot_lem lt, ◌>>=◌, st.element) refl

    removes :
        i < ht.bucket_capacity
        → chain_remove ht h (i + 1)
          ≡ ok (record ht {
            elem_ptr_tab = set ht.elem_ptr_tab k none;
            bucket_tab = set ht.bucket_tab (bucket_of ht.bucket_capacity h i) none;
            num_elems = ht.num_elems - 1;
          })
    unfolding chain_remove
    removes lt = let back : i + 1 - 1 ≡ i = omega arith in rw (chain_slot_lem lt, ◌>>=◌, back) refl

    -- At a position of the chain that stands for an element of a well-formed table,
    -- lai_hashtable_chain_remove ends in no panic; the new table is well formed, the slot of the
    -- element is free, every other slot is as it was, the count is one less and the bucket
    -- capacity the same.
    pub chain_remove_lem :
        i < ht.bucket_capacity
        → IsValid ht
        → (out : HashTable E) × (chain_remove ht h (i + 1) ≡ ok out)
          × IsValid out
          × ((j : ℕ) → slot out j ≡ (if k == j then none else slot ht j))
          × (out.num_elems + 1 ≡ ht.num_elems)
          × (out.bucket_capacity ≡ ht.bucket_capacity)
    chain_remove_lem lt v =
        let s = v.sized in
        let b = bucket_of ht.bucket_capacity h i in
        let used = occupied-set-none ht.elem_ptr_tab k e st.element in
        (
          record ht {
            elem_ptr_tab = set ht.elem_ptr_tab k none;
            bucket_tab = set ht.bucket_tab b none;
            num_elems = ht.num_elems - 1;
          },
          removes lt,
          record {
            sized = record {
              ptr_size = length-set ht.elem_ptr_tab k none ∙ s.ptr_size;
              hash_size = s.hash_size;
              bucket_size = length-set ht.bucket_tab b none ∙ s.bucket_size;
              fits = s.fits;
              counted = omega (arith, used, s.counted);
              linked = Linked-clear s.linked k b st.bucket;
            };
            shape = elim v.shape [
              | inl new ↦ absurd (omega arith)
              | inr (room, power) ↦ inr (omega arith, power)
            ];
          },
          slot-clear ht _ k e st.element refl refl,
          omega (arith, used, s.counted),
          refl,
        )

  -- A position stands for one element.
  pub Standing-unique : (i k l : ℕ) (e x : E) → Standing i k e → Standing i l x → e ≡ x
  Standing-unique i k l e x st other =
      let same = some-injective _ _ (sym st.bucket ∙ other.bucket) in
      some-injective _ _
        (sym st.element ∙ ap (λ (t : ℕ). get_or ht.elem_ptr_tab t none) same ∙ other.element)
