-- ===== src/HashTable.antt =====
-- core/util-hash.h: the open-addressing table that holds the children of a namespace node.
-- A null pointer of `elem_ptr_tab` and a negative entry of `bucket_tab` are `none`. Hashes are
-- `int`s, kept as their 32-bit patterns. `room` says whether the host's allocations succeed.
pub mod Occupied
pub mod Probe
pub mod Invariant
pub mod Grow
pub mod Insert
pub mod Chain
pub mod Search
use lai.Base.{
  ℕ, zero, suc, ◌+◌, ◌-◌, ◌*◌, bit_and, Bool, true, false, ◌||◌, Option, none, some, List, [], ◌∷◌,
  get_or, set, replicate, ltb, leb, ◌==◌, if◌then◌else◌, u32, Run, ok, panic, fault, ensure, ◌>>=◌,
  ◌>>◌,
}

pub record HashTable {ℓ} (E : Type ℓ) : Type ℓ where
  pub elem_capacity : ℕ
  pub bucket_capacity : ℕ
  pub num_elems : ℕ
  pub elem_ptr_tab : List (Option E)
  pub elem_hash_tab : List ℕ
  pub bucket_tab : List (Option ℕ)

abbrev pub empty {ℓ} : {E : Type ℓ} → HashTable E
empty = record {
  elem_capacity = 0;
  bucket_capacity = 0;
  num_elems = 0;
  elem_ptr_tab = [];
  elem_hash_tab = [];
  bucket_tab = [];
}

-- `(h + i) & (m - 1)`.
unfoldable pub bucket_of : ℕ → ℕ → ℕ → ℕ
bucket_of m h i = bit_and (u32 (h + i)) (m - 1)

-- The loop that puts `k` into the first free bucket of the chain of `h`, at round `i` with `left`
-- rounds before `LAI_ENSURE(i < m)` fails.
unfoldable pub probe : (m h k left i : ℕ) → List (Option ℕ) → Run (List (Option ℕ))
probe m h k zero i tab = panic
probe m h k (suc left) i tab = elim (get_or tab (bucket_of m h i) none) [
  | none ↦ ok (set tab (bucket_of m h i) (some k))
  | some _ ↦ probe m h k left (i + 1) tab
]

-- The search for a free slot of the element table, which starts at `k`.
unfoldable pub free_slot {ℓ} : {E : Type ℓ} → List (Option E) → ℕ → ℕ
free_slot [] k = k
free_slot (none ∷ ptrs) k = k
free_slot (some _ ∷ ptrs) k = free_slot ptrs (k + 1)

-- The tables that `lai_hashtable_grow` fills.
pub record Grown {ℓ} (E : Type ℓ) : Type ℓ where
  pub new_elem_ptr_tab : List (Option E)
  pub new_elem_hash_tab : List ℕ
  pub new_bucket_tab : List (Option ℕ)

module _ {ℓ} {E : Type ℓ} where
  -- The loop over the old elements, at `k` with `left` of them to go.
  unfoldable pub rehash : HashTable E → (m left k : ℕ) → Grown E → Run (Grown E)
  rehash ht m zero k g = ok g
  rehash ht m (suc left) k g = elim (get_or ht.elem_ptr_tab k none) [
    | none ↦ rehash ht m left (k + 1) g
    | some e ↦
        let h = get_or ht.elem_hash_tab k 0 in
        elim (probe m h k m 0 g.new_bucket_tab) [
          | panic ↦ panic
          | fault ↦ fault
          | ok buckets ↦ rehash ht m left (k + 1) (record {
            new_elem_ptr_tab = set g.new_elem_ptr_tab k (some e);
            new_elem_hash_tab = set g.new_elem_hash_tab k h;
            new_bucket_tab = buckets;
          })
        ]
  ]

  unfoldable pub grow : Bool → HashTable E → ℕ → ℕ → Run (HashTable E)
  grow room ht n m = do
    ensure (leb ht.elem_capacity n)
    ensure (leb ht.bucket_capacity m)
    ensure room
    g ← rehash ht m ht.elem_capacity 0 (record {
      new_elem_ptr_tab = replicate n none;
      new_elem_hash_tab = replicate n 0;
      new_bucket_tab = replicate m none;
    })
    ok (record ht {
      elem_ptr_tab = g.new_elem_ptr_tab;
      elem_hash_tab = g.new_elem_hash_tab;
      bucket_tab = g.new_bucket_tab;
      elem_capacity = n;
      bucket_capacity = m;
    })

  -- The first part of `lai_hashtable_insert`, which makes room.
  unfoldable pub make_room : Bool → HashTable E → Run (HashTable E)
  make_room room ht =
      if ht.elem_capacity == 0 || ht.bucket_capacity == 0
      then grow room ht 2 4
      else if leb ht.elem_capacity (ht.num_elems + 1)
      then grow room ht (2 * ht.elem_capacity) (2 * ht.bucket_capacity)
      else ok ht

  -- The second part, which stores the element.
  unfoldable pub store : HashTable E → ℕ → E → Run (HashTable E)
  store ht h elem =
      let k = free_slot ht.elem_ptr_tab 0 in
      do
        ensure (ltb k ht.elem_capacity)
        buckets ← probe ht.bucket_capacity h k ht.bucket_capacity 0 ht.bucket_tab
        ok (record ht {
          elem_ptr_tab = set ht.elem_ptr_tab k (some elem);
          elem_hash_tab = set ht.elem_hash_tab k h;
          num_elems = ht.num_elems + 1;
          bucket_tab = buckets;
        })

  -- `LAI_ENSURE(elem)` holds of every `E`: an element here is never the null pointer.
  unfoldable pub insert : Bool → HashTable E → ℕ → E → Run (HashTable E)
  unfolding make_room store
  insert room ht h elem = do ht' ← make_room room ht; store ht' h elem

  -- Does the bucket at position `i` of the chain hold an element of hash `h`?
  unfoldable pub matches : HashTable E → ℕ → ℕ → Bool
  matches ht h i = elim (get_or ht.bucket_tab (bucket_of ht.bucket_capacity h i) none) [
    | none ↦ false
    | some k ↦ get_or ht.elem_hash_tab k 0 == h
  ]

  -- The loop of `lai_hashtable_chain_advance`, with `left` buckets to look at: `true` at the end.
  unfoldable pub advance_loop : HashTable E → (h left seen : ℕ) → Bool × ℕ
  advance_loop ht h zero seen = (true, seen + 1)
  advance_loop ht h (suc left) seen = elim (matches ht h seen) [
    | true ↦ (false, seen + 1)
    | false ↦ advance_loop ht h left (seen + 1)
  ]

  unfoldable pub advance : HashTable E → (h seen : ℕ) → Run (Bool × ℕ)
  unfolding advance_loop matches
  advance ht h seen = do
    ensure (ltb seen (ht.bucket_capacity + 1))
    ok (advance_loop ht h (ht.bucket_capacity - seen) seen)

  -- The slot that the chain stands at.
  unfoldable pub chain_slot : HashTable E → (h seen : ℕ) → Run ℕ
  chain_slot ht h seen = do
    ensure (ltb 0 seen)
    ensure (leb seen ht.bucket_capacity)
    elim (get_or ht.bucket_tab (bucket_of ht.bucket_capacity h (seen - 1)) none) [
      | none ↦ panic
      | some k ↦ ok k
    ]

  unfoldable pub chain_get : HashTable E → (h seen : ℕ) → Run E
  unfolding chain_slot
  chain_get ht h seen = do
    k ← chain_slot ht h seen
    elim (get_or ht.elem_ptr_tab k none) [ none ↦ panic | some e ↦ ok e ]

  unfoldable pub chain_remove : HashTable E → (h seen : ℕ) → Run (HashTable E)
  unfolding chain_slot
  chain_remove ht h seen = do
    k ← chain_slot ht h seen
    ok (record ht {
      elem_ptr_tab = set ht.elem_ptr_tab k none;
      bucket_tab = set ht.bucket_tab (bucket_of ht.bucket_capacity h (seen - 1)) none;
      num_elems = ht.num_elems - 1;
    })
