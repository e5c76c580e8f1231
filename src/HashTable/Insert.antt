-- ===== src/HashTable/Insert.antt =====
-- `lai_hashtable_insert`: room is made when it is short, and one free slot takes the element.
use lai.Base.{
  ℕ, suc, ◌+◌, ◌*◌, ◌^◌, ◌≤◌, ◌<◌, ◌≡◌, refl, true, none, some, length, get_or, set, arith,
  get_or-set_self, get_or-set_ne, length-set, ok, inl, inr, le→leb, lt→leb, lt→ltb, ◌==◌,
  if◌then◌else◌, sym, ap, ◌∙◌, ==_self, ==_ne,
}
use native.Mathlib.Nat.{pow-suc, one-le-pow}
use native.Mathlib.Decide.{ℕ_discrete, dec_lt}
use lai.HashTable.{HashTable, insert, make_room, store, grow, bucket_of, free_slot}
use lai.HashTable.Occupied.{occupied-set-some, occupied-le-length, free_slot_lem}
use lai.HashTable.Probe.{IsPower, bucket_of-lt}
use lai.HashTable.Invariant.{Linked-set, IsSized, IsValid, slot, slot-free, slot-used}
use lai.HashTable.Grow.{grow_lem, probe_room, slot_same}

IsPower-double : (m : ℕ) → IsPower m → 2 * m < 2 ^ 31 → IsPower (2 * m)
IsPower-double m (p, small, e) h = elim (dec_lt p 30) [
  | yes lt ↦ (suc p, lt, omega (arith, pow-suc 2 p))
  | no ge ↦ let top : p ≡ 30 = omega arith in absurd (omega (arith, ap (λ (t : ℕ). 2 ^ t) top))
]

power_pos : (p m : ℕ) → m ≡ 2 ^ p → 0 < m
power_pos p m e = omega (arith, one-le-pow p 2)

module _ {ℓ} {E : Type ℓ} where
  -- One slot that was free now holds the element; every other slot is as it was.
  pub record Inserted (ht : HashTable E) (h : ℕ) (elem : E) (out : HashTable E) : Type ℓ where
    pub valid : IsValid out
    pub place : ℕ
    pub was_free : slot ht place ≡ none
    pub slots : (j : ℕ) → slot out j ≡ (if place == j then some (h, elem) else slot ht j)
    pub count : out.num_elems ≡ ht.num_elems + 1

  -- A slot that is written holds the hash and the element.
  slot-set :
      (ht out : HashTable E) (k h : ℕ) (elem : E) (j : ℕ)
      → out.elem_ptr_tab ≡ set ht.elem_ptr_tab k (some elem)
      → out.elem_hash_tab ≡ set ht.elem_hash_tab k h
      → k < length ht.elem_ptr_tab
      → k < length ht.elem_hash_tab
      → slot out j ≡ (if k == j then some (h, elem) else slot ht j)
  slot-set ht out k h elem j p q kp kh = elim (ℕ_discrete k j) [
    | yes same ↦
        rw (← same, ==_self k)
          (slot-used out k elem
              (ap (λ t. get_or t k none) p ∙ get_or-set_self ht.elem_ptr_tab k (some elem) none kp)
            ∙ ap (λ (t : ℕ). some (t, elem))
                (ap (λ t. get_or t k 0) q ∙ get_or-set_self ht.elem_hash_tab k h 0 kh))
    | no other ↦ rw (==_ne k j other) (
        slot_same out ht j
          (ap (λ t. get_or t j none) p ∙ get_or-set_ne ht.elem_ptr_tab k j (some elem) none other)
          (λ e at. ap (λ t. get_or t j 0) q ∙ get_or-set_ne ht.elem_hash_tab k j h 0 other))
  ]

  store_lem :
      (ht : HashTable E) (h : ℕ) (elem : E)
      → IsSized ht
      → IsPower ht.bucket_capacity
      → ht.num_elems + 1 < ht.elem_capacity
      → (out : HashTable E) × (store ht h elem ≡ ok out) × Inserted ht h elem out
  unfolding store
  store_lem ht h elem s w room =
      let ptrs = ht.elem_ptr_tab in
      let (k, found, below, free) = free_slot_lem ptrs 0 (omega (arith, s.counted, s.ptr_size)) in
      let at : free_slot ptrs 0 ≡ k = omega arith in
      let (r, run, open_b) =
        probe_room ht.bucket_capacity h k ht.bucket_tab w s.bucket_size
          (omega (arith, s.counted, s.fits, s.linked.balanced)) in
      let b = bucket_of ht.bucket_capacity h r in
      let linked =
        Linked-set s.linked k b elem below
          (omega (arith, bucket_of-lt ht.bucket_capacity h r w, s.bucket_size)) free open_b in
      (
        record ht {
          elem_ptr_tab = set ptrs k (some elem);
          elem_hash_tab = set ht.elem_hash_tab k h;
          num_elems = ht.num_elems + 1;
          bucket_tab = set ht.bucket_tab b (some k);
        },
        rw (at, lt→ltb k ht.elem_capacity (omega (arith, s.ptr_size)), run) refl,
        record {
          valid = record {
            sized = record {
              ptr_size = length-set ptrs k (some elem) ∙ s.ptr_size;
              hash_size = length-set ht.elem_hash_tab k h ∙ s.hash_size;
              bucket_size = length-set ht.bucket_tab b (some k) ∙ s.bucket_size;
              fits = s.fits;
              counted = omega (arith, occupied-set-some ptrs k elem below free, s.counted);
              linked = linked;
            };
            shape = inr (room, w);
          };
          place = k;
          was_free = slot-free ht k free;
          slots = λ j.
              slot-set ht _ k h elem j refl refl below (omega (arith, s.hash_size, s.ptr_size));
          count = refl;
        },
      )

  -- The three ways of `make_room`.
  starts : (ht : HashTable E) → ht.elem_capacity ≡ 0 → make_room true ht ≡ grow true ht 2 4
  unfolding make_room
  starts ht e = simp e

  stays :
      (ht : HashTable E)
      → 0 < ht.elem_capacity
      → 0 < ht.bucket_capacity
      → ht.num_elems + 1 < ht.elem_capacity
      → make_room true ht ≡ ok ht
  unfolding make_room
  stays ht p q r = simp (
    ==_ne ht.elem_capacity 0 (omega arith),
    ==_ne ht.bucket_capacity 0 (omega arith),
    lt→leb ht.elem_capacity (ht.num_elems + 1) r,
  )

  doubles :
      (ht : HashTable E)
      → 0 < ht.elem_capacity
      → 0 < ht.bucket_capacity
      → ht.elem_capacity ≤ ht.num_elems + 1
      → make_room true ht ≡ grow true ht (2 * ht.elem_capacity) (2 * ht.bucket_capacity)
  unfolding make_room
  doubles ht p q r = simp (
    ==_ne ht.elem_capacity 0 (omega arith),
    ==_ne ht.bucket_capacity 0 (omega arith),
    le→leb ht.elem_capacity (ht.num_elems + 1) r,
  )

  make_room_lem :
      (ht : HashTable E)
      → IsValid ht
      → 2 * ht.bucket_capacity < 2 ^ 31
      → (out : HashTable E) × (make_room true ht ≡ ok out)
        × IsSized out
        × IsPower out.bucket_capacity
        × (out.num_elems + 1 < out.elem_capacity)
        × (out.num_elems ≡ ht.num_elems)
        × ((j : ℕ) → slot out j ≡ slot ht j)
  unfolding make_room
  make_room_lem ht v bound = elim v.shape [
    | inl (no_elems, no_buckets) ↦
        let (out, run, r) =
          grow_lem ht 2 4 v.sized (2, omega arith, refl) (omega arith) (omega arith)
            (omega arith) in
        let none_used = occupied-le-length ht.elem_ptr_tab in
        (
          out,
          starts ht no_elems ∙ run,
          r.sized,
          (2, omega arith, r.buckets),
          omega (arith, none_used, v.sized.counted, v.sized.ptr_size, r.count, r.elems),
          r.count,
          r.slots,
        )
    | inr (room, (p, small, e)) ↦ elim (dec_lt (ht.num_elems + 1) ht.elem_capacity) [
      | yes lt ↦ (
        ht,
        stays ht (omega arith) (power_pos p ht.bucket_capacity e) lt,
        v.sized,
        (p, small, e),
        lt,
        refl,
        λ j. refl,
      )
      | no full ↦
          let n = 2 * ht.elem_capacity in
          let m = 2 * ht.bucket_capacity in
          let power = IsPower-double ht.bucket_capacity (p, small, e) bound in
          let (out, run, r) =
            grow_lem ht n m v.sized power (omega arith) (omega arith)
              (omega (arith, v.sized.fits)) in
          (
            out,
            doubles ht (omega arith) (power_pos p ht.bucket_capacity e) (omega arith) ∙ run,
            r.sized,
            rw r.buckets power,
            omega (arith, r.count, r.elems),
            r.count,
            r.slots,
          )
    ]
  ]

  -- Inserting into a well-formed table whose bucket capacity can double within an int, while
  -- allocations succeed, ends in no panic; the new table is well formed, one slot that was free
  -- holds the element under its hash, every other slot is as it was, and the count of elements is
  -- one more.
  pub insert-Inserted :
      (ht : HashTable E) (h : ℕ) (elem : E)
      → IsValid ht
      → 2 * ht.bucket_capacity < 2 ^ 31
      → (out : HashTable E) × (insert true ht h elem ≡ ok out) × Inserted ht h elem out
  unfolding insert
  insert-Inserted ht h elem v bound =
      let (mid, run, sized, power, room, count, slots) = make_room_lem ht v bound in
      let (out, stored, i) = store_lem mid h elem sized power room in
      (
        out,
        rw run stored,
        record {
          valid = i.valid;
          place = i.place;
          was_free = sym (slots i.place) ∙ i.was_free;
          slots = λ j. rw (← slots j) (i.slots j);
          count = omega (arith, i.count, count);
        },
      )
