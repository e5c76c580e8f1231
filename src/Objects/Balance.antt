-- ===== src/Objects/Balance.antt =====
-- core/variable.c: the counts are right before and after every operation on variables.
use lai.Base.{
  ℕ, zero, suc, ◌+◌, ◌≤◌, ◌<◌, ◌≡◌, inl, inr, refl, sym, ap, ◌∙◌, lt→ltb, Option, none, some,
  Option-cases, List, [], ◌∷◌, length, get_or, set, length-set, ok, read-eq-ok, arith,
}
use native.Mathlib.Decide.{ℕ_discrete}
use lai.Objects.{Var, empty_var, Cell, Heap, cell_at, pointer, deref, rc_ref}
use lai.Objects.Sums.{total, total-set, total-get}
use lai.Objects.Counts.{
  refers, refers_option, occurrences, elems_of, cell_alive, rc_at, heap_refs, alive, Counted, sign,
  cell_of_rc, cell_at-set_ne, heap_refs-set, rc_at-set,
}
use lai.Objects.Release.{refers_self, refers_other, counted_refs_pos}
use lai.Objects.Finalize.{var_finalize-After}
use lai.Objects.Vars.{
  Store, finalize_var, finalize_slot, swap_object, var_move, ref_var, var_assign,
}

-- Cells without references have been freed.
abbrev pub Clean : Heap → Type 0
Clean h = (q : ℕ) → rc_at h q ≡ 0 → cell_at h q ≡ none

-- Every count is the number of variables and of elements that refer to the cell.
pub record Balanced (s : Store) : Type 0 where
  pub counted : Counted s.heap (λ q. occurrences q s.slots)
  pub clean : Clean s.heap

sign-le : (n : ℕ) → sign n ≤ 1
sign-le zero = omega arith
sign-le (suc n) = omega arith

cell_alive-le : (o : Option Cell) → cell_alive o ≤ 1
cell_alive-le none = omega arith
cell_alive-le (some c) = sign-le c.rc

alive-le-length : (h : Heap) → alive h ≤ length h
unfolding total
alive-le-length [] = omega arith
alive-le-length (o ∷ h) = omega (arith, cell_alive-le o, alive-le-length h)

-- One reference has been given up, in a clean heap.
finalize_var-Counted :
    (h : Heap) (v : Var) (outside : ℕ → ℕ)
    → Counted h (λ q. outside q + refers v q)
    → Clean h
    → (h' : Heap) × (finalize_var h v ≡ ok h') × Counted h' outside × Clean h'
unfolding finalize_var
finalize_var-Counted h v outside counted clean =
    let (h', run, a) =
      var_finalize-After (suc (length h)) h v outside counted (omega (arith, alive-le-length h)) in
    (
      h',
      run,
      a.counted,
      λ q z. elim (ℕ_discrete (rc_at h q) 0) [
        | yes before ↦ a.still q before ∙ clean q before
        | no some_refs ↦ a.freed q (omega (arith, some_refs)) z
      ],
    )

-- One reference more to what is referred to already.
ref_var-Counted :
    (h : Heap) (v : Var) (outside : ℕ → ℕ)
    → Counted h outside
    → Clean h
    → ((p : ℕ) → pointer v ≡ some p → 0 < outside p)
    → (h' : Heap) × (ref_var h v ≡ ok h') × Counted h' (λ q. outside q + refers v q) × Clean h'
unfolding ref_var
ref_var-Counted h v outside counted clean referred = elim (Option-cases (pointer v)) [
  | inl e ↦ (
    h,
    rw (ref_var, e) refl,
    λ q. omega (arith, counted q, ap (λ (o : Option ℕ). refers_option o q) e),
    clean,
  )
  | inr (p, e) ↦
      let live : 0 < rc_at h p = omega (arith, counted p, referred p e) in
      let (c, here, same) = cell_of_rc (cell_at h p) live in
      let some_refs : 0 < c.rc = omega (arith, same, live) in
      let c' : Cell = record c { rc = c.rc + 1 } in
      let h' = set h p (some c') in
      let refs : (q : ℕ) → heap_refs h' q ≡ heap_refs h q = λ q. omega (
        arith,
        heap_refs-set h p c here (some c') q,
        counted_refs_pos q c.rc (elems_of c.head) some_refs,
        counted_refs_pos q (c.rc + 1) (elems_of c.head) (omega arith),
      ) in
      (
        h',
        rw (ref_var, e, rc_ref, deref, here, lt→ltb 0 c.rc some_refs) refl,
        (λ q. elim (rc_at-set h p c here (some c') q) [
          | inl (at, new, old) ↦
              omega (arith, new, old, counted q, refers_self (pointer v) p q e at, refs q)
          | inr (ne, kept) ↦
              omega (arith, kept, counted q, refers_other (pointer v) p q e ne, refs q)
        ]),
        λ q z. elim (rc_at-set h p c here (some c') q) [
          | inl (at, new, old) ↦ absurd (omega (arith, new, z))
          | inr (ne, kept) ↦ cell_at-set_ne h p c here (some c') q ne ∙ clean q (sym kept ∙ z)
        ],
      )
]

-- A variable changes hands.
occurrences-set :
    (q : ℕ) (slots : List Var) (i : ℕ) (v : Var)
    → i < length slots
    → occurrences q (set slots i v) + refers (get_or slots i empty_var) q
      ≡ occurrences q slots + refers v q
occurrences-set q slots i v lt = total-set (λ u. refers u q) slots i v empty_var lt

-- The variable at `i` is replaced by `v`, whose reference is counted already, and finalized.
replace-Balanced :
    (h : Heap) (slots : List Var) (i : ℕ) (v : Var)
    → i < length slots
    → Counted h (λ q. occurrences q slots + refers v q)
    → Clean h
    → (h' : Heap) × (finalize_var h (get_or slots i empty_var) ≡ ok h')
      × Balanced (record { heap = h'; slots = set slots i v })
replace-Balanced h slots i v lt counted clean =
    let (h', run, counted', clean') =
      finalize_var-Counted h (get_or slots i empty_var) (λ q. occurrences q (set slots i v))
        (λ q. omega (arith, counted q, occurrences-set q slots i v lt)) clean in
    (h', run, record { counted = counted'; clean = clean' })

pub finalize_slot-Balanced :
    (s : Store) (x : ℕ)
    → Balanced s
    → x < length s.slots
    → (h : Heap) × (finalize_slot s x ≡ ok (record { heap = h; slots = set s.slots x empty_var }))
      × Balanced (record { heap = h; slots = set s.slots x empty_var })
unfolding finalize_slot
finalize_slot-Balanced s x b lt =
    let (h, run, b') =
      replace-Balanced s.heap s.slots x empty_var lt (λ q. omega (arith, b.counted q)) b.clean in
    (h, rw (read-eq-ok s.slots x empty_var lt, run) refl, b')

-- Suppose that every reference count is the number of variables and package elements that refer
-- to the object, and that objects without references have been freed. Then lai_var_assign, also
-- of a variable to itself, returns: no check of a count fails, no freed object is used, and the
-- recursion that frees packages ends. The destination has the value of the source, no other
-- variable has changed, and counts are right and objects without references freed as before.
pub var_assign-Balanced :
    (s : Store) (dest src : ℕ)
    → Balanced s
    → dest < length s.slots
    → src < length s.slots
    → (h : Heap) × (var_assign s dest src
        ≡ ok (record { heap = h; slots = set s.slots dest (get_or s.slots src empty_var) }))
      × Balanced (record { heap = h; slots = set s.slots dest (get_or s.slots src empty_var) })
unfolding var_assign
var_assign-Balanced s dest src b to from =
    let v = get_or s.slots src empty_var in
    let (h1, ref, counted1, clean1) =
      ref_var-Counted s.heap v (λ q. occurrences q s.slots) b.counted b.clean
        (λ p e. omega (
          arith,
          total-get (λ u. refers u p) s.slots src empty_var from,
          refers_self (pointer v) p p e refl,
        )) in
    let (h2, run, b2) = replace-Balanced h1 s.slots dest v to counted1 clean1 in
    (
      h2,
      rw
          (
            read-eq-ok s.slots src empty_var from,
            ref,
            swap_object,
            read-eq-ok s.slots dest empty_var to,
            run,
          )
          refl,
      b2,
    )

-- Under the same conditions as for lai_var_assign, lai_var_move returns, with the value of the
-- source in the destination, the source cleared unless it is the destination, and no other
-- variable changed; counts are right and objects without references freed as before.
pub var_move-Balanced :
    (s : Store) (destination source : ℕ)
    → Balanced s
    → destination < length s.slots
    → source < length s.slots
    → (h : Heap) × (var_move s destination source
        ≡ ok (record {
          heap = h;
          slots = set (set s.slots source empty_var) destination (get_or s.slots source empty_var);
        }))
      × Balanced (record {
        heap = h;
        slots = set (set s.slots source empty_var) destination (get_or s.slots source empty_var);
      })
unfolding var_move
var_move-Balanced s destination source b to from =
    let v = get_or s.slots source empty_var in
    let taken = set s.slots source empty_var in
    let inside : destination < length taken =
      omega (arith, length-set s.slots source empty_var, to) in
    let (h, run, b') =
      replace-Balanced s.heap taken destination v inside
        (λ q. omega (arith, b.counted q, occurrences-set q s.slots source empty_var from))
        b.clean in
    (
      h,
      rw
          (
            swap_object,
            read-eq-ok s.slots source empty_var from,
            read-eq-ok taken destination empty_var inside,
            run,
          )
          refl,
      b',
    )
