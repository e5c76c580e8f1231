-- ===== src/Objects/Freed.antt =====
-- core/variable.c: `laihost_free_package` and the recursion of `lai_var_finalize`.
use lai.Base.{
  ℕ, zero, suc, ◌+◌, ◌≤◌, ◌<◌, ◌≡◌, ◌≢◌, inl, inr, refl, sym, ap, ◌∙◌, none, some, List, [], ◌∷◌,
  length, get_or, set, length-set, drop, read-eq-ok, Run, ok, arith,
}
use native.Mathlib.Decide.{ℕ_discrete}
use lai.Objects.{
  Var, empty_var, pkg_head, Cell, Heap, cell_at, deref, elem_at, clear_elem, free_elems,
}
use lai.Objects.Sums.{total}
use lai.Objects.Counts.{
  refers, occurrences, cell_rc, rc_at, heap_refs, alive, Counted, cell_at-set_self, cell_at-set_ne,
  heap_refs-set, alive-set, rc_at-set,
}
use lai.Objects.Release.{After}

-- The cell of a package that is being freed.
abbrev pub pending : List Var → Cell
pending elems = record { rc = 0; head = pkg_head elems }

-- What may have happened to the heap when the elements of the package at `p` have been finalized.
pub record Emptied (h h' : Heap) (p : ℕ) (outside : ℕ → ℕ) : Type 0 where
  pub counted : Counted h' outside
  pub fewer : alive h' ≤ alive h
  pub size : length h' ≡ length h
  pub still : (q : ℕ) → q ≢ p → rc_at h q ≡ 0 → cell_at h' q ≡ cell_at h q
  pub freed : (q : ℕ) → 0 < rc_at h q → rc_at h' q ≡ 0 → cell_at h' q ≡ none
  pub left_over : (elems : List Var) × (cell_at h' p ≡ some (pending elems))

elem_at_lem :
    (h : Heap) (p i : ℕ) (elems : List Var)
    → cell_at h p ≡ some (pending elems)
    → i < length elems
    → elem_at h p i ≡ ok (get_or elems i empty_var)
unfolding elem_at
elem_at_lem h p i elems here lt = rw (elem_at, deref, here) (read-eq-ok elems i empty_var lt)

clear_elem_lem :
    (h : Heap) (p i : ℕ) (elems : List Var)
    → cell_at h p ≡ some (pending elems)
    → clear_elem h p i ≡ ok (set h p (some (pending (set elems i empty_var))))
unfolding clear_elem
clear_elem_lem h p i elems here = rw (clear_elem, deref, here) refl

drop-set : (i : ℕ) (elems : List Var) (v : Var) → drop (i + 1) (set elems i v) ≡ drop (i + 1) elems
drop-set i [] v = refl
drop-set zero (x ∷ xs) v = refl
drop-set (suc i) (x ∷ xs) v =
    let next : suc i + 1 ≡ suc (i + 1) = omega arith in rw next (drop-set i xs v)

occurrences-drop :
    (q i : ℕ) (elems : List Var)
    → i < length elems
    → occurrences q (drop i elems)
      ≡ refers (get_or elems i empty_var) q + occurrences q (drop (i + 1) elems)
unfolding total
occurrences-drop q i [] lt = absurd (omega (arith, lt))
occurrences-drop q zero (x ∷ xs) lt = refl
occurrences-drop q (suc i) (x ∷ xs) lt =
    let next : suc i + 1 ≡ suc (i + 1) = omega arith in
    rw next (occurrences-drop q i xs (omega (arith, lt)))

occurrences_past :
    (q i : ℕ) (elems : List Var) → i ≡ length elems → occurrences q (drop i elems) ≡ 0
unfolding total
occurrences_past q i [] e = rw e refl
occurrences_past q zero (x ∷ xs) e = absurd (omega (arith, e))
occurrences_past q (suc i) (x ∷ xs) e = occurrences_past q i xs (omega (arith, e))

-- A write to the cell of a package that is being freed changes no count.
module _ (h : Heap) (p : ℕ) (elems : List Var) (here : cell_at h p ≡ some (pending elems))
    (elems' : List Var) where
  abbrev rewritten : Heap
  rewritten = set h p (some (pending elems'))

  rewritten_rc : (q : ℕ) → rc_at rewritten q ≡ rc_at h q
  rewritten_rc q = elim (rc_at-set h p (pending elems) here (some (pending elems')) q) [
    | inl (e, new, old) ↦ new ∙ sym old
    | inr (ne, same) ↦ same
  ]

  rewritten_refs : (q : ℕ) → heap_refs rewritten q ≡ heap_refs h q
  rewritten_refs q = omega (arith, heap_refs-set h p (pending elems) here (some (pending elems')) q)

  rewritten-alive : alive rewritten ≡ alive h
  rewritten-alive = omega (arith, alive-set h p (pending elems) here (some (pending elems')))

  rewritten_here : cell_at rewritten p ≡ some (pending elems')
  rewritten_here = cell_at-set_self h p (pending elems) here (some (pending elems'))

  rewritten_other : (q : ℕ) → q ≢ p → cell_at rewritten q ≡ cell_at h q
  rewritten_other = cell_at-set_ne h p (pending elems) here (some (pending elems'))

-- `lai_var_finalize` with so much fuel.
abbrev pub Finalizes : ℕ → (Heap → Var → Run Heap) → Type 0
Finalizes fuel finalize =
    (h : Heap) (v : Var) (outside : ℕ → ℕ)
    → Counted h (λ q. outside q + refers v q)
    → alive h < fuel
    → (h' : Heap) × (finalize h v ≡ ok h') × After h h' outside

module _ (fuel : ℕ) (finalize : Heap → Var → Run Heap) (finalizes : Finalizes fuel finalize) where
  -- One element has been finalized and cleared.
  Emptied-step :
      (h h1 : Heap) (p i : ℕ) (elems : List Var) (rest outside : ℕ → ℕ) (h3 : Heap)
      → (here : cell_at h1 p ≡ some (pending elems)) → rc_at h p ≡ 0
      → After h h1 rest
      → Emptied (rewritten h1 p elems here (set elems i empty_var)) h3 p outside
      → Emptied h h3 p outside
  Emptied-step h h1 p i elems rest outside h3 here zero_ a e = record {
    counted = e.counted;
    fewer = omega (arith, e.fewer, rewritten-alive h1 p elems here elems', a.fewer);
    size = e.size ∙ length-set h1 p (some (pending elems')) ∙ a.size;
    still = λ q ne z.
        e.still q ne (same q ∙ ap cell_rc (a.still q z) ∙ z)
        ∙ rewritten_other h1 p elems here elems' q ne
        ∙ a.still q z;
    freed = λ q lt z. elim (ℕ_discrete (rc_at h1 q) 0) [
      | yes gone ↦
          e.still q (λ at. omega (arith, lt, ap (λ (t : ℕ). rc_at h t) at, zero_)) (same q ∙ gone)
          ∙ rewritten_other h1 p elems here elems' q
              (λ at. omega (arith, lt, ap (λ (t : ℕ). rc_at h t) at, zero_))
          ∙ a.freed q lt gone
      | no more ↦ e.freed q (omega (arith, same q, more)) z
    ];
    left_over = e.left_over;
  }
    where
      elems' : List Var
      elems' = set elems i empty_var

      same : (q : ℕ) → rc_at (rewritten h1 p elems here elems') q ≡ rc_at h1 q
      same = rewritten_rc h1 p elems here elems'

  free_elems_more :
      (left i : ℕ) (h : Heap) (p : ℕ) (h1 : Heap) (v : Var) (elems : List Var)
      → elem_at h p i ≡ ok v
      → finalize h v ≡ ok h1
      → cell_at h1 p ≡ some (pending elems)
      → free_elems finalize h p (suc left) i
        ≡ free_elems finalize (set h1 p (some (pending (set elems i empty_var)))) p left (i + 1)
  unfolding free_elems
  free_elems_more left i h p h1 v elems at run here =
      rw (free_elems, at, run, clear_elem_lem h1 p i elems here) refl

  pub free_elems_lem :
      (left i : ℕ) (h : Heap) (p : ℕ) (elems : List Var) (outside : ℕ → ℕ)
      → left + i ≡ length elems
      → cell_at h p ≡ some (pending elems)
      → Counted h (λ q. outside q + occurrences q (drop i elems))
      → alive h < fuel
      → (h' : Heap) × (free_elems finalize h p left i ≡ ok h') × Emptied h h' p outside
  unfolding free_elems
  free_elems_lem zero i h p elems outside e here counted lt = (
    h,
    refl,
    record {
      counted = λ q. omega (arith, counted q, occurrences_past q i elems (omega (arith, e)));
      fewer = omega arith;
      size = refl;
      still = λ q ne z. refl;
      freed = λ q some_ z. absurd (omega (arith, some_, z));
      left_over = (elems, here);
    },
  )
  free_elems_lem (suc left) i h p elems outside e here counted lt =
      let v = get_or elems i empty_var in
      let elems' = set elems i empty_var in
      let rest : ℕ → ℕ = λ q. outside q + occurrences q (drop (i + 1) elems) in
      let inside : i < length elems = omega (arith, e) in
      let before : Counted h (λ q. rest q + refers v q) =
        λ q. counted q ∙ omega (arith, occurrences-drop q i elems inside) in
      let (h1, run, a) = finalizes h v rest before lt in
      let here1 : cell_at h1 p ≡ some (pending elems) = a.still p (ap cell_rc here) ∙ here in
      let h2 = rewritten h1 p elems here1 elems' in
      let counted2 : Counted h2 (λ q. outside q + occurrences q (drop (i + 1) elems')) = λ q.
        rewritten_rc h1 p elems here1 elems' q
        ∙ a.counted q
        ∙ omega (
          arith,
          rewritten_refs h1 p elems here1 elems' q,
          ap (occurrences q) (drop-set i elems empty_var),
        ) in
      let (h3, run3, emptied) =
        free_elems_lem left (i + 1) h2 p elems' outside
          (omega (arith, e, length-set elems i empty_var)) (rewritten_here h1 p elems here1 elems')
          counted2 (omega (arith, rewritten-alive h1 p elems here1 elems', a.fewer, lt)) in
      (
        h3,
        free_elems_more left i h p h1 v elems (elem_at_lem h p i elems here inside) run here1
            ∙ run3,
        Emptied-step h h1 p i elems rest outside h3 here1 (ap cell_rc here) a emptied,
      )
