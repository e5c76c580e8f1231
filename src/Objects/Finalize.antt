-- ===== src/Objects/Finalize.antt =====
-- core/variable.c: `lai_var_finalize` keeps every reference count right.
use lai.Base.{
  ℕ, zero, suc, ◌+◌, ◌-◌, ◌≤◌, ◌<◌, ◌≡◌, ◌≢◌, inl, inr, refl, sym, ap, ◌∙◌, Bool, true, false, ◌==◌,
  Bool-cases, ==_true, ==_false, Option, none, some, Option-cases, length, set, length-set, Run, ok,
  arith,
}
use native.Mathlib.Decide.{ℕ_discrete}
use lai.Objects.{
  Var, Head, string_head, buffer_head, pkg_head, Cell, Heap, cell_at, pointer, deref, rc_unref,
  free_head, var_finalize,
}
use lai.Objects.Sums.{total}
use lai.Objects.Counts.{
  refers, refers_option, occurrences, elems_of, cell_rc, rc_at, alive, Counted, cell_of_rc,
  cell_at-set_self, cell_at-set_ne, heap_refs-set, alive-set, rc_at-set,
}
use lai.Objects.Release.{After, refers_self, rc_unref_lem, dropped, unref_kept, unref_last}
use lai.Objects.Freed.{Finalizes, free_elems_lem}

-- A cell whose last reference has gone.
abbrev dead : Head → Cell
dead head = record { rc = 0; head = head }

-- What may have happened to the heap when the cell at `p` has been freed.
record Gone (h h' : Heap) (p : ℕ) (outside : ℕ → ℕ) : Type 0 where
  counted : Counted h' outside
  fewer : alive h' ≤ alive h
  size : length h' ≡ length h
  still : (q : ℕ) → q ≢ p → rc_at h q ≡ 0 → cell_at h' q ≡ cell_at h q
  freed : (q : ℕ) → 0 < rc_at h q → rc_at h' q ≡ 0 → cell_at h' q ≡ none
  gone : cell_at h' p ≡ none

-- The cell itself is freed, with nothing left of it to count.
free_cell :
    (h h1 : Heap) (p : ℕ) (head : Head) (outside : ℕ → ℕ)
    → cell_at h1 p ≡ some (dead head)
    → Counted h1 outside
    → alive h1 ≤ alive h
    → length h1 ≡ length h
    → ((q : ℕ) → q ≢ p → rc_at h q ≡ 0 → cell_at h1 q ≡ cell_at h q)
    → ((q : ℕ) → 0 < rc_at h q → rc_at h1 q ≡ 0 → cell_at h1 q ≡ none)
    → rc_at h p ≡ 0
    → Gone h (set h1 p none) p outside
free_cell h h1 p head outside here counted fewer size still freed zero_ = record {
  counted = λ q. same q ∙ counted q ∙ omega (arith, heap_refs-set h1 p (dead head) here none q);
  fewer = omega (arith, alive-set h1 p (dead head) here none, fewer);
  size = length-set h1 p none ∙ size;
  still = λ q ne z. cell_at-set_ne h1 p (dead head) here none q ne ∙ still q ne z;
  freed = λ q lt z.
      cell_at-set_ne h1 p (dead head) here none q
        (λ e. omega (arith, lt, ap (λ (t : ℕ). rc_at h t) e, zero_))
      ∙ freed q lt (sym (same q) ∙ z);
  gone = cell_at-set_self h1 p (dead head) here none;
}
  where
    same : (q : ℕ) → rc_at (set h1 p none) q ≡ rc_at h1 q
    same q = elim (rc_at-set h1 p (dead head) here none q) [
      | inl (e, new, old) ↦ new ∙ sym old
      | inr (ne, e) ↦ e
    ]

module _ (fuel : ℕ) (finalize : Heap → Var → Run Heap) (finalizes : Finalizes fuel finalize) where
  free_head_lem :
      (h : Heap) (p : ℕ) (head : Head) (outside : ℕ → ℕ)
      → cell_at h p ≡ some (dead head)
      → Counted h (λ q. outside q + occurrences q (elems_of head))
      → alive h < fuel
      → (h' : Heap) × (free_head finalize h p ≡ ok h') × Gone h h' p outside
  unfolding free_head total
  free_head_lem h p (string_head content) outside here counted lt = (
    set h p none,
    rw (free_head, deref, here) refl,
    free_cell h h p (string_head content) outside here (λ q. omega (arith, counted q)) (omega arith)
        refl (λ q ne z. refl) (λ q some_ z. absurd (omega (arith, some_, z))) (ap cell_rc here),
  )
  free_head_lem h p (buffer_head content) outside here counted lt = (
    set h p none,
    rw (free_head, deref, here) refl,
    free_cell h h p (buffer_head content) outside here (λ q. omega (arith, counted q)) (omega arith)
        refl (λ q ne z. refl) (λ q some_ z. absurd (omega (arith, some_, z))) (ap cell_rc here),
  )
  free_head_lem h p (pkg_head elems) outside here counted lt =
      let (h1, run, e) =
        free_elems_lem fuel finalize finalizes (length elems) 0 h p elems outside (omega arith) here
          counted lt in
      (
        set h1 p none,
        rw (free_head, deref, here, run) refl,
        free_cell h h1 p (pkg_head e.left_over.0) outside e.left_over.1 e.counted e.fewer e.size
            e.still e.freed (ap cell_rc here),
      )

finalize_nothing :
    (fuel : ℕ) (h : Heap) (v : Var) → pointer v ≡ none → var_finalize (suc fuel) h v ≡ ok h
unfolding var_finalize
finalize_nothing fuel h v e = rw (var_finalize, e) refl

finalize_unref :
    (fuel : ℕ) (h : Heap) (v : Var) (p : ℕ) (last : Bool) (h1 : Heap)
    → pointer v ≡ some p
    → rc_unref h p ≡ ok (last, h1)
    → var_finalize (suc fuel) h v
      ≡ (elim last [ false ↦ ok h1 | true ↦ free_head (var_finalize fuel) h1 p ])
unfolding var_finalize
finalize_unref fuel h v p last h1 e run = rw (var_finalize, e, run) refl

-- A variable that refers to nothing.
After-nothing :
    (h : Heap) (v : Var) (outside : ℕ → ℕ)
    → pointer v ≡ none
    → Counted h (λ q. outside q + refers v q)
    → After h h outside
After-nothing h v outside e counted = record {
  counted = λ q. omega (arith, counted q, ap (λ (o : Option ℕ). refers_option o q) e);
  fewer = omega arith;
  size = refl;
  still = λ q z. refl;
  freed = λ q some_ z. absurd (omega (arith, some_, z));
}

-- The cell at `p` has lost its last reference, and has been freed.
After-Gone :
    (h h1 h2 : Heap) (p : ℕ) (outside : ℕ → ℕ)
    → 0 < rc_at h p
    → alive h1 ≤ alive h
    → length h1 ≡ length h
    → ((q : ℕ) → q ≢ p → cell_at h1 q ≡ cell_at h q)
    → Gone h1 h2 p outside
    → After h h2 outside
After-Gone h h1 h2 p outside referred fewer size same g = record {
  counted = g.counted;
  fewer = omega (arith, g.fewer, fewer);
  size = g.size ∙ size;
  still = λ q z.
      let ne : q ≢ p = λ e. omega (arith, z, ap (λ (t : ℕ). rc_at h t) e, referred) in
      g.still q ne (ap cell_rc (same q ne) ∙ z) ∙ same q ne;
  freed = λ q lt z. elim (ℕ_discrete q p) [
    | yes e ↦ ap (λ (t : ℕ). cell_at h2 t) e ∙ g.gone
    | no ne ↦ g.freed q (omega (arith, ap cell_rc (same q ne), lt)) z
  ];
}

pub var_finalize-After : (fuel : ℕ) → Finalizes fuel (var_finalize fuel)
var_finalize-After zero h v outside counted lt = absurd (omega (arith, lt))
var_finalize-After (suc fuel) h v outside counted lt = elim (Option-cases (pointer v)) [
  | inl e ↦ (h, finalize_nothing fuel h v e, After-nothing h v outside e counted)
  | inr (p, e) ↦
      let referred : 0 < rc_at h p = omega (arith, counted p, refers_self (pointer v) p p e refl) in
      let (c, here, same) = cell_of_rc (cell_at h p) referred in
      let some_refs : 0 < c.rc = omega (arith, same, referred) in
      let h1 = set h p (some (dropped c)) in
      elim (Bool-cases (c.rc - 1 == 0)) [
        | inr more ↦ (
          h1,
          finalize_unref fuel h v p false h1 e
              (rc_unref_lem h p c here some_refs ∙ ap (λ (b : Bool). ok (b, h1)) more),
          unref_kept h v p outside e counted c here some_refs
              (omega (arith, ==_false (c.rc - 1) 0 more)),
        )
        | inl last ↦
            let none_left = ==_true (c.rc - 1) 0 last in
            let (counted1, fewer) = unref_last h v p outside e counted c here some_refs none_left in
            let here1 : cell_at h1 p ≡ some (dead c.head) =
              cell_at-set_self h p c here (some (dropped c))
              ∙ ap (λ (n : ℕ). some (record { rc = n; head = c.head })) none_left in
            let (h2, run, g) =
              free_head_lem fuel (var_finalize fuel) (var_finalize-After fuel) h1 p c.head outside
                here1 counted1 (omega (arith, fewer, lt)) in
            (
              h2,
              finalize_unref fuel h v p true h1 e
                    (rc_unref_lem h p c here some_refs ∙ ap (λ (b : Bool). ok (b, h1)) last)
                  ∙ run,
              After-Gone h h1 h2 p outside referred (omega (arith, fewer))
                  (length-set h p (some (dropped c)))
                  (λ q ne. cell_at-set_ne h p c here (some (dropped c)) q ne) g,
            )
      ]
]
