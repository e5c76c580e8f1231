-- ===== src/Objects/Release.antt =====
-- core/variable.c: what `lai_var_finalize` does to the reference counts.
use lai.Base.{
  ℕ, zero, suc, ◌+◌, ◌-◌, ◌≤◌, ◌<◌, ◌≡◌, ◌≢◌, inl, inr, refl, sym, ap, ◌∙◌, ◌==◌, lt→ltb, ==_self,
  ==_ne, Option, none, some, List, length, set, length-set, ok, arith,
}
use lai.Objects.{Var, Cell, Heap, cell_at, pointer, deref, rc_unref}
use lai.Objects.Counts.{
  refers, refers_option, occurrences, elems_of, counted_refs, sign, cell_alive, cell_rc, rc_at,
  heap_refs, alive, Counted, cell_at-set_ne, heap_refs-set, alive-set, rc_at-set,
}

-- What may have happened to the heap when one reference has been given up: cells whose count has
-- come to 0 are freed, and those that had the count 0 before are as they were.
pub record After (h h' : Heap) (outside : ℕ → ℕ) : Type 0 where
  pub counted : Counted h' outside
  pub fewer : alive h' ≤ alive h
  pub size : length h' ≡ length h
  pub still : (q : ℕ) → rc_at h q ≡ 0 → cell_at h' q ≡ cell_at h q
  pub freed : (q : ℕ) → 0 < rc_at h q → rc_at h' q ≡ 0 → cell_at h' q ≡ none

pub refers_self : (o : Option ℕ) (p q : ℕ) → o ≡ some p → q ≡ p → refers_option o q ≡ 1
refers_self o p q e same = rw (e, same, ==_self p) refl

pub refers_other : (o : Option ℕ) (p q : ℕ) → o ≡ some p → q ≢ p → refers_option o q ≡ 0
refers_other o p q e ne = rw (e, ==_ne p q (λ s. ne (sym s))) refl

pub counted_refs_pos :
    (q n : ℕ) (elems : List Var) → 0 < n → counted_refs q n elems ≡ occurrences q elems
counted_refs_pos q zero elems lt = absurd (omega (arith, lt))
counted_refs_pos q (suc n) elems lt = refl

sign_pos : (n : ℕ) → 0 < n → sign n ≡ 1
sign_pos zero lt = absurd (omega (arith, lt))
sign_pos (suc n) lt = refl

pub deref_lem : (h : Heap) (p : ℕ) (c : Cell) → cell_at h p ≡ some c → deref h p ≡ ok c
unfolding deref
deref_lem h p c e = rw (deref, e) refl

-- A cell with one reference less.
abbrev pub dropped : Cell → Cell
dropped c = record c { rc = c.rc - 1 }

pub rc_unref_lem :
    (h : Heap) (p : ℕ) (c : Cell)
    → cell_at h p ≡ some c
    → 0 < c.rc
    → rc_unref h p ≡ ok (c.rc - 1 == 0, set h p (some (dropped c)))
unfolding rc_unref
rc_unref_lem h p c e lt = rw (rc_unref, deref, e, lt→ltb 0 c.rc lt) refl

module _ (h : Heap) (v : Var) (p : ℕ) (outside : ℕ → ℕ) (points : pointer v ≡ some p)
    (counted : Counted h (λ q. outside q + refers v q)) (c : Cell) (here : cell_at h p ≡ some c)
    (some_refs : 0 < c.rc) where
  abbrev pub after : Heap
  after = set h p (some (dropped c))

  -- The counts when the elements of the cell are still counted, or are `extra`.
  after-Counted :
      (extra : ℕ → ℕ)
      → ((q : ℕ) → heap_refs after q + extra q ≡ heap_refs h q)
      → Counted after (λ q. outside q + extra q)
  after-Counted extra rest q = elim (rc_at-set h p c here (some (dropped c)) q) [
    | inl (e, new, old) ↦
        omega (arith, new, old, counted q, refers_self (pointer v) p q points e, rest q, some_refs)
    | inr (ne, same) ↦
        omega (arith, same, counted q, refers_other (pointer v) p q points ne, rest q)
  ]

  pub unref_kept : 0 < c.rc - 1 → After h after outside
  unref_kept more = record {
    counted = λ q. after-Counted (λ _. 0) (λ r. omega (arith, same_refs r)) q ∙ omega arith;
    fewer = omega (
      arith,
      alive-set h p c here (some (dropped c)),
      sign_pos c.rc some_refs,
      sign_pos (c.rc - 1) more,
    );
    size = length-set h p (some (dropped c));
    still = λ q z. cell_at-set_ne h p c here (some (dropped c)) q (λ e. not_zero q e z);
    freed = λ q lt z. absurd (stays q lt z);
  }
    where
      same_refs : (q : ℕ) → heap_refs after q ≡ heap_refs h q
      same_refs q = omega (
        arith,
        heap_refs-set h p c here (some (dropped c)) q,
        counted_refs_pos q c.rc (elems_of c.head) some_refs,
        counted_refs_pos q (c.rc - 1) (elems_of c.head) more,
      )

      not_zero : (q : ℕ) → q ≡ p → ¬ (rc_at h q ≡ 0)
      not_zero q e z = omega (arith, z, ap (λ (t : ℕ). rc_at h t) e ∙ ap cell_rc here, some_refs)

      stays : (q : ℕ) → 0 < rc_at h q → ¬ (rc_at after q ≡ 0)
      stays q lt z = elim (rc_at-set h p c here (some (dropped c)) q) [
        | inl (e, new, old) ↦ omega (arith, new, z, more)
        | inr (ne, same) ↦ omega (arith, same, z, lt)
      ]

  -- The last reference: the elements of the cell are counted no more.
  pub unref_last :
      c.rc - 1 ≡ 0
      → Counted after (λ q. outside q + occurrences q (elems_of c.head)) × (alive after < alive h)
  unref_last none_left =
      let now_dead : cell_alive (some (dropped c)) ≡ 0 = ap sign none_left in
      (
        after-Counted (λ q. occurrences q (elems_of c.head))
            (λ q. omega (
              arith,
              heap_refs-set h p c here (some (dropped c)) q,
              counted_refs_pos q c.rc (elems_of c.head) some_refs,
              ap (λ (n : ℕ). counted_refs q n (elems_of c.head)) none_left,
            )),
        omega (arith, alive-set h p c here (some (dropped c)), sign_pos c.rc some_refs, now_dead),
      )
