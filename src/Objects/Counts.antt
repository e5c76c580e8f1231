-- ===== src/Objects/Counts.antt =====
-- The references to a cell: those that a heap holds, and the numbers that the cells keep of them.
use lai.Base.{
  ℕ, zero, suc, ◌+◌, ◌<◌, ◌≡◌, ◌≢◌, ◌⊎◌, inl, inr, refl, sym, ap, ◌∙◌, ◌==◌, to_nat, Option, none,
  some, List, [], length, get_or-set_self, get_or-set_ne, get_or-past, set, arith,
}
use native.Mathlib.Decide.{ℕ_discrete, dec_lt}
use mathlib.Core.Option.{some-ne-none}
use lai.Objects.{Var, Head, string_head, buffer_head, pkg_head, Cell, Heap, cell_at, pointer}
use lai.Objects.Sums.{total, total-set}

-- 1 when the variable refers to `q`, 0 when not.
abbrev pub refers_option : Option ℕ → ℕ → ℕ
refers_option none q = 0
refers_option (some p) q = to_nat (p == q)

abbrev pub refers : Var → ℕ → ℕ
refers v q = refers_option (pointer v) q

-- The references to `q` in a list of variables.
abbrev pub occurrences : ℕ → List Var → ℕ
occurrences q vars = total (λ v. refers v q) vars

abbrev pub elems_of : Head → List Var
elems_of (string_head content) = []
elems_of (buffer_head content) = []
elems_of (pkg_head elems) = elems

-- A cell counts as long as it is referred to: the elements of a package that is being freed are its
-- freer's.
abbrev pub counted_refs : ℕ → ℕ → List Var → ℕ
counted_refs q zero elems = 0
counted_refs q (suc n) elems = occurrences q elems

abbrev pub cell_refs : ℕ → Option Cell → ℕ
cell_refs q none = 0
cell_refs q (some c) = counted_refs q c.rc (elems_of c.head)

abbrev pub sign : ℕ → ℕ
sign zero = 0
sign (suc n) = 1

abbrev pub cell_alive : Option Cell → ℕ
cell_alive none = 0
cell_alive (some c) = sign c.rc

abbrev pub cell_rc : Option Cell → ℕ
cell_rc none = 0
cell_rc (some c) = c.rc

abbrev pub rc_at : Heap → ℕ → ℕ
rc_at h q = cell_rc (cell_at h q)

abbrev pub heap_refs : Heap → ℕ → ℕ
heap_refs h q = total (cell_refs q) h

abbrev pub alive : Heap → ℕ
alive h = total cell_alive h

-- Every reference count is the number of references: `outside` ones and those of packages.
abbrev pub Counted : Heap → (outside : ℕ → ℕ) → Type 0
Counted h outside = (q : ℕ) → rc_at h q ≡ outside q + heap_refs h q

-- A cell with a count is in the heap.
pub cell_of_rc : (o : Option Cell) → 0 < cell_rc o → (c : Cell) × (o ≡ some c) × (c.rc ≡ cell_rc o)
cell_of_rc none lt = absurd (omega (arith, lt))
cell_of_rc (some c) lt = (c, refl, refl)

pub cell-lt : (h : Heap) (p : ℕ) (c : Cell) → cell_at h p ≡ some c → p < length h
cell-lt h p c e = elim (dec_lt p (length h)) [
  | yes lt ↦ lt
  | no past ↦ absurd (some-ne-none c (sym e ∙ get_or-past h p none (omega (arith, past))))
]

-- A write to the cell at `p`.
module _ (h : Heap) (p : ℕ) (c : Cell) (here : cell_at h p ≡ some c) (o : Option Cell) where
  pub cell_at-set_self : cell_at (set h p o) p ≡ o
  cell_at-set_self = get_or-set_self h p o none (cell-lt h p c here)

  pub cell_at-set_ne : (q : ℕ) → q ≢ p → cell_at (set h p o) q ≡ cell_at h q
  cell_at-set_ne q ne = get_or-set_ne h p q o none (λ e. ne (sym e))

  pub heap_refs-set :
      (q : ℕ) → heap_refs (set h p o) q + cell_refs q (some c) ≡ heap_refs h q + cell_refs q o
  heap_refs-set q =
      ap (λ (t : Option Cell). heap_refs (set h p o) q + cell_refs q t) (sym here)
      ∙ total-set (cell_refs q) h p o none (cell-lt h p c here)

  pub alive-set : alive (set h p o) + cell_alive (some c) ≡ alive h + cell_alive o
  alive-set =
      ap (λ (t : Option Cell). alive (set h p o) + cell_alive t) (sym here)
      ∙ total-set cell_alive h p o none (cell-lt h p c here)

  -- The count at any address after the write.
  pub rc_at-set :
      (q : ℕ)
      → ((q ≡ p) × (rc_at (set h p o) q ≡ cell_rc o) × (rc_at h q ≡ c.rc))
        ⊎ ((q ≢ p) × (rc_at (set h p o) q ≡ rc_at h q))
  rc_at-set q = elim (ℕ_discrete q p) [
    | yes e ↦ inl (
      e,
      ap (λ (t : ℕ). rc_at (set h p o) t) e ∙ ap cell_rc cell_at-set_self,
      ap (λ (t : ℕ). rc_at h t) e ∙ ap cell_rc here,
    )
    | no ne ↦ inr (ne, ap cell_rc (cell_at-set_ne q ne))
  ]
