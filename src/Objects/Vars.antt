-- ===== src/Objects/Vars.antt =====
-- core/variable.c: `lai_var_move` and `lai_var_assign`, on the variables that hold references.
use lai.Base.{ℕ, suc, none, some, List, length, set, Run, ok, read, ◌>>=◌}
use lai.Objects.{Var, empty_var, Heap, pointer, rc_ref, var_finalize}

-- The heap, and the variables outside of it by their numbers.
pub record Store : Type 0 where
  pub heap : Heap
  pub slots : List Var

-- `lai_var_finalize`, with one round more than there are cells.
unfoldable pub finalize_var : Heap → Var → Run Heap
unfolding var_finalize
finalize_var h v = var_finalize (suc (length h)) h v

unfoldable pub finalize_slot : Store → ℕ → Run Store
unfolding finalize_var
finalize_slot s x = do
  v ← read s.slots x
  h ← finalize_var s.heap v
  ok (record { heap = h; slots = set s.slots x empty_var })

-- `lai_swap_object` with a variable of the caller: the new variable of the caller is returned.
unfoldable pub swap_object : Store → (temp : Var) → ℕ → Run (Var × Store)
swap_object s temp x = read s.slots x >>= λ v. ok (v, record s { slots = set s.slots x temp })

-- `lai_var_move`
unfoldable pub var_move : Store → (destination source : ℕ) → Run Store
unfolding swap_object finalize_var
var_move s destination source = do
  taken ← swap_object s empty_var source
  old ← swap_object taken.1 taken.0 destination
  h ← finalize_var (old.1).heap old.0
  ok (record { heap = h; slots = (old.1).slots })

-- The reference that `lai_var_assign` adds.
unfoldable pub ref_var : Heap → Var → Run Heap
unfolding rc_ref
ref_var h v = elim (pointer v) [ none ↦ ok h | some p ↦ rc_ref h p ]

-- `lai_var_assign`: the copy is a variable of the function, which is moved.
unfoldable pub var_assign : Store → (dest src : ℕ) → Run Store
unfolding ref_var swap_object finalize_var
var_assign s dest src = do
  temp ← read s.slots src
  h ← ref_var s.heap temp
  old ← swap_object (record s { heap = h }) temp dest
  h' ← finalize_var (old.1).heap old.0
  ok (record { heap = h'; slots = (old.1).slots })
