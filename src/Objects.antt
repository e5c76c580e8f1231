-- ===== src/Objects.antt =====
-- include/lai/internal-exec.h, include/lai/internal-util.h, core/variable.c: AML objects, their
-- reference counts, and `lai_var_finalize`. Strings, buffers and packages stand in a heap.
pub mod Sums
pub mod Counts
pub mod Release
pub mod Freed
pub mod Finalize
pub mod Vars
pub mod Balance
use lai.Base.{
  ℕ, zero, suc, ◌+◌, ◌-◌, ◌<◌, Bool, true, false, ◌==◌, ltb, if◌then◌else◌, Option, none, some,
  List, [], ◌∷◌, length, get_or, set, Run, ok, panic, fault, ensure, read, ◌>>=◌, ◌>>◌,
}

-- `lai_variable_t`, with the addresses of heads in the heap, and nodes and invocations by number.
pub data Var : Type 0 where
  empty_var : Var
  integer : (value : ℕ) → Var
  string buffer pkg : (ptr : ℕ) → Var
  handle : (node : ℕ) → Var
  lazy_handle : (unres_ctx_handle : ℕ) (unres_aml : List ℕ) → Var
  arg_ref local_ref : (invocation index : ℕ) → Var
  node_ref : (node : ℕ) → Var
  string_index buffer_index pkg_index : (ptr index : ℕ) → Var

-- `struct lai_string_head` (the content fills the capacity), `struct lai_buffer_head` and
-- `struct lai_pkg_head`, without their reference counts.
pub data Head : Type 0 where
  string_head buffer_head : (content : List ℕ) → Head
  pkg_head : (elems : List Var) → Head

pub record Cell : Type 0 where
  pub rc : ℕ
  pub head : Head

-- A cell that has been freed is `none`.
abbrev pub Heap : Type 0
Heap = List (Option Cell)

abbrev pub cell_at : Heap → ℕ → Option Cell
cell_at h p = get_or h p none

-- What a variable holds a reference to.
abbrev pub pointer : Var → Option ℕ
pointer empty_var = none
pointer (integer n) = none
pointer (string p) = some p
pointer (buffer p) = some p
pointer (pkg p) = some p
pointer (handle n) = none
pointer (lazy_handle c a) = none
pointer (arg_ref c i) = none
pointer (local_ref c i) = none
pointer (node_ref n) = none
pointer (string_index p i) = some p
pointer (buffer_index p i) = some p
pointer (pkg_index p i) = some p

-- A read through a pointer to a freed cell is a fault.
unfoldable pub deref : Heap → ℕ → Run Cell
deref h p = elim (cell_at h p) [ some c ↦ ok c | none ↦ fault ]

-- `lai_rc_ref`
unfoldable pub rc_ref : Heap → ℕ → Run Heap
unfolding deref
rc_ref h p = do c ← deref h p; ensure (ltb 0 c.rc); ok (set h p (some (record c { rc = c.rc + 1 })))

-- `lai_rc_unref`, with the test for 0 that it returns.
unfoldable pub rc_unref : Heap → ℕ → Run (Bool × Heap)
unfolding deref
rc_unref h p = do
  c ← deref h p
  ensure (ltb 0 c.rc)
  ok (c.rc - 1 == 0, set h p (some (record c { rc = c.rc - 1 })))

-- An element of the package at `p`, and the package with the element cleared.
unfoldable pub elem_at : Heap → (p i : ℕ) → Run Var
unfolding deref
elem_at h p i = deref h p >>= λ c. elim c.head [
  | pkg_head elems ↦ read elems i
  | string_head content ↦ fault
  | buffer_head content ↦ fault
]

unfoldable pub clear_elem : Heap → (p i : ℕ) → Run Heap
unfolding deref
clear_elem h p i = deref h p >>= λ c. elim c.head [
  | pkg_head elems ↦ ok (set h p (some (record c { head = pkg_head (set elems i empty_var) })))
  | string_head content ↦ fault
  | buffer_head content ↦ fault
]

-- The loop of `laihost_free_package`, at element `i` with `left` of them to go; `finalize` is
-- `lai_var_finalize` before it clears the variable.
unfoldable pub free_elems : (finalize : Heap → Var → Run Heap) → Heap → (p left i : ℕ) → Run Heap
unfolding elem_at clear_elem
free_elems finalize h p zero i = ok h
free_elems finalize h p (suc left) i = elem_at h p i >>= λ v.
    finalize h v >>= λ h'. clear_elem h' p i >>= λ h''. free_elems finalize h'' p left (i + 1)

-- What is freed with the last reference: the head, and the elements of a package before it.
unfoldable pub free_head : (finalize : Heap → Var → Run Heap) → Heap → ℕ → Run Heap
unfolding free_elems deref
free_head finalize h p = deref h p >>= λ c. elim c.head [
  | pkg_head elems ↦ free_elems finalize h p (length elems) 0 >>= λ h'. ok (set h' p none)
  | string_head content ↦ ok (set h p none)
  | buffer_head content ↦ ok (set h p none)
]

-- `lai_var_finalize` of a variable with this content; the caller clears the variable.
unfoldable pub var_finalize : ℕ → Heap → Var → Run Heap
unfolding rc_unref free_head
var_finalize zero h v = panic
var_finalize (suc fuel) h v = elim (pointer v) [
  | none ↦ ok h
  | some p ↦
      rc_unref h p >>= λ r. elim r.0 [ false ↦ ok r.1 | true ↦ free_head (var_finalize fuel) r.1 p ]
]
