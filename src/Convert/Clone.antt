-- ===== src/Convert/Clone.antt =====
-- core/object.c: `lai_obj_clone` and its fellows.
use lai.Base.{ℕ, zero, suc, ◌+◌, Bool, set, length, Run, ok, panic, read, ◌>>=◌, no_error}
use lai.Objects.{Var, string, buffer, pkg, Heap}
use lai.Objects.Vars.{finalize_var, ref_var}
use lai.Convert.{
  Filled, create_string, create_buffer, create_pkg, string_access, buffer_access, pkg_elems, strlen,
  write_string, write_buffer, write_pkg, memcpy,
}

-- A failed allocation in a clone is a panic.
abbrev pub created : Filled → Run (Var × Heap)
created (no_error, v, h) = ok (v, h)
created (e, v, h) = panic

unfoldable pub clone_buffer : (room : Bool) → Heap → (source : Var) → Run (Var × Heap)
unfolding create_buffer buffer_access write_buffer memcpy
clone_buffer room h source = do
  size ← (buffer_access h source >>= λ content. ok (length content))
  dest ← created (create_buffer room h size)
  from ← buffer_access dest.1 source
  into ← buffer_access dest.1 dest.0
  content ← memcpy into from size
  h' ← write_buffer dest.1 dest.0 content
  ok (dest.0, h')

unfoldable pub clone_string : (room : Bool) → Heap → (source : Var) → Run (Var × Heap)
unfolding create_string string_access strlen write_string memcpy
clone_string room h source = do
  n ← (string_access h source >>= strlen)
  dest ← created (create_string room h n)
  from ← string_access dest.1 source
  into ← string_access dest.1 dest.0
  content ← memcpy into from n
  h' ← write_string dest.1 dest.0 content
  ok (dest.0, h')

-- `lai_var_assign` to a variable with the content `old`.
unfoldable pub assign_value : Heap → (old value : Var) → Run (Var × Heap)
unfolding ref_var finalize_var
assign_value h old value = do h' ← ref_var h value; h'' ← finalize_var h' old; ok (value, h'')

-- `lai_swap_object(dest, &temp); lai_var_finalize(&temp)`.
unfoldable pub swap_in : (old : Var) → Var × Heap → Run (Var × Heap)
unfolding finalize_var
swap_in old (temp, h) = finalize_var h old >>= λ h'. ok (temp, h')

-- The loop of `lai_clone_package` from element `i` on, with `left` of them to go; `clone` is
-- `lai_obj_clone`.
unfoldable pub clone_elems :
    (clone : Heap → (old source : Var) → Run (Var × Heap))
    → Heap
    → (dest src : Var) (left i : ℕ) → Run Heap
unfolding pkg_elems write_pkg
clone_elems clone h dest src zero i = ok h
clone_elems clone h dest src (suc left) i = pkg_elems h dest >>= λ ours. read ours i >>= λ old.
    pkg_elems h src >>= λ theirs. read theirs i >>= λ source. clone h old source >>= λ copy.
    pkg_elems copy.1 dest >>= λ filled.
    write_pkg copy.1 dest (set filled i copy.0) >>= λ h'. clone_elems clone h' dest src left (i + 1)

unfoldable pub clone_package :
    (clone : Heap → (old source : Var) → Run (Var × Heap))
    → (room : Bool) → Heap
    → (src : Var) → Run (Var × Heap)
unfolding create_pkg clone_elems
clone_package clone room h src = pkg_elems h src >>= λ elems.
    created (create_pkg room h (length elems)) >>= λ dest.
    clone_elems clone dest.1 dest.0 src (length elems) 0 >>= λ h'. ok (dest.0, h')

-- `lai_obj_clone` to a variable with the content `old`; the fuel bounds the nesting of packages.
unfoldable pub obj_clone : ℕ → (room : Bool) → Heap → (old source : Var) → Run (Var × Heap)
unfolding clone_string clone_buffer clone_package swap_in assign_value
obj_clone zero room h old source = panic
obj_clone (suc fuel) room h old source = elim source [
  | string p ↦ clone_string room h (string p) >>= swap_in old
  | buffer p ↦ clone_buffer room h (buffer p) >>= swap_in old
  | pkg p ↦ clone_package (obj_clone fuel room) room h (pkg p) >>= swap_in old
  | other ↦ assign_value h old other
]
