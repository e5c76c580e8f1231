-- ===== src/Convert/Buffers.antt =====
-- core/object.c: `lai_obj_to_buffer` and `lai_mutate_buffer`.
use lai.Base.{
  ℕ, ◌+◌, min, Bool, true, false, ◌==◌, if◌then◌else◌, List, length, replicate, Run, ok, ◌>>=◌,
  ApiError, no_error, illegal_arguments,
}
use lai.Objects.{Var, integer, string, buffer, Heap}
use lai.OpRegion.Values.{spread_bytes}
use lai.Convert.{Filled, create_buffer, string_access, buffer_access, strlen, write_buffer, memcpy}
use lai.Convert.Clone.{obj_clone}

-- A new buffer of `size` bytes, into which `n` bytes of `source` are copied.
unfoldable pub create_copy : (room : Bool) → Heap → (source : List ℕ) (size n : ℕ) → Run Filled
unfolding create_buffer buffer_access write_buffer memcpy
create_copy false h source size n = ok (create_buffer false h size)
create_copy true h source size n =
    let made = create_buffer true h size in
    do
      into ← buffer_access made.2 made.1
      content ← memcpy into source n
      h' ← write_buffer made.2 made.1 content
      ok (no_error, made.1, h')

-- `lai_obj_to_buffer` to a variable with the content `out`; the bytes of an integer are in the
-- order of a little-endian machine.
unfoldable pub to_buffer : (fuel : ℕ) (room : Bool) → Heap → (out object : Var) → Run Filled
unfolding create_copy create_buffer string_access strlen obj_clone
to_buffer fuel room h out object = elim object [
  | integer n ↦ create_copy room h (spread_bytes 8 0 n) 8 8
  | buffer p ↦ obj_clone fuel room h out (buffer p) >>= λ r. ok (no_error, r.0, r.1)
  | string p ↦ string_access h (string p) >>= λ content. strlen content >>= λ len.
      if len == 0 then ok (create_buffer room h 0) else create_copy room h content (len + 1) len
  | other ↦ ok (illegal_arguments, out, h)
]

-- The target is cleared, and then as much of the source is copied as fits; `source` is what its
-- pointer shows after that.
unfoldable pub overwrite :
    Heap → (target : Var) → (source : Heap → Run (List ℕ)) → (copy_size : ℕ) → Run (ApiError × Heap)
unfolding buffer_access write_buffer memcpy
overwrite h target source copy_size = do
  before ← buffer_access h target
  let size = length before
  h1 ← write_buffer h target (replicate size 0)
  into ← buffer_access h1 target
  from ← source h1
  content ← memcpy into from (min copy_size size)
  h2 ← write_buffer h1 target content
  ok (no_error, h2)

-- `lai_mutate_buffer`
unfoldable pub mutate_buffer : Heap → (target object : Var) → Run (ApiError × Heap)
unfolding overwrite buffer_access string_access strlen
mutate_buffer h target object = elim object [
  | buffer p ↦ buffer_access h (buffer p) >>= λ content.
      overwrite h target (λ h'. buffer_access h' (buffer p)) (length content)
  | integer n ↦ overwrite h target (λ h'. ok (spread_bytes 8 0 n)) 8
  | string p ↦ string_access h (string p) >>= λ content.
      strlen content >>= λ n. overwrite h target (λ h'. string_access h' (string p)) (n + 1)
  | other ↦ ok (illegal_arguments, h)
]
