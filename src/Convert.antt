-- ===== src/Convert.antt =====
-- core/object.c, include/lai/internal-exec.h, core/exec-operand.c, core/libc.c: strings, buffers and
-- packages are created, and their content is read and written.
pub mod Clone
pub mod Buffers
pub mod Integers
pub mod Strings
pub mod Match
pub mod Kinds
pub mod Cells
pub mod Fit
pub mod Through
pub mod Order
pub mod Comparison
use lai.Base.{
  ℕ, zero, suc, ◌+◌, ◌&&◌, Bool, true, false, ◌==◌, leb, if◌then◌else◌, none, some, List, [], ◌∷◌,
  ◌++◌, length, take, drop, replicate, set, Run, ok, panic, fault, ◌>>=◌, ApiError, no_error,
  out_of_memory,
}
use lai.Objects.{
  Var, empty_var, string, buffer, pkg, Head, string_head, buffer_head, pkg_head, Cell, Heap, deref,
}

-- What the functions that fill a variable return: the error, the variable and the heap.
abbrev pub Filled : Type 0
Filled = ApiError × Var × Heap

-- The two allocations, of the head and of its content; `room` says whether both succeed. If not,
-- the variable is left with a pointer to an object that does not exist.
unfoldable pub create : (room : Bool) → Heap → Head → (ℕ → Var) → Filled
create true h head var = (no_error, var (length h), h ++ some (record { rc = 1; head = head }) ∷ [])
create false h head var = (out_of_memory, var (length h), h ++ none ∷ [])

unfoldable pub create_string : (room : Bool) → Heap → (length : ℕ) → Filled
unfolding create
create_string room h n = create room h (string_head (replicate (n + 1) 0)) string

unfoldable pub create_buffer : (room : Bool) → Heap → (size : ℕ) → Filled
unfolding create
create_buffer room h size = create room h (buffer_head (replicate size 0)) buffer

unfoldable pub create_pkg : (room : Bool) → Heap → (n : ℕ) → Filled
unfolding create
create_pkg room h n = create room h (pkg_head (replicate n empty_var)) pkg

-- The content of a string or of a buffer; a head of another kind is a fault.
abbrev pub string_content : Head → Run (List ℕ)
string_content (string_head content) = ok content
string_content (buffer_head content) = fault
string_content (pkg_head elems) = fault

abbrev pub buffer_content : Head → Run (List ℕ)
buffer_content (buffer_head content) = ok content
buffer_content (string_head content) = fault
buffer_content (pkg_head elems) = fault

abbrev pub pkg_content : Head → Run (List Var)
pkg_content (pkg_head elems) = ok elems
pkg_content (string_head content) = fault
pkg_content (buffer_head content) = fault

-- `lai_exec_string_access`, `lai_exec_buffer_access`: what the pointer that they return shows.
unfoldable pub string_access : Heap → Var → Run (List ℕ)
unfolding deref
string_access h (string p) = deref h p >>= λ c. string_content c.head
string_access h other = panic

unfoldable pub buffer_access : Heap → Var → Run (List ℕ)
unfolding deref
buffer_access h (buffer p) = deref h p >>= λ c. buffer_content c.head
buffer_access h other = panic

-- The elements of a package, without a test of the type.
unfoldable pub pkg_elems : Heap → Var → Run (List Var)
unfolding deref
pkg_elems h (pkg p) = deref h p >>= λ c. pkg_content c.head
pkg_elems h other = fault

-- `lai_strlen`, of an array without a terminator a fault.
unfoldable pub strlen : List ℕ → Run ℕ
strlen [] = fault
strlen (c ∷ s) = elim (c == 0) [ true ↦ ok 0 | false ↦ strlen s >>= λ n. ok (n + 1) ]

unfoldable pub string_length : Heap → Var → Run ℕ
unfolding string_access strlen
string_length h v = string_access h v >>= strlen

unfoldable pub buffer_size : Heap → Var → Run ℕ
unfolding buffer_access
buffer_size h v = buffer_access h v >>= λ content. ok (length content)

unfoldable pub pkg_size : Heap → Var → Run ℕ
unfolding pkg_elems
pkg_size h v = pkg_elems h v >>= λ elems. ok (length elems)

-- The head behind a pointer is replaced, with its count kept.
unfoldable pub put_head : Heap → ℕ → Head → Run Heap
unfolding deref
put_head h p head = deref h p >>= λ c. ok (set h p (some (record c { head = head })))

unfoldable pub write_string : Heap → Var → List ℕ → Run Heap
unfolding put_head
write_string h (string p) content = put_head h p (string_head content)
write_string h other content = panic

unfoldable pub write_buffer : Heap → Var → List ℕ → Run Heap
unfolding put_head
write_buffer h (buffer p) content = put_head h p (buffer_head content)
write_buffer h other content = panic

unfoldable pub write_pkg : Heap → Var → List Var → Run Heap
unfolding put_head
write_pkg h (pkg p) elems = put_head h p (pkg_head elems)
write_pkg h other elems = fault

-- `memcpy(destination, source, n)`.
unfoldable pub memcpy : (destination source : List ℕ) → ℕ → Run (List ℕ)
memcpy destination source n =
    if leb n (length destination) && leb n (length source)
    then ok (take n source ++ drop n destination)
    else fault

-- `lai_create_c_string`, with the characters of `s` without its terminator.
unfoldable pub create_c_string : (room : Bool) → Heap → (s : List ℕ) → Run Filled
unfolding create_string string_access write_string memcpy
create_c_string false h s = ok (create_string false h (length s))
create_c_string true h s =
    let made = create_string true h (length s) in
    do
      content ← string_access made.2 made.1
      filled ← memcpy content s (length s)
      h' ← write_string made.2 made.1 filled
      ok (no_error, made.1, h')
