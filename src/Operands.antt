-- ===== src/Operands.antt =====
-- core/exec-operand.c: loads and stores of operands, nodes and references. `lai_read_opregion` and
-- `lai_write_opregion`, which OpRegion is about, are parameters of the functions here.
pub mod Stores
use lai.Base.{
  ℕ, zero, suc, ◌+◌, ◌^◌, Bool, true, false, ◌==◌, ltb, if◌then◌else◌, Option, none, some, List, [],
  ◌∷◌, length, set, u8, Run, ok, panic, fault, ensure, read, ◌>>=◌, ◌>>◌, ApiError, no_error,
  execution_failure,
}
use lai.Objects.{
  Var, empty_var, integer, string, buffer, pkg, handle, arg_ref, local_ref, node_ref, string_index,
  buffer_index, pkg_index, Heap,
}
use lai.Objects.Vars.{finalize_var}
use lai.BufferField.{write_buffer_field, read_buffer_field}
use lai.Convert.{
  Filled, string_access, buffer_access, write_string, write_buffer, pkg_elems, write_pkg, pkg_size,
}
use lai.Convert.Clone.{assign_value}
use lai.Convert.Integers.{mutate_integer}
use lai.Convert.Buffers.{mutate_buffer}
use lai.Convert.Strings.{mutate_string}
use lai.Convert.Kinds.{resize_pkg}

-- `struct lai_invocation`
pub record Invocation : Type 0 where
  pub args : List Var
  pub locals : List Var

-- The nodes, by what the functions here do with them.
pub data NodeContent : Type 0 where
  name_node : (object : Var) → NodeContent
  field_node handle_node other_node : NodeContent
  buffer_field_node : (bf_buffer bf_offset bf_size : ℕ) → NodeContent

pub record World : Type 0 where
  pub heap : Heap
  pub invocations : List Invocation
  pub nodes : List NodeContent

-- `struct lai_operand`
pub data LaiOperand : Type 0 where
  object_operand : (object : Var) → LaiOperand
  null_name unresolved_name debug_name : LaiOperand
  resolved_name : (node : ℕ) → LaiOperand
  arg_name local_name : (index : ℕ) → LaiOperand

-- The variables of an invocation.
unfoldable pub read_arg : World → (invocation index : ℕ) → Run Var
read_arg w c i = read w.invocations c >>= λ v. read v.args i

unfoldable pub read_local : World → (invocation index : ℕ) → Run Var
read_local w c i = read w.invocations c >>= λ v. read v.locals i

-- `lai_var_assign` to an argument, to a local and to the object of a node.
unfoldable pub assign_arg : World → (invocation index : ℕ) → Var → Run World
assign_arg w c i value = do
  v ← read w.invocations c
  old ← read v.args i
  r ← assign_value w.heap old value
  ok (record w {
    heap = r.1;
    invocations = set w.invocations c (record v { args = set v.args i r.0 });
  })

unfoldable pub assign_local : World → (invocation index : ℕ) → Var → Run World
assign_local w c i value = do
  v ← read w.invocations c
  old ← read v.locals i
  r ← assign_value w.heap old value
  ok (record w {
    heap = r.1;
    invocations = set w.invocations c (record v { locals = set v.locals i r.0 });
  })

unfoldable pub assign_object : World → (node : ℕ) → (old value : Var) → Run World
assign_object w n old value = do
  r ← assign_value w.heap old value
  ok (record w { heap = r.1; nodes = set w.nodes n (name_node r.0) })

-- A conversion in place of the object of a node; an error is a panic.
abbrev pub store_converted : World → (node : ℕ) → Filled → Run World
store_converted w n (no_error, object, h) =
    ok (record w { heap = h; nodes = set w.nodes n (name_node object) })
store_converted w n (e, object, h) = panic

abbrev pub store_heap : World → ApiError × Heap → Run World
store_heap w (no_error, h) = ok (record w { heap = h })
store_heap w (e, h) = panic

-- The store of an object to an element of the package `p`, by `lai_exec_pkg_var_store`.
unfoldable pub pkg_store : Heap → (p i : ℕ) → (value : Var) → Run Heap
pkg_store h p i value = do
  elems ← pkg_elems h (pkg p)
  old ← read elems i
  r ← assign_value h old value
  after ← pkg_elems r.1 (pkg p)
  write_pkg r.1 (pkg p) (set after i r.0)

-- The loop of `lai_exec_mutate_ns` over the elements of a package: the temporary variable that an
-- element is loaded to keeps its reference.
unfoldable pub copy_elems : Heap → (target source : ℕ) (left i : ℕ) → Run Heap
unfolding pkg_store
copy_elems h target source zero i = ok h
copy_elems h target source (suc left) i = pkg_elems h (pkg source) >>= λ elems.
    read elems i >>= λ elem. assign_value h empty_var elem >>= λ temp.
    pkg_store temp.1 target i temp.0 >>= λ h'. copy_elems h' target source left (i + 1)

-- The member `integer` of a variable: the value of an integer, the position of an index. In
-- others it is what an earlier use of the variable has left there, which the model does not keep.
unfoldable pub integer_of : Var → Run ℕ
integer_of (integer n) = ok n
integer_of (string_index p i) = ok i
integer_of (buffer_index p i) = ok i
integer_of (pkg_index p i) = ok i
integer_of other = fault

-- A byte of a string or of a buffer, `window[index] = object->integer`.
unfoldable pub store_byte : List ℕ → (index : ℕ) → (object : Var) → Run (List ℕ)
store_byte window i object = do
  n ← integer_of object
  ensure_inside ← read window i
  ok (set window i (u8 n))

-- `lai_exec_get_objectref`
unfoldable pub get_objectref : World → LaiOperand → (old : Var) → Run (Var × World)
get_objectref w (object_operand object) old =
    assign_value w.heap old object >>= λ r. ok (r.0, record w { heap = r.1 })
get_objectref w other old = panic
