-- ===== src/Operands/Stores.antt =====
-- core/exec-operand.c: `lai_exec_access`, `lai_store_ns`, `lai_exec_mutate_ns`, the loads and stores
-- of references, and `lai_operand_load`, `lai_operand_mutate` and `lai_operand_emplace`.
use lai.Base.{ℕ, suc, Bool, Option, none, some, List, length, Run, ok, panic, read, ◌>>=◌}
use lai.Objects.{
  Var, empty_var, integer, string, buffer, pkg, handle, arg_ref, local_ref, node_ref, string_index,
  buffer_index, pkg_index,
}
use lai.Objects.Vars.{finalize_var}
use lai.BufferField.{write_buffer_field, read_buffer_field}
use lai.Convert.{string_access, buffer_access, write_string, write_buffer, pkg_size}
use lai.Convert.Clone.{assign_value}
use lai.Convert.Integers.{mutate_integer}
use lai.Convert.Buffers.{mutate_buffer}
use lai.Convert.Strings.{mutate_string}
use lai.Convert.Kinds.{resize_pkg}
use lai.Operands.{
  World, name_node, field_node, handle_node, other_node, buffer_field_node, LaiOperand,
  object_operand, null_name, unresolved_name, debug_name, resolved_name, arg_name, local_name,
  read_arg, read_local, assign_arg, assign_local, assign_object, store_converted, store_heap,
  pkg_store, copy_elems, integer_of, store_byte,
}

module _ (read_opregion : World → (old : Var) → (node : ℕ) → Run (Var × World))
    (write_opregion : World → (node : ℕ) → Var → Run World) (garbage : ℕ → List ℕ)
    (room : Bool) where
  -- `lai_exec_access` to a variable with the content `old`.
  unfoldable pub exec_access : World → (old : Var) → (src : ℕ) → Run (Var × World)
  exec_access w old src = read w.nodes src >>= λ n. elim n [
    | name_node object ↦ assign_value w.heap old object >>= λ r. ok (r.0, record w { heap = r.1 })
    | field_node ↦ read_opregion w old src
    | buffer_field_node p offset size ↦ buffer_access w.heap (buffer p) >>= λ content.
        read_buffer_field content offset size >>= λ value. ok (integer value, w)
    | handle_node ↦ ok (handle src, w)
    | other_node ↦ panic
  ]

  -- `lai_store_ns`
  unfoldable pub store_ns : World → (target : ℕ) → (object : Var) → Run World
  store_ns w target object = read w.nodes target >>= λ n. elim n [
    | name_node old ↦ assign_object w target old object
    | field_node ↦ write_opregion w target object
    | buffer_field_node p offset size ↦ integer_of object >>= λ value.
        buffer_access w.heap (buffer p) >>= λ content.
        write_buffer_field content value offset size >>= λ written.
        write_buffer w.heap (buffer p) written >>= λ h. ok (record w { heap = h })
    | handle_node ↦ panic
    | other_node ↦ panic
  ]

  -- The cases of `lai_exec_mutate_ns` by the type of the object of a name.
  unfoldable pub mutate_name : World → (target : ℕ) → (old object : Var) → Run World
  unfolding copy_elems
  mutate_name w target old object = elim old [
    | integer n ↦ mutate_integer w.heap (integer n) object >>= store_converted w target
    | string p ↦ mutate_string garbage room w.heap (string p) object >>= store_heap w
    | buffer p ↦ mutate_buffer w.heap (buffer p) object >>= store_heap w
    | pkg p ↦ elim object [
      | pkg q ↦ pkg_size w.heap (pkg q) >>= λ n.
          resize_pkg (suc (length w.heap)) room w.heap (pkg p) n >>= store_heap w >>= λ w'.
          copy_elems w'.heap p q n 0 >>= λ h. ok (record w' { heap = h })
      | other ↦ panic
    ]
    | other ↦ assign_object w target other object
  ]

  -- `lai_exec_mutate_ns`
  unfoldable pub exec_mutate_ns : World → (target : ℕ) → (object : Var) → Run World
  exec_mutate_ns w target object = read w.nodes target >>= λ n. elim n [
    | name_node old ↦ mutate_name w target old object
    | field_node ↦ write_opregion w target object
    | buffer_field_node p offset size ↦ store_ns w target object
    | handle_node ↦ panic
    | other_node ↦ panic
  ]

  -- `lai_exec_ref_load` and `lai_exec_ref_store`
  unfoldable pub exec_ref_load : World → (old ref : Var) → Run (Var × World)
  exec_ref_load w old ref = elim ref [
    | arg_ref c i ↦
        read_arg w c i >>= λ v. assign_value w.heap old v >>= λ r. ok (r.0, record w { heap = r.1 })
    | local_ref c i ↦ read_local w c i >>= λ v.
        assign_value w.heap old v >>= λ r. ok (r.0, record w { heap = r.1 })
    | node_ref n ↦ exec_access w old n
    | other ↦ panic
  ]

  unfoldable pub exec_ref_store : World → (ref object : Var) → Run World
  exec_ref_store w ref object = elim ref [
    | arg_ref c i ↦ assign_arg w c i object
    | local_ref c i ↦ assign_local w c i object
    | node_ref n ↦ store_ns w n object
    | other ↦ panic
  ]

  -- `lai_operand_load`, in the context of an invocation or of none.
  unfoldable pub operand_load :
      World → (invocation : Option ℕ) → LaiOperand → (old : Var) → Run (Var × World)
  operand_load w none (resolved_name n) old = exec_access w old n
  operand_load w none other old = panic
  operand_load w (some c) src old = elim src [
    | arg_name i ↦ exec_ref_load w old (arg_ref c i)
    | local_name i ↦ exec_ref_load w old (local_ref c i)
    | resolved_name n ↦ exec_access w old n
    | other ↦ panic
  ]

  -- The stores to the references that Index() returns.
  unfoldable pub store_index : World → (dest object : Var) → Run World
  unfolding store_byte pkg_store
  store_index w dest object = elim dest [
    | string_index p i ↦ string_access w.heap (string p) >>= λ window.
        store_byte window i object >>= λ written.
        write_string w.heap (string p) written >>= λ h. ok (record w { heap = h })
    | buffer_index p i ↦ buffer_access w.heap (buffer p) >>= λ window.
        store_byte window i object >>= λ written.
        write_buffer w.heap (buffer p) written >>= λ h. ok (record w { heap = h })
    | pkg_index p i ↦ assign_value w.heap empty_var object >>= λ copy.
        pkg_store copy.1 p i copy.0 >>= λ h.
        finalize_var h copy.0 >>= λ h'. ok (record w { heap = h' })
    | other ↦ panic
  ]

  -- The store to an argument, or to what the reference in it refers to.
  unfoldable pub store_arg : World → (invocation index : ℕ) → (object : Var) → Run World
  store_arg w c i object = read_arg w c i >>= λ v. elim v [
    | arg_ref c' j ↦ exec_ref_store w (arg_ref c' j) object
    | local_ref c' j ↦ exec_ref_store w (local_ref c' j) object
    | node_ref n ↦ exec_ref_store w (node_ref n) object
    | other ↦ assign_arg w c i object
  ]

  -- The cases that `lai_operand_mutate` and `lai_operand_emplace` share; `store_node` is
  -- `lai_exec_mutate_ns` in the one and `lai_store_ns` in the other. The host may show a store to
  -- the debug object.
  unfoldable pub operand_store :
      (store_node : World → ℕ → Var → Run World)
      → World
      → (invocation : Option ℕ) → (dest : LaiOperand) → (object : Var) → Run World
  operand_store store_node w invocation (object_operand dest) object = store_index w dest object
  operand_store store_node w invocation null_name object = ok w
  operand_store store_node w invocation debug_name object = ok w
  operand_store store_node w invocation (resolved_name n) object = store_node w n object
  operand_store store_node w (some c) (arg_name i) object = store_arg w c i object
  operand_store store_node w (some c) (local_name i) object = assign_local w c i object
  operand_store store_node w none (arg_name i) object = panic
  operand_store store_node w none (local_name i) object = panic
  operand_store store_node w invocation unresolved_name object = panic

  unfoldable pub operand_mutate :
      World → (invocation : Option ℕ) → (dest : LaiOperand) → (object : Var) → Run World
  operand_mutate w invocation dest object = operand_store exec_mutate_ns w invocation dest object

  unfoldable pub operand_emplace :
      World → (invocation : Option ℕ) → (dest : LaiOperand) → (object : Var) → Run World
  operand_emplace w invocation dest object = operand_store store_ns w invocation dest object
