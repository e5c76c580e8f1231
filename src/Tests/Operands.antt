-- ===== src/Tests/Operands.antt =====
-- Tests of the stores of operands.
use lai.Base.{ℕ, ◌≡◌, refl, some, [], ◌∷◌, true, Run, ok, panic}
use lai.Objects.{Var, integer, string, pkg, local_ref, string_head, pkg_head}
use lai.Convert.{pkg_size}
use lai.Convert.Kinds.{resize_pkg}
use lai.Convert.Clone.{assign_value}
use lai.Operands.{World, name_node, arg_name, resolved_name, read_arg, assign_local}
use lai.Operands.Stores.{
  operand_mutate, operand_emplace, exec_mutate_ns, exec_ref_store, store_arg, mutate_name,
  operand_store,
}

abbrev no_read : World → Var → ℕ → Run (Var × World)
no_read w old n = panic

abbrev no_write : World → ℕ → Var → Run World
no_write w n v = panic

-- A string, an empty package and a package with the string; two invocations, the first with a
-- reference to a local of the second in its argument.
abbrev world : World
world = record {
  heap =
      some (record { rc = 2; head = string_head (65 ∷ 0 ∷ []) })
      ∷ some (record { rc = 1; head = pkg_head [] })
      ∷ some (record { rc = 1; head = pkg_head (string 0 ∷ []) })
      ∷ [];
  invocations =
      record { args = local_ref 1 0 ∷ []; locals = string 0 ∷ [] }
      ∷ record { args = []; locals = integer 1 ∷ [] }
      ∷ [];
  nodes = name_node (pkg 1) ∷ name_node (pkg 2) ∷ [];
}

-- A store to the argument goes to the local.
through_reference :
    operand_emplace no_read no_write (λ n. []) true world (some 0) (arg_name 0) (integer 7)
    ≡ ok (record world {
      invocations =
          record { args = local_ref 1 0 ∷ []; locals = string 0 ∷ [] }
          ∷ record { args = []; locals = integer 7 ∷ [] }
          ∷ [];
    })
unfolding operand_emplace operand_store store_arg exec_ref_store read_arg assign_local assign_value
through_reference = refl

-- A store of a package copies its one element, which gets two references more: one is lost.
lost_reference :
    operand_mutate no_read no_write (λ n. []) true world (some 0) (resolved_name 0) (pkg 2)
    ≡ ok (record world {
      heap =
          some (record { rc = 4; head = string_head (65 ∷ 0 ∷ []) })
          ∷ some (record { rc = 1; head = pkg_head (string 0 ∷ []) })
          ∷ some (record { rc = 1; head = pkg_head (string 0 ∷ []) })
          ∷ [];
    })
unfolding operand_mutate operand_store exec_mutate_ns mutate_name pkg_size resize_pkg assign_value
lost_reference = refl
