-- ===== src/Tests/Objects.antt =====
-- Tests of the reference counts of objects.
use lai.Base.{ℕ, zero, suc, ◌+◌, ◌≡◌, refl, none, some, [], ◌∷◌, get_or, set, ok, arith}
use lai.Objects.{empty_var, integer, string, pkg, string_head, pkg_head, Heap, cell_at}
use lai.Objects.Sums.{total}
use lai.Objects.Counts.{rc_at, heap_refs, occurrences}
use lai.Objects.Vars.{Store, var_assign, var_move, finalize_slot}
use lai.Objects.Balance.{Balanced, var_assign-Balanced, var_move-Balanced, finalize_slot-Balanced}

-- A string that a variable and a package refer to.
abbrev shared : Store
shared = record {
  heap =
      some (record { rc = 2; head = string_head (65 ∷ 0 ∷ []) })
      ∷ some (record { rc = 1; head = pkg_head (string 0 ∷ integer 9 ∷ []) })
      ∷ [];
  slots = string 0 ∷ pkg 1 ∷ integer 5 ∷ [];
}

shared-counted :
    (q : ℕ) → rc_at shared.heap q ≡ occurrences q shared.slots + heap_refs shared.heap q
unfolding total
shared-counted zero = refl
shared-counted (suc zero) = refl
shared-counted (suc (suc q)) = ground arith

shared-clean : (q : ℕ) → rc_at shared.heap q ≡ 0 → cell_at shared.heap q ≡ none
shared-clean zero z = absurd (omega (arith, z))
shared-clean (suc zero) z = absurd (omega (arith, z))
shared-clean (suc (suc q)) z = refl

shared-Balanced : Balanced shared
shared-Balanced = record { counted = shared-counted; clean = shared-clean }

var_assign_example :
    (h : Heap) × (var_assign shared 1 2
      ≡ ok (record { heap = h; slots = set shared.slots 1 (get_or shared.slots 2 empty_var) }))
    × Balanced (record { heap = h; slots = set shared.slots 1 (get_or shared.slots 2 empty_var) })
var_assign_example = var_assign-Balanced shared 1 2 shared-Balanced (omega arith) (omega arith)

var_move_example :
    (h : Heap) × (var_move shared 1 0
      ≡ ok (record {
        heap = h;
        slots = set (set shared.slots 0 empty_var) 1 (get_or shared.slots 0 empty_var);
      }))
    × Balanced (record {
      heap = h;
      slots = set (set shared.slots 0 empty_var) 1 (get_or shared.slots 0 empty_var);
    })
var_move_example = var_move-Balanced shared 1 0 shared-Balanced (omega arith) (omega arith)

finalize_slot_example :
    (h : Heap) × (finalize_slot shared 1
      ≡ ok (record { heap = h; slots = set shared.slots 1 empty_var }))
    × Balanced (record { heap = h; slots = set shared.slots 1 empty_var })
finalize_slot_example = finalize_slot-Balanced shared 1 shared-Balanced (omega arith)

-- The package is freed, and the string keeps one reference.
assign_frees :
    var_assign shared 1 2
    ≡ ok (record {
      heap = some (record { rc = 1; head = string_head (65 ∷ 0 ∷ []) }) ∷ none ∷ [];
      slots = string 0 ∷ integer 5 ∷ integer 5 ∷ [];
    })
unfolding var_assign
assign_frees = refl
