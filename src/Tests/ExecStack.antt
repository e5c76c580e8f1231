-- ===== src/Tests/ExecStack.antt =====
-- Tests of the stacks of the interpreter.
use lai.Base.{
  Option, List, ◌%◌, ◌==◌, if◌then◌else◌, ℕ, zero, suc, ◌<◌, read, fault, ◌+◌, ◌≡◌, ◌⊎◌, refl, true,
  false, none, some, [], ◌∷◌, ◌++◌, Run, ok, panic, ◌>>=◌, arith,
}
use mathlib.Core.List.{reverse}
use mathlib.Core.Path.{subst}
use lai.ExecStack.{Stack, capacity, reserve, reserve_n, push, fill}
use lai.ExecStack.Items.{items, Pushed, Grown, reserve-push}
use lai.ExecStack.Opstack.{reserve_n-reserve}
use lai.ExecStack.Finalize.{CtxItem, LaiState, finalize_state}
use lai.ExecStack.Drained.{Released, all_vars, finalize_state-vars, IsState, IsInvocation}

-- A full stack of two numbers.
abbrev full_stack : Stack ℕ
full_stack = record { base = 7 ∷ 8 ∷ []; ptr = 2 }

-- One slot is left.
abbrev one_slot : Stack ℕ
one_slot = record { base = 7 ∷ 8 ∷ 9 ∷ []; ptr = 2 }

reserve-push_example :
    ((s : Stack ℕ) × (out : Stack ℕ) × (reserve 0 true full_stack ≡ ok (0, s))
      × (push 0 s ≡ ok out)
      × Pushed full_stack 5 (fill out 5)
      × Grown true full_stack s)
    ⊎ (reserve 0 true full_stack ≡ ok (1, full_stack))
      × (true ≡ false)
      × (full_stack.ptr ≡ capacity full_stack)
reserve-push_example = reserve-push 0 true full_stack 5 (omega arith) (omega arith)

reserve_n_example :
    (reserve_n 0 true one_slot 2 ≡ reserve 0 true one_slot)
    × (one_slot.ptr + 1 ≡ capacity one_slot
        → (reserve_n 0 true one_slot 2 >>= λ r. push 0 r.1 >>= push 0) ≡ panic)
reserve_n_example = reserve_n-reserve 0 true one_slot 1 (omega arith)

-- A call with numbers for variables, and an operand.
abbrev call_state : LaiState ℕ ℕ ℕ
call_state = record {
  ctxstack = record {
    base =
        record {
          amls = 0;
          code = [];
          handle = none;
          invocation = some (record {
            arg = 1 ∷ 2 ∷ 3 ∷ 4 ∷ 5 ∷ 6 ∷ 7 ∷ [];
            local = 11 ∷ 12 ∷ 13 ∷ 14 ∷ 15 ∷ 16 ∷ 17 ∷ 18 ∷ [];
          });
        }
        ∷ [];
    ptr = 1;
  };
  blkstack = record { base = record { pc = 0; limit = 9 } ∷ []; ptr = 1 };
  stack = record { base = 0 ∷ []; ptr = 0 };
  opstack = record { base = 21 ∷ 22 ∷ []; ptr = 2 };
}

-- Any item that is read from the context stack has an invocation of the right size.
ReadItem : Run (CtxItem ℕ) → Type 0
ReadItem r = elim r [ ok item ↦ IsInvocation item.invocation | panic ↦ Unit | fault ↦ Unit ]

call_items :
    (n : ℕ) (item : CtxItem ℕ)
    → n < 1
    → read call_state.ctxstack.base n ≡ ok item
    → IsInvocation item.invocation
unfolding ReadItem
call_items zero item lt e = subst ReadItem e (refl, refl)
call_items (suc n) item lt e = absurd (omega (arith, lt))

call_state_valid : IsState call_state
call_state_valid = ((omega arith, call_items), omega arith)

-- The even operands are objects.
abbrev even_operand : ℕ → Option ℕ
even_operand n = if n % 2 == 0 then some n else none

finalize_state_example :
    (vars : List ℕ) × (out : LaiState ℕ ℕ ℕ) × Released even_operand
      (reverse (items call_state.opstack))
      vars
    × (finalize_state even_operand call_state
        ≡ ok (all_vars (reverse (items call_state.ctxstack)) ++ vars, out))
    × (out.ctxstack.ptr ≡ 0)
    × (out.blkstack.ptr ≡ 0)
    × (out.stack.ptr ≡ 0)
    × (out.opstack.ptr ≡ 0)
finalize_state_example = finalize_state-vars even_operand call_state call_state_valid
