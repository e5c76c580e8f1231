-- ===== src/ExecStack/State.antt =====
-- core/exec_impl.h: the operations on the stacks of a `lai_state_t`.
use lai.Base.{ℕ, Bool, Option, none, List, [], Run, ok, ◌>>=◌}
use lai.ExecStack.{
  reserve, reserve_n, push, push_stack, pop, peek, peek_stack_at, get_opstack, pop_opstack,
}
use lai.ExecStack.Finalize.{CtxItem, BlkItem, LaiState, pop_ctxstack, objects}

-- The cleared items.
abbrev pub no_ctxitem : {V : Type 0} → CtxItem V
no_ctxitem = record { amls = 0; code = []; handle = none; invocation = none }

abbrev pub no_blkitem : BlkItem
no_blkitem = record { pc = 0; limit = 0 }

module _ {V O I : Type 0} where
  unfoldable pub exec_reserve_ctxstack : (room : Bool) → LaiState V O I → Run (ℕ × LaiState V O I)
  unfolding reserve
  exec_reserve_ctxstack room state =
      reserve no_ctxitem room state.ctxstack >>= λ r. ok (r.0, record state { ctxstack = r.1 })

  unfoldable pub exec_push_ctxstack : LaiState V O I → Run (LaiState V O I)
  unfolding push
  exec_push_ctxstack state =
      push no_ctxitem state.ctxstack >>= λ s. ok (record state { ctxstack = s })

  unfoldable pub exec_peek_ctxstack_back : LaiState V O I → Run (Option (CtxItem V))
  unfolding peek
  exec_peek_ctxstack_back state = peek state.ctxstack 0

  -- With the variables that it finalizes.
  unfoldable pub exec_pop_ctxstack_back : LaiState V O I → Run (List V × LaiState V O I)
  unfolding pop_ctxstack
  exec_pop_ctxstack_back state =
      pop_ctxstack state.ctxstack >>= λ r. ok (r.0, record state { ctxstack = r.1 })

  unfoldable pub exec_reserve_blkstack : (room : Bool) → LaiState V O I → Run (ℕ × LaiState V O I)
  unfolding reserve
  exec_reserve_blkstack room state =
      reserve no_blkitem room state.blkstack >>= λ r. ok (r.0, record state { blkstack = r.1 })

  unfoldable pub exec_push_blkstack : LaiState V O I → Run (LaiState V O I)
  unfolding push
  exec_push_blkstack state =
      push no_blkitem state.blkstack >>= λ s. ok (record state { blkstack = s })

  unfoldable pub exec_peek_blkstack_back : LaiState V O I → Run (Option BlkItem)
  unfolding peek
  exec_peek_blkstack_back state = peek state.blkstack 0

  unfoldable pub exec_pop_blkstack_back : LaiState V O I → Run (LaiState V O I)
  unfolding pop
  exec_pop_blkstack_back state = pop state.blkstack >>= λ s. ok (record state { blkstack = s })

  -- `junk` stands for what new memory holds.
  unfoldable pub exec_reserve_stack : I → (room : Bool) → LaiState V O I → Run (ℕ × LaiState V O I)
  unfolding reserve
  exec_reserve_stack junk room state =
      reserve junk room state.stack >>= λ r. ok (r.0, record state { stack = r.1 })

  unfoldable pub exec_push_stack : LaiState V O I → Run (LaiState V O I)
  unfolding push_stack
  exec_push_stack state = push_stack state.stack >>= λ s. ok (record state { stack = s })

  unfoldable pub exec_peek_stack : LaiState V O I → ℕ → Run (Option I)
  unfolding peek
  exec_peek_stack state n = peek state.stack n

  unfoldable pub exec_peek_stack_back : LaiState V O I → Run (Option I)
  unfolding exec_peek_stack
  exec_peek_stack_back state = exec_peek_stack state 0

  unfoldable pub exec_peek_stack_at : LaiState V O I → Option ℕ → Run (Option I)
  unfolding peek_stack_at
  exec_peek_stack_at state n = peek_stack_at state.stack n

  unfoldable pub exec_pop_stack_back : LaiState V O I → Run (LaiState V O I)
  unfolding pop
  exec_pop_stack_back state = pop state.stack >>= λ s. ok (record state { stack = s })

  unfoldable pub exec_reserve_opstack :
      O → (room : Bool) → LaiState V O I → Run (ℕ × LaiState V O I)
  unfolding reserve
  exec_reserve_opstack junk room state =
      reserve junk room state.opstack >>= λ r. ok (r.0, record state { opstack = r.1 })

  unfoldable pub exec_reserve_opstack_n :
      O → (room : Bool) → LaiState V O I → ℕ → Run (ℕ × LaiState V O I)
  unfolding reserve_n
  exec_reserve_opstack_n junk room state n =
      reserve_n junk room state.opstack n >>= λ r. ok (r.0, record state { opstack = r.1 })

  -- `blank` is the operand of zeroes.
  unfoldable pub exec_push_opstack : O → LaiState V O I → Run (LaiState V O I)
  unfolding push
  exec_push_opstack blank state =
      push blank state.opstack >>= λ s. ok (record state { opstack = s })

  unfoldable pub exec_get_opstack : LaiState V O I → ℕ → Run O
  unfolding get_opstack
  exec_get_opstack state n = get_opstack state.opstack n

  -- With the objects that it finalizes.
  unfoldable pub exec_pop_opstack :
      (O → Option V) → LaiState V O I → ℕ → Run (List V × LaiState V O I)
  unfolding pop_opstack
  exec_pop_opstack object_of state n = pop_opstack state.opstack n >>= λ r.
      ok (objects object_of r.0, record state { opstack = r.1 })

  unfoldable pub exec_pop_opstack_back :
      (O → Option V) → LaiState V O I → Run (List V × LaiState V O I)
  unfolding exec_pop_opstack
  exec_pop_opstack_back object_of state = exec_pop_opstack object_of state 1
