-- ===== src/ExecStack/Finalize.antt =====
-- core/exec.c: `lai_init_state` and `lai_finalize_state`; core/exec_impl.h:
-- `lai_exec_pop_ctxstack_back`.
use lai.Base.{
  ℕ, zero, suc, ◌+◌, ◌-◌, true, false, ltb, Option, none, some, List, [], ◌∷◌, ◌++◌, replicate,
  read, Run, ok, panic, ensure, ◌>>=◌, ◌>>◌,
}
use lai.ExecStack.{Stack, pop, pop_opstack}

-- `struct lai_invocation`
pub record Invocation (V : Type 0) : Type 0 where
  pub arg : List V
  pub local : List V

-- `struct lai_ctxitem`
pub record CtxItem (V : Type 0) : Type 0 where
  pub amls : ℕ
  pub code : List ℕ
  pub handle : Option ℕ
  pub invocation : Option (Invocation V)

-- `struct lai_blkitem`
pub record BlkItem : Type 0 where
  pub pc : ℕ
  pub limit : ℕ

-- `lai_state_t`, over the variables, the operands and the items of the execution stack.
pub record LaiState (V O I : Type 0) : Type 0 where
  pub ctxstack : Stack (CtxItem V)
  pub blkstack : Stack BlkItem
  pub stack : Stack I
  pub opstack : Stack O

-- `lai_init_state`, with the zeroes of `memset`.
unfoldable pub init_state : {V O I : Type 0} → O → I → LaiState V O I
init_state operand item = record {
  ctxstack = record {
    base = replicate 8 (record { amls = 0; code = []; handle = none; invocation = none });
    ptr = 0;
  };
  blkstack = record { base = replicate 8 (record { pc = 0; limit = 0 }); ptr = 0 };
  stack = record { base = replicate 16 item; ptr = 0 };
  opstack = record { base = replicate 16 operand; ptr = 0 };
}

module _ {V : Type 0} where
  -- The variables `vars[i]` and so on, `left` of them.
  unfoldable pub read_vars : List V → (left i : ℕ) → Run (List V)
  read_vars vars zero i = ok []
  read_vars vars (suc left) i =
      read vars i >>= λ v. read_vars vars left (i + 1) >>= λ rest. ok (v ∷ rest)

  -- The variables of an invocation that are finalized.
  unfoldable pub finalize_invocation : Option (Invocation V) → Run (List V)
  unfolding read_vars
  finalize_invocation none = ok []
  finalize_invocation (some ivk) =
      read_vars ivk.arg 7 0 >>= λ args. read_vars ivk.local 8 0 >>= λ locals. ok (args ++ locals)

  -- `lai_exec_pop_ctxstack_back`, with the variables that it finalizes.
  unfoldable pub pop_ctxstack : Stack (CtxItem V) → Run (List V × Stack (CtxItem V))
  unfolding finalize_invocation
  pop_ctxstack s =
      (ensure (ltb 0 s.ptr)
        >> (read s.base (s.ptr - 1) >>= λ ctxitem.
            finalize_invocation ctxitem.invocation >>= λ vars.
            ok (vars, record s { ptr = s.ptr - 1 })))

  -- The loops of `lai_finalize_state`.
  unfoldable pub drain_ctxstack : ℕ → Stack (CtxItem V) → Run (List V × Stack (CtxItem V))
  unfolding pop_ctxstack
  drain_ctxstack zero s = panic
  drain_ctxstack (suc fuel) s = elim (ltb 0 s.ptr) [
    | false ↦ ok ([], s)
    | true ↦ pop_ctxstack s >>= λ r. drain_ctxstack fuel r.1 >>= λ r'. ok (r.0 ++ r'.0, r'.1)
  ]

unfoldable pub drain : {A : Type 0} → ℕ → Stack A → Run (Stack A)
unfolding pop
drain zero s = panic
drain (suc fuel) s = elim (ltb 0 s.ptr) [ false ↦ ok s | true ↦ pop s >>= λ s'. drain fuel s' ]

-- The objects among the operands.
abbrev pub objects : {V O : Type 0} → (O → Option V) → List O → List V
objects object_of [] = []
objects object_of (o ∷ os) = elim (object_of o) [
  | none ↦ objects object_of os
  | some v ↦ v ∷ objects object_of os
]

module _ {V O I : Type 0} (object_of : O → Option V) where
  -- `lai_finalize_state`, with the variables that it finalizes, in their order; `object_of` is the
  -- object of an operand with the tag `LAI_OPERAND_OBJECT`.
  unfoldable pub finalize_state : LaiState V O I → Run (List V × LaiState V O I)
  unfolding drain_ctxstack drain pop_opstack
  finalize_state state = do
    ctx ← drain_ctxstack (state.ctxstack.ptr + 1) state.ctxstack
    blk ← drain (state.blkstack.ptr + 1) state.blkstack
    stk ← drain (state.stack.ptr + 1) state.stack
    ops ← pop_opstack state.opstack state.opstack.ptr
    ok (
      ctx.0 ++ objects object_of ops.0,
      record { ctxstack = ctx.1; blkstack = blk; stack = stk; opstack = ops.1 },
    )
