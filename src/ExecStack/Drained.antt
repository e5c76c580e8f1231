-- ===== src/ExecStack/Drained.antt =====
-- core/exec.c: `lai_finalize_state` empties every stack and finalizes every variable once.
use mathlib.Core.List.{reverse, reverse-append}
use native.Mathlib.Decide.{dec_lt}
use lai.Base.{
  Option-cases, inl, inr, ℕ, zero, suc, ◌+◌, ◌-◌, ◌≤◌, ◌<◌, ◌≡◌, refl, sym, ap, ◌∙◌, lt→ltb, le→ltb,
  drop, Option, none, some, List, [], ◌∷◌, ◌++◌, length, take, get_or, read, read-eq-ok, Run, ok,
  ◌>>=◌, arith,
}
use lai.ExecStack.{Stack, capacity, pop, pop_loop, pop_opstack}
use lai.ExecStack.Items.{items}
use lai.ExecStack.Finalize.{
  Invocation, CtxItem, LaiState, read_vars, finalize_invocation, pop_ctxstack, drain_ctxstack,
  drain, objects, finalize_state,
}

module _ {ℓ} {A : Type ℓ} where
  take-suc :
      (n : ℕ) (xs : List A) (d : A)
      → n < length xs
      → take (suc n) xs ≡ take n xs ++ get_or xs n d ∷ []
  take-suc n [] d lt = absurd (omega (arith, lt))
  take-suc zero (x ∷ xs) d lt = refl
  take-suc (suc n) (x ∷ xs) d lt = ap (λ (r : List A). x ∷ r) (take-suc n xs d (omega (arith, lt)))

  -- The first items of an array, the last of them first.
  reverse-take :
      (n : ℕ) (xs : List A) (d : A)
      → n < length xs
      → reverse (take (suc n) xs) ≡ get_or xs n d ∷ reverse (take n xs)
  reverse-take n xs d lt =
      ap reverse (take-suc n xs d lt) ∙ reverse-append (take n xs) (get_or xs n d ∷ [])

  some_item : (n : ℕ) (xs : List A) → n < length xs → A
  some_item n [] lt = absurd (omega (arith, lt))
  some_item n (x ∷ xs) lt = x

  pop_loop-reverse :
      (s : Stack A) (left k : ℕ)
      → left + k ≡ s.ptr
      → s.ptr ≤ capacity s
      → pop_loop s left k ≡ ok (reverse (take left s.base))
  unfolding pop_loop
  pop_loop-reverse s zero k e le = refl
  pop_loop-reverse s (suc left) k e le =
      let lt : left < length s.base = omega (arith, e, le) in
      let d = some_item left s.base lt in
      let at : s.ptr - k - 1 ≡ left = omega (arith, e) in
      rw
        (
          lt→ltb k s.ptr (omega (arith, e)),
          at,
          read-eq-ok s.base left d lt,
          pop_loop-reverse s left (k + 1) (omega (arith, e)) le,
          reverse-take left s.base d lt,
        )
        refl

  pop_opstack-reverse :
      (s : Stack A)
      → s.ptr ≤ capacity s
      → (out : Stack A) × (pop_opstack s s.ptr ≡ ok (reverse (items s), out)) × (out.ptr ≡ 0)
  unfolding pop_opstack
  pop_opstack-reverse s le = (
    record s { ptr = s.ptr - s.ptr },
    rw (pop_loop-reverse s s.ptr 0 (omega arith) le) refl,
    omega arith,
  )

pop_some : {A : Type 0} (s : Stack A) → 0 < s.ptr → pop s ≡ ok (record s { ptr = s.ptr - 1 })
unfolding pop
pop_some s more = rw (lt→ltb 0 s.ptr more) refl

drain_more :
    {A : Type 0} (fuel : ℕ) (s : Stack A)
    → 0 < s.ptr
    → drain (suc fuel) s ≡ drain fuel (record s { ptr = s.ptr - 1 })
unfolding drain
drain_more fuel s more = rw (drain, lt→ltb 0 s.ptr more, pop_some s more) refl

drain-empty :
    {A : Type 0} (fuel : ℕ) (s : Stack A)
    → s.ptr < fuel
    → (out : Stack A) × (drain fuel s ≡ ok out) × (out.ptr ≡ 0)
unfolding drain
drain-empty zero s lt = absurd (omega (arith, lt))
drain-empty (suc fuel) s lt = elim (dec_lt 0 s.ptr) [
  | no none_left ↦
      (s, rw (drain, le→ltb 0 s.ptr (omega (arith, none_left))) refl, omega (arith, none_left))
  | yes more ↦
      let (out, run, done) =
        drain-empty fuel (record s { ptr = s.ptr - 1 }) (omega (arith, lt, more)) in
      (out, drain_more fuel s more ∙ run, done)
]

module _ {V : Type 0} where
  -- The variables of an item of the context stack.
  abbrev pub vars_of : CtxItem V → List V
  vars_of item = elim item.invocation [ none ↦ [] | some ivk ↦ ivk.arg ++ ivk.local ]

  abbrev pub all_vars : List (CtxItem V) → List V
  all_vars [] = []
  all_vars (item ∷ rest) = vars_of item ++ all_vars rest

  -- An invocation has 7 arguments and 8 locals.
  abbrev pub IsInvocation : Option (Invocation V) → Type 0
  IsInvocation none = Unit
  IsInvocation (some ivk) = (length ivk.arg ≡ 7) × (length ivk.local ≡ 8)

  abbrev pub IsCtxstack : Stack (CtxItem V) → Type 0
  IsCtxstack s =
      (s.ptr ≤ capacity s)
      × ((n : ℕ) (item : CtxItem V)
          → n < s.ptr
          → read s.base n ≡ ok item
          → IsInvocation item.invocation)

  drop-get :
      (i : ℕ) (xs : List V) (d : V) → i < length xs → drop i xs ≡ get_or xs i d ∷ drop (i + 1) xs
  drop-get i [] d lt = absurd (omega (arith, lt))
  drop-get zero (x ∷ xs) d lt = refl
  drop-get (suc i) (x ∷ xs) d lt =
      let next : suc i + 1 ≡ suc (i + 1) = omega arith in
      drop-get i xs d (omega (arith, lt))
      ∙ ap (λ (t : ℕ). get_or xs i d ∷ drop t (x ∷ xs)) (sym next)

  drop_past : (i : ℕ) (xs : List V) → i ≡ length xs → drop i xs ≡ []
  drop_past i [] e = rw e refl
  drop_past zero (x ∷ xs) e = absurd (omega (arith, e))
  drop_past (suc i) (x ∷ xs) e = drop_past i xs (omega (arith, e))

  read_vars-drop :
      (vars : List V) (left i : ℕ)
      → left + i ≡ length vars
      → read_vars vars left i ≡ ok (drop i vars)
  unfolding read_vars
  read_vars-drop vars zero i e =
      ap (λ (r : List V). ok r) (sym (drop_past i vars (omega (arith, e))))
  read_vars-drop vars (suc left) i e =
      let lt : i < length vars = omega (arith, e) in
      let d = some_item i vars lt in
      rw
        (
          read-eq-ok vars i d lt,
          read_vars-drop vars left (i + 1) (omega (arith, e)),
          drop-get i vars d lt,
        )
        refl

  finalize_invocation-vars :
      (item : CtxItem V) (ivk : Option (Invocation V))
      → IsInvocation ivk
      → finalize_invocation ivk ≡ ok (elim ivk [ none ↦ [] | some inv ↦ inv.arg ++ inv.local ])
  unfolding finalize_invocation
  finalize_invocation-vars item none w = refl
  finalize_invocation-vars item (some ivk) w =
      rw
        (
          read_vars-drop ivk.arg 7 0 (omega (arith, w)),
          read_vars-drop ivk.local 8 0 (omega (arith, w)),
        )
        refl

  pop_ctxstack_some :
      (s : Stack (CtxItem V)) (item : CtxItem V)
      → 0 < s.ptr
      → read s.base (s.ptr - 1) ≡ ok item
      → IsInvocation item.invocation
      → pop_ctxstack s ≡ ok (vars_of item, record s { ptr = s.ptr - 1 })
  unfolding pop_ctxstack
  pop_ctxstack_some s item more at w =
      rw (lt→ltb 0 s.ptr more, at, finalize_invocation-vars item item.invocation w) refl

  -- The items below the one on top.
  IsCtxstack-below :
      (s : Stack (CtxItem V)) → IsCtxstack s → IsCtxstack (record s { ptr = s.ptr - 1 })
  IsCtxstack-below s w = (omega (arith, w.0), λ n item lt at. w.1 n item (omega (arith, lt)) at)

  drain_ctxstack_more :
      (fuel : ℕ) (s : Stack (CtxItem V)) (vars : List V)
      → 0 < s.ptr
      → pop_ctxstack s ≡ ok (vars, record s { ptr = s.ptr - 1 })
      → drain_ctxstack (suc fuel) s
        ≡ (drain_ctxstack fuel (record s { ptr = s.ptr - 1 }) >>= λ r. ok (vars ++ r.0, r.1))
  unfolding drain_ctxstack
  drain_ctxstack_more fuel s vars more popped =
      rw (drain_ctxstack, lt→ltb 0 s.ptr more, popped) refl

  drain_ctxstack-vars :
      (fuel : ℕ) (s : Stack (CtxItem V))
      → s.ptr < fuel
      → IsCtxstack s
      → (out : Stack (CtxItem V)) × (drain_ctxstack fuel s ≡ ok (all_vars (reverse (items s)), out))
        × (out.ptr ≡ 0)
  unfolding drain_ctxstack
  drain_ctxstack-vars zero s lt w = absurd (omega (arith, lt))
  drain_ctxstack-vars (suc fuel) s lt w = elim (dec_lt 0 s.ptr) [
    | no none_left ↦
        let e : s.ptr ≡ 0 = omega (arith, none_left) in
        (
          s,
          rw (drain_ctxstack, le→ltb 0 s.ptr (omega (arith, none_left)))
              (ap (λ (t : ℕ). ok (all_vars (reverse (take t s.base)), s)) (sym e)),
          e,
        )
    | yes more ↦
        let n = s.ptr - 1 in
        let below : n < length s.base = omega (arith, more, w.0) in
        let d = some_item n s.base below in
        let item = get_or s.base n d in
        let at = read-eq-ok s.base n d below in
        let (out, run, done) =
          drain_ctxstack-vars fuel (record s { ptr = n }) (omega (arith, lt, more))
            (IsCtxstack-below s w) in
        let popped = pop_ctxstack_some s item more at (w.1 n item (omega (arith, more)) at) in
        let top : s.ptr ≡ suc n = omega (arith, more) in
        (
          out,
          drain_ctxstack_more fuel s (vars_of item) more popped
              ∙ ap
                  (λ (r : Run (List V × Stack (CtxItem V))).
                    r >>= λ r'. ok (vars_of item ++ r'.0, r'.1))
                  run
              ∙ ap (λ (r : List (CtxItem V)). ok (all_vars r, out))
                  (sym
                    (ap (λ (t : ℕ). reverse (take t s.base)) top ∙ reverse-take n s.base d below)),
          done,
        )
  ]

-- The stacks of a state.
abbrev pub IsState : {V O I : Type 0} → LaiState V O I → Type 0
IsState state = IsCtxstack state.ctxstack × (state.opstack.ptr ≤ capacity state.opstack)

module _ {V O : Type 0} (object_of : O → Option V) where
  -- The objects of a list of operands: one for each operand that is an object, in their order.
  pub data Released : List O → List V → Type 0 where
    released_all : Released [] []
    other_operand :
        (o : O) (os : List O) (vs : List V)
        → object_of o ≡ none
        → Released os vs
        → Released (o ∷ os) vs
    object_operand :
        (o : O) (v : V) (os : List O) (vs : List V)
        → object_of o ≡ some v
        → Released os vs
        → Released (o ∷ os) (v ∷ vs)

  objects-Released : (os : List O) → Released os (objects object_of os)
  objects-Released [] = released_all
  objects-Released (o ∷ os) = elim (Option-cases (object_of o)) [
    | inl e ↦ rw (objects, e) (other_operand o os (objects object_of os) e (objects-Released os))
    | inr (v, e) ↦
        rw (objects, e) (object_operand o v os (objects object_of os) e (objects-Released os))
  ]

module _ {V O I : Type 0} (object_of : O → Option V) where
  -- When the context stack and the operand stack are within their arrays and every invocation has
  -- 7 arguments and 8 locals, lai_finalize_state ends in no panic with four empty stacks, and has
  -- finalized the arguments and locals of every invocation, from the top of the context stack
  -- down, and then the object of every operand that is an object, from the top of the operand
  -- stack down, each once, and nothing else.
  pub finalize_state-vars :
      (state : LaiState V O I)
      → IsState state
      → (vars : List V) × (out : LaiState V O I) × Released object_of
          (reverse (items state.opstack))
          vars
        × (finalize_state object_of state
            ≡ ok (all_vars (reverse (items state.ctxstack)) ++ vars, out))
        × (out.ctxstack.ptr ≡ 0)
        × (out.blkstack.ptr ≡ 0)
        × (out.stack.ptr ≡ 0)
        × (out.opstack.ptr ≡ 0)
  unfolding finalize_state
  finalize_state-vars state (w, le) =
      let (ctx, run_ctx, ctx_done) =
        drain_ctxstack-vars (state.ctxstack.ptr + 1) state.ctxstack (omega arith) w in
      let (blk, run_blk, blk_done) =
        drain-empty (state.blkstack.ptr + 1) state.blkstack (omega arith) in
      let (stk, run_stk, stk_done) = drain-empty (state.stack.ptr + 1) state.stack (omega arith) in
      let (ops, run_ops, ops_done) = pop_opstack-reverse state.opstack le in
      (
        objects object_of (reverse (items state.opstack)),
        record { ctxstack = ctx; blkstack = blk; stack = stk; opstack = ops },
        objects-Released object_of (reverse (items state.opstack)),
        rw (run_ctx, run_blk, run_stk, run_ops) refl,
        ctx_done,
        blk_done,
        stk_done,
        ops_done,
      )
