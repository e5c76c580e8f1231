-- ===== src/ExecStack.antt =====
-- core/exec_impl.h, core/exec.c: the stacks of the interpreter and `lai_state_t`. The pointer of a
-- stack counts its items: it is `opstack_ptr`, and one more than `ctxstack_ptr`, `blkstack_ptr` and
-- `stack_ptr`, which are the indices of the last items.
pub mod Items
pub mod Opstack
pub mod Finalize
pub mod State
pub mod Drained
use lai.Base.{
  ℕ, zero, suc, ◌+◌, ◌-◌, ◌*◌, ◌^◌, ◌<◌, Bool, true, false, ◌==◌, ltb, leb, if◌then◌else◌, Option,
  none, some, List, [], ◌∷◌, ◌++◌, length, take, set, replicate, Run, ok, panic, fault, ensure,
  read, ◌>>=◌, ◌>>◌,
}

pub record Stack {ℓ} (A : Type ℓ) : Type ℓ where
  pub base : List A
  pub ptr : ℕ

module _ {ℓ} {A : Type ℓ} where
  -- The capacity is the length of the array.
  abbrev pub capacity : Stack A → ℕ
  capacity s = length s.base

  module _ (blank : A) where
    -- `lai_exec_reserve_ctxstack` and its fellows; `room` says whether the allocation succeeds, and
    -- `blank` stands for what new memory holds. The capacity is an int, and to double it past the
    -- int is a fault.
    unfoldable pub reserve : (room : Bool) → Stack A → Run (ℕ × Stack A)
    reserve room s =
        if s.ptr == capacity s
        then (if ltb (2 * capacity s) (2 ^ 31)
            then (if room
                then ok (
                  0,
                  record s { base = take s.ptr s.base ++ replicate (2 * capacity s - s.ptr) blank },
                )
                else ok (1, s))
            else fault)
        else ok (0, s)

    -- `lai_exec_reserve_opstack_n`: the loop.
    unfoldable pub reserve_n : (room : Bool) → Stack A → (n : ℕ) → Run (ℕ × Stack A)
    reserve_n room s zero = ok (0, s)
    reserve_n room s (suc n) =
        reserve room s >>= λ r. elim r.0 [ zero ↦ reserve_n room r.1 n | suc e ↦ ok (suc e, r.1) ]

    -- `lai_exec_push_ctxstack`, `lai_exec_push_blkstack` and `lai_exec_push_opstack`: the new item is
    -- cleared.
    unfoldable pub push : Stack A → Run (Stack A)
    push s =
        (ensure (ltb s.ptr (capacity s))
          >> ok (record { base = set s.base s.ptr blank; ptr = s.ptr + 1 }))

  -- `lai_exec_push_stack`: the new item is what the array holds.
  unfoldable pub push_stack : Stack A → Run (Stack A)
  push_stack s = (ensure (ltb s.ptr (capacity s)) >> ok (record s { ptr = s.ptr + 1 }))

  -- The write of an item through the pointer that the functions return.
  unfoldable pub fill : Stack A → A → Stack A
  fill s v = record s { base = set s.base (s.ptr - 1) v }

  -- `lai_exec_pop_blkstack_back` and `lai_exec_pop_stack_back`.
  unfoldable pub pop : Stack A → Run (Stack A)
  pop s = (ensure (ltb 0 s.ptr) >> ok (record s { ptr = s.ptr - 1 }))

  -- `lai_exec_peek_stack`; with 0 also `lai_exec_peek_ctxstack_back`, `lai_exec_peek_blkstack_back`
  -- and `lai_exec_peek_stack_back`.
  unfoldable pub peek : Stack A → ℕ → Run (Option A)
  peek s n =
      if leb s.ptr n then ok none else (read s.base (s.ptr - 1 - n) >>= λ item. ok (some item))

  -- `lai_exec_peek_stack_at`; a negative index is `none`.
  unfoldable pub peek_stack_at : Stack A → Option ℕ → Run (Option A)
  peek_stack_at s none = ok none
  peek_stack_at s (some n) = read s.base n >>= λ item. ok (some item)

  -- `lai_exec_get_opstack`
  unfoldable pub get_opstack : Stack A → ℕ → Run A
  get_opstack s n = (ensure (ltb n s.ptr) >> read s.base n)

  -- The loop of `lai_exec_pop_opstack` at `k`, with the operands that it looks at.
  unfoldable pub pop_loop : Stack A → (left k : ℕ) → Run (List A)
  pop_loop s zero k = ok []
  pop_loop s (suc left) k =
      if ltb k s.ptr
      then (read s.base (s.ptr - k - 1) >>= λ operand.
          pop_loop s left (k + 1) >>= λ rest. ok (operand ∷ rest))
      else fault

  -- `lai_exec_pop_opstack`: the operands to finalize and the stack.
  unfoldable pub pop_opstack : Stack A → ℕ → Run (List A × Stack A)
  unfolding pop_loop
  pop_opstack s n = pop_loop s n 0 >>= λ operands. ok (operands, record s { ptr = s.ptr - n })
