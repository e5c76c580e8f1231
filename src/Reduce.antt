-- ===== src/Reduce.antt =====
-- core/exec.c: the arithmetic of `lai_exec_reduce_op`, on 64-bit integers. Division by zero and a
-- shift by 64 or more are undefined in C.
pub mod Values
pub mod FindSet
use lai.Base.{
  ℕ, zero, suc, ◌+◌, ◌-◌, ◌*◌, ◌/◌, ◌%◌, ◌^◌, bit_and, bit_or, bit_xor, Bool, true, false, not,
  ◌&&◌, ◌||◌, Option, none, some, List, [], ◌∷◌, ltb, ◌==◌, if◌then◌else◌, u64, shl, shr, not64,
  to_nat, Run, ok, panic, fault, ensure, ◌>>=◌, ◌>>◌, ApiError, execution_failure,
}

-- What an operand holds, as far as the arithmetic goes.
pub data Value : Type 0 where
  undefined other_object : Value
  integer : ℕ → Value

pub data Operand : Type 0 where
  object : Value → Operand
  reference : Operand

-- A reduction ends in an error code, or in a result (there may be none) after the stores to the
-- operands of these numbers, in order.
pub data Reduction : Type 0 where
  failed : ApiError → Reduction
  reduced : Option ℕ → List (ℕ × ℕ) → Reduction

-- `lai_exec_get_integer`, whose one error is `LAI_ERROR_EXECUTION_FAILURE`.
unfoldable pub get_integer : Operand → Run (Option ℕ)
get_integer reference = panic
get_integer (object undefined) = ok none
get_integer (object other_object) = panic
get_integer (object (integer n)) = ok (some n)

-- `LAI_TRY(lai_exec_get_integer(...))`, and what follows it.
unfoldable pub with_integer : Operand → (ℕ → Run Reduction) → Run Reduction
unfolding get_integer
with_integer operand next = get_integer operand >>= λ loaded. elim loaded [
  | none ↦ ok (failed execution_failure)
  | some n ↦ next n
]

pub data BinaryOp : Type 0 where
  add_op subtract_op mod_op multiply_op and_op or_op xor_op nand_op nor_op shl_op shr_op : BinaryOp

unfoldable pub eval_binary : BinaryOp → ℕ → ℕ → Run ℕ
eval_binary add_op lhs rhs = ok (u64 (lhs + rhs))
eval_binary subtract_op lhs rhs = ok (u64 (lhs + 2 ^ 64 - rhs))
eval_binary mod_op lhs rhs = if rhs == 0 then fault else ok (lhs % rhs)
eval_binary multiply_op lhs rhs = ok (u64 (lhs * rhs))
eval_binary and_op lhs rhs = ok (bit_and lhs rhs)
eval_binary or_op lhs rhs = ok (bit_or lhs rhs)
eval_binary xor_op lhs rhs = ok (bit_xor lhs rhs)
eval_binary nand_op lhs rhs = ok (not64 (bit_and lhs rhs))
eval_binary nor_op lhs rhs = ok (not64 (bit_or lhs rhs))
eval_binary shl_op lhs rhs = if ltb rhs 64 then ok (u64 (shl lhs rhs)) else fault
eval_binary shr_op lhs rhs = if ltb rhs 64 then ok (shr lhs rhs) else fault

-- The result goes to the third operand.
unfoldable pub reduce_binary : BinaryOp → Operand → Operand → Run Reduction
unfolding eval_binary with_integer
reduce_binary op a b =
    with_integer a λ lhs.
      with_integer b λ rhs. eval_binary op lhs rhs >>= λ r. ok (reduced (some r) ((2, r) ∷ []))

-- `DIVIDE_OP`: the remainder and the quotient are stored, and there is no result.
unfoldable pub reduce_divide : Operand → Operand → Run Reduction
unfolding with_integer
reduce_divide a b = with_integer a λ lhs.
    with_integer b
      λ rhs. if rhs == 0 then fault else ok (reduced none ((2, lhs % rhs) ∷ (3, lhs / rhs) ∷ []))

-- The loop of `FINDSETLEFTBIT_OP`.
unfoldable pub count_right_shifts : (fuel operand msb : ℕ) → Run ℕ
count_right_shifts zero operand msb = panic
count_right_shifts (suc fuel) operand msb = elim (operand == 0) [
  | true ↦ ok msb
  | false ↦ count_right_shifts fuel (shr operand 1) (msb + 1)
]

-- The loop of `FINDSETRIGHTBIT_OP`.
unfoldable pub count_left_shifts : (fuel operand lsb : ℕ) → Run ℕ
count_left_shifts zero operand lsb = panic
count_left_shifts (suc fuel) operand lsb = elim (operand == 0) [
  | true ↦ ok lsb
  | false ↦ count_left_shifts fuel (u64 (shl operand 1)) (lsb + 1)
]

unfoldable pub find_set_left_bit : ℕ → Run ℕ
unfolding count_right_shifts
find_set_left_bit operand = count_right_shifts 65 operand 0

unfoldable pub find_set_right_bit : ℕ → Run ℕ
unfolding count_left_shifts
find_set_right_bit operand =
    count_left_shifts 65 operand 0 >>= λ lsb. ok (if lsb == 0 then 0 else 65 - lsb)

-- The operators of one operand that store to the second one.
pub data UnaryOp : Type 0 where
  not_op find_set_left_op find_set_right_op : UnaryOp

unfoldable pub eval_unary : UnaryOp → ℕ → Run ℕ
unfolding find_set_left_bit find_set_right_bit
eval_unary not_op operand = ok (not64 operand)
eval_unary find_set_left_op operand = find_set_left_bit operand
eval_unary find_set_right_op operand = find_set_right_bit operand

unfoldable pub reduce_unary : UnaryOp → Operand → Run Reduction
unfolding eval_unary with_integer
reduce_unary op a =
    with_integer a λ operand. eval_unary op operand >>= λ r. ok (reduced (some r) ((1, r) ∷ []))

-- `INCREMENT_OP` and `DECREMENT_OP`, of the value that `lai_operand_load` has given.
unfoldable pub reduce_step : Bool → Value → Run Reduction
reduce_step up undefined = panic
reduce_step up other_object = panic
reduce_step up (integer n) =
    let r = (if up then u64 (n + 1) else u64 (n + 2 ^ 64 - 1)) in
    ok (reduced (some r) ((0, r) ∷ []))

-- `LNOT_OP`, `LAND_OP` and `LOR_OP`, which store nothing.
unfoldable pub reduce_lnot : Operand → Run Reduction
unfolding with_integer
reduce_lnot a = with_integer a λ operand. ok (reduced (some (to_nat (operand == 0))) [])

unfoldable pub reduce_logical : Bool → Operand → Operand → Run Reduction
unfolding with_integer
reduce_logical both a b = with_integer a λ lhs. with_integer b λ rhs.
    let l = not (lhs == 0) in
    let r = not (rhs == 0) in ok (reduced (some (to_nat (if both then l && r else l || r))) [])
