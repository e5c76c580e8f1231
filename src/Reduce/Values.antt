-- ===== src/Reduce/Values.antt =====
-- core/exec.c: what the binary operators compute.
use native.Mathlib.Nat.{mod-le, mod-lt, div-le_self, mod-eq-sub-div-mul, div-mul-le_self}
use lai.Base.{
  ℕ, min, max, ◌/◌, ◌∙◌, ◌+◌, ◌-◌, ◌*◌, ◌%◌, ◌^◌, ◌<◌, ◌≡◌, ◌≢◌, refl, ap, bit_and, bit_or, bit_xor,
  some, [], ◌∷◌, lt→ltb, ==_ne, u64, shl, shr, not64, ok, arith,
}
use lai.Bits.{
  bit, bit_or-lt, bit_xor-lt, bit_and-le_right, bit-bit_and, bit-bit_or, bit-bit_xor, bit-not,
  bit-mod, bit-shl, bit-shl_low, bit-shr,
}
use lai.Reduce.{
  BinaryOp, eval_binary, reduce_binary, with_integer, get_integer, object, integer, reduced,
}

-- Where C defines the operator.
abbrev pub Defined : BinaryOp → ℕ → Type 0
Defined BinaryOp.mod_op rhs = rhs ≢ 0
Defined BinaryOp.shl_op rhs = rhs < 64
Defined BinaryOp.shr_op rhs = rhs < 64
Defined _ rhs = Unit

-- Every digit of `r` is the one that `digit` gives for those of the operands.
abbrev pub Digits : (digit : ℕ → ℕ → ℕ) → (lhs rhs r : ℕ) → Type 0
Digits digit lhs rhs r = (i : ℕ) → i < 64 → bit r i ≡ digit (bit lhs i) (bit rhs i)

-- What an operator computes: arithmetic modulo `2 ^ 64`, the remainder of a division, the digits of
-- the operands one by one, or the digits of the left operand at other places.
abbrev pub Value : BinaryOp → (lhs rhs r : ℕ) → Type 0
Value BinaryOp.add_op lhs rhs r = r ≡ (lhs + rhs) % 2 ^ 64
Value BinaryOp.subtract_op lhs rhs r = (r + rhs) % 2 ^ 64 ≡ lhs
Value BinaryOp.mod_op lhs rhs r = (r < rhs) × ((q : ℕ) × (q * rhs + r ≡ lhs))
Value BinaryOp.multiply_op lhs rhs r = r ≡ lhs * rhs % 2 ^ 64
Value BinaryOp.and_op lhs rhs r = Digits min lhs rhs r
Value BinaryOp.or_op lhs rhs r = Digits max lhs rhs r
Value BinaryOp.xor_op lhs rhs r = Digits (λ a b. (a + b) % 2) lhs rhs r
Value BinaryOp.nand_op lhs rhs r = Digits (λ a b. 1 - min a b) lhs rhs r
Value BinaryOp.nor_op lhs rhs r = Digits (λ a b. 1 - max a b) lhs rhs r
Value BinaryOp.shl_op lhs rhs r =
    ((i : ℕ) → i < rhs → bit r i ≡ 0) × ((i : ℕ) → rhs + i < 64 → bit r (rhs + i) ≡ bit lhs i)
Value BinaryOp.shr_op lhs rhs r = (i : ℕ) → bit r i ≡ bit lhs (rhs + i)

-- A division: the quotient times the divisor, and the remainder.
divided : (a b : ℕ) → a / b * b + a % b ≡ a
divided a b = omega (arith, mod-eq-sub-div-mul a b, div-mul-le_self a b)

eval_binary-Value :
    (op : BinaryOp) (lhs rhs : ℕ)
    → lhs < 2 ^ 64
    → rhs < 2 ^ 64
    → Defined op rhs
    → (r : ℕ) × (eval_binary op lhs rhs ≡ ok r) × (r < 2 ^ 64) × Value op lhs rhs r
unfolding eval_binary
eval_binary-Value BinaryOp.add_op lhs rhs p q d = (u64 (lhs + rhs), refl, omega arith, refl)
eval_binary-Value BinaryOp.subtract_op lhs rhs p q d =
    (u64 (lhs + 2 ^ 64 - rhs), refl, omega arith, omega arith)
eval_binary-Value BinaryOp.mod_op lhs rhs p q d = (
  lhs % rhs,
  rw (==_ne rhs 0 d) refl,
  omega (arith, mod-le lhs rhs),
  (mod-lt lhs (omega (arith, d)), (lhs / rhs, divided lhs rhs)),
)
eval_binary-Value BinaryOp.multiply_op lhs rhs p q d = (u64 (lhs * rhs), refl, omega arith, refl)
eval_binary-Value BinaryOp.and_op lhs rhs p q d = (
  bit_and lhs rhs,
  refl,
  omega (arith, bit_and-le_right 64 lhs rhs q),
  λ i lt. bit-bit_and lhs rhs i,
)
eval_binary-Value BinaryOp.or_op lhs rhs p q d =
    (bit_or lhs rhs, refl, bit_or-lt 64 lhs rhs p q, λ i lt. bit-bit_or lhs rhs i)
eval_binary-Value BinaryOp.xor_op lhs rhs p q d =
    (bit_xor lhs rhs, refl, bit_xor-lt 64 lhs rhs p q, λ i lt. bit-bit_xor lhs rhs i)
eval_binary-Value BinaryOp.nand_op lhs rhs p q d = (
  not64 (bit_and lhs rhs),
  refl,
  omega arith,
  λ i lt.
      bit-not 64 (bit_and lhs rhs) i (omega (arith, bit_and-le_right 64 lhs rhs q)) lt
      ∙ ap (λ (t : ℕ). 1 - t) (bit-bit_and lhs rhs i),
)
eval_binary-Value BinaryOp.nor_op lhs rhs p q d = (
  not64 (bit_or lhs rhs),
  refl,
  omega arith,
  λ i lt.
      bit-not 64 (bit_or lhs rhs) i (bit_or-lt 64 lhs rhs p q) lt
      ∙ ap (λ (t : ℕ). 1 - t) (bit-bit_or lhs rhs i),
)
eval_binary-Value BinaryOp.shl_op lhs rhs p q d = (
  u64 (shl lhs rhs),
  rw (lt→ltb rhs 64 d) refl,
  omega arith,
  (
    (λ i lt. bit-mod (shl lhs rhs) 64 i (omega (arith, lt, d)) ∙ bit-shl_low lhs rhs i lt),
    λ i lt. bit-mod (shl lhs rhs) 64 (rhs + i) lt ∙ bit-shl lhs rhs i,
  ),
)
eval_binary-Value BinaryOp.shr_op lhs rhs p q d = (
  shr lhs rhs,
  rw (lt→ltb rhs 64 d) refl,
  omega (arith, div-le_self lhs (2 ^ rhs)),
  λ i. bit-shr lhs rhs i,
)

-- For two operands that are 64-bit integers, and where C defines the operator (a divisor that is
-- not 0, a shift of less than 64), each of the eleven binary operators of lai_exec_reduce_op
-- stores its result to the third operand and returns it. The result is a 64-bit integer: the sum
-- or the product modulo 2^64, the integer that gives the left operand when the right one is added
-- modulo 2^64, the remainder of the division, the and, or, xor, nand or nor of the operands digit
-- by digit, or the digits of the left operand moved up (with zeroes below) or down.
pub reduce_binary-Value :
    (op : BinaryOp) (lhs rhs : ℕ)
    → lhs < 2 ^ 64
    → rhs < 2 ^ 64
    → Defined op rhs
    → (r : ℕ) × (reduce_binary op (object (integer lhs)) (object (integer rhs))
        ≡ ok (reduced (some r) ((2, r) ∷ [])))
      × (r < 2 ^ 64)
      × Value op lhs rhs r
unfolding reduce_binary with_integer get_integer
reduce_binary-Value op lhs rhs p q d =
    let (r, run, bound, means) = eval_binary-Value op lhs rhs p q d in
    (r, rw (reduce_binary, run) refl, bound, means)
