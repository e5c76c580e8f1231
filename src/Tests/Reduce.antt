-- ===== src/Tests/Reduce.antt =====
-- Tests of the arithmetic of core/exec.c.
use lai.Base.{ℕ, ◌<◌, ◌≡◌, ◌^◌, some, [], ◌∷◌, arith, ok}
use lai.Reduce.{
  BinaryOp, reduce_binary, object, integer, reduced, find_set_left_bit, find_set_right_bit,
}
use lai.Reduce.Values.{Value, reduce_binary-Value}
use lai.Reduce.FindSet.{Highest, LowestBit, find_set_left_bit-Highest, find_set_right_bit-LowestBit}

reduce_binary_example :
    (r : ℕ) × (reduce_binary BinaryOp.shl_op (object (integer 0xFFFF)) (object (integer 60))
      ≡ ok (reduced (some r) ((2, r) ∷ [])))
    × (r < 2 ^ 64)
    × Value BinaryOp.shl_op 0xFFFF 60 r
reduce_binary_example =
    reduce_binary-Value BinaryOp.shl_op 0xFFFF 60 (omega arith) (omega arith) (omega arith)

find_set_left_example : (k : ℕ) × (find_set_left_bit 0x58 ≡ ok k) × Highest 0x58 k
find_set_left_example = find_set_left_bit-Highest 0x58 (omega arith)

find_set_right_example : (r : ℕ) × (find_set_right_bit 0x58 ≡ ok r) × LowestBit 0x58 r
find_set_right_example = find_set_right_bit-LowestBit 0x58 (omega arith)
