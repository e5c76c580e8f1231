-- ===== src/Bits/Align.antt =====
-- Rounding down to a multiple of a power of 2 with a mask.
use native.Mathlib.Nat.{pow-suc, one-le-pow, mul_assoc, div-mul-le_self, mul-lt-mul_of_pos_right}
use native.Mathlib.Decide.{dec_lt}
use lai.Base.{
  ℕ, zero, suc, ◌+◌, ◌-◌, ◌*◌, ◌/◌, ◌^◌, ◌<◌, ◌≡◌, sym, ap, ◌∙◌, min, bit_and, shl, arith,
}
use lai.Bits.Digit.{
  bit, bit-lt, bit-bit_and, bit-shl, bit-shl_low, bit-shr, bit_ext, bit_and-le_right,
}
use lai.Bits.Mask.{ones}

pub two-pow_add : (a b : ℕ) → 2 ^ (a + b) ≡ 2 ^ a * 2 ^ b
two-pow_add zero b = let same : 0 + b ≡ b = omega arith in rw same (omega arith)
two-pow_add (suc a) b =
    let next : suc a + b ≡ suc (a + b) = omega arith in
    rw (next, pow-suc 2 (a + b), pow-suc 2 a, two-pow_add a b)
      (omega (arith, mul_assoc 2 (2 ^ a) (2 ^ b)))

pub bit-ones : (m j : ℕ) → j < m → bit (ones m) j ≡ 1
unfolding bit
bit-ones zero j lt = absurd (omega arith)
bit-ones (suc m) zero lt = omega (arith, pow-suc 2 m, one-le-pow m 2)
bit-ones (suc m) (suc j) lt =
    let halves : ones (suc m) / 2 ≡ ones m = omega (arith, pow-suc 2 m, one-le-pow m 2) in
    rw halves (bit-ones m j (omega arith))

-- The digits of both sides of `bit_and-align`.
align_digit :
    (k m x i : ℕ) → i < k + m → bit (bit_and x (shl (ones m) k)) i ≡ bit (shl (x / 2 ^ k) k) i
align_digit k m x i lt = elim (dec_lt i k) [
  | yes low ↦
      bit-bit_and x (shl (ones m) k) i
      ∙ ap (min (bit x i)) (bit-shl_low (ones m) k i low)
      ∙ (omega arith)
      ∙ sym (bit-shl_low (x / 2 ^ k) k i low)
  | no high ↦
      let at : i ≡ k + (i - k) = omega arith in
      bit-bit_and x (shl (ones m) k) i
      ∙ ap (min (bit x i)) (
          ap (bit (shl (ones m) k)) at
          ∙ bit-shl (ones m) k (i - k)
          ∙ bit-ones m (i - k) (omega arith))
      ∙ (omega (arith, bit-lt x i))
      ∙ ap (bit x) at
      ∙ sym (ap (bit (shl (x / 2 ^ k) k)) at ∙ bit-shl (x / 2 ^ k) k (i - k) ∙ bit-shr x k (i - k))
]

-- Masking by ones above the lowest `k` digits rounds down.
pub bit_and-align : (k m x : ℕ) → x < 2 ^ (k + m) → bit_and x (shl (ones m) k) ≡ x / 2 ^ k * 2 ^ k
bit_and-align k m x lt =
    let small : shl (ones m) k < 2 ^ (k + m) =
      (let below : ones m < 2 ^ m = omega (arith, one-le-pow m 2) in
        let swap : k + m ≡ m + k = omega arith in
        rw (swap, two-pow_add m k)
          (mul-lt-mul_of_pos_right below (omega (arith, one-le-pow k 2)))) in
    bit_ext (k + m) _ _ (omega (arith, bit_and-le_right (k + m) x (shl (ones m) k) small, small))
      (omega (arith, div-mul-le_self x (2 ^ k))) (align_digit k m x)
