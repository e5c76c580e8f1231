-- ===== src/Bits/Mask.antt =====
-- Masks of low ones, and the fields that they cut out.
use native.Mathlib.Nat.{pow-suc, one-le-pow}
use lai.Base.{ℕ, zero, suc, ◌+◌, ◌-◌, ◌*◌, ◌/◌, ◌%◌, ◌^◌, ◌<◌, bit_and, bit_or, ◌≡◌, arith, shl}
use lai.Bits.Step.{bit_and-step, bit_or-step}
use lai.Bits.Digit.{
  mul-two-pow, mod-two-pow, bit_and-zero, bit_or-zero, bit_ext, bit_or-lt, bit-bit_or,
}

-- `(1 << k) - 1`.
abbrev pub ones : ℕ → ℕ
ones k = 2 ^ k - 1

-- Masking by `k` ones is the remainder by `2 ^ k`.
pub bit_and-ones : (k x : ℕ) → bit_and x (ones k) ≡ x % 2 ^ k
bit_and-ones zero x = rw (bit_and-zero x) (omega arith)
bit_and-ones (suc k) x =
    let halves : ones (suc k) / 2 ≡ ones k = omega (arith, pow-suc 2 k, one-le-pow k 2) in
    rw (bit_and-step x (ones (suc k)), halves, bit_and-ones k (x / 2))
      (omega (arith, mod-two-pow x k, pow-suc 2 k, one-le-pow k 2))

-- A field put over a free low part is a sum.
pub bit_or-shl : (k x y : ℕ) → y < 2 ^ k → bit_or (shl x k) y ≡ x * 2 ^ k + y
bit_or-shl zero x y h =
    let no_low : y ≡ 0 = omega arith in
    let same : x * 2 ^ 0 ≡ x = omega arith in rw (no_low, same) (omega (arith, bit_or-zero x))
bit_or-shl (suc k) x y h =
    let halves : x * 2 ^ suc k / 2 ≡ x * 2 ^ k = omega (arith, mul-two-pow x k) in
    rw (bit_or-step (x * 2 ^ suc k) y, halves, bit_or-shl k x (y / 2) (omega (arith, pow-suc 2 k)))
      (omega (arith, mul-two-pow x k))

pub bit_or_comm : (k x y : ℕ) → x < 2 ^ k → y < 2 ^ k → bit_or x y ≡ bit_or y x
bit_or_comm k x y p q =
    bit_ext k (bit_or x y) (bit_or y x) (bit_or-lt k x y p q) (bit_or-lt k y x q p)
      (λ i lt. omega (arith, bit-bit_or x y i, bit-bit_or y x i))
