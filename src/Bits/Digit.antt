-- ===== src/Bits/Digit.antt =====
-- One binary digit of a number, and the operations on it.
use native.Mathlib.Nat.{pow-suc, div-div-eq-div-mul, mod-eq-sub-div-mul, div-mul-le_self}
use mathlib.Core.WellFounded
use lai.Base.{
  lt_wf, ℕ, zero, suc, ◌+◌, ◌-◌, ◌*◌, ◌/◌, ◌%◌, ◌^◌, ◌≤◌, ◌<◌, bit_and, bit_or, bit_xor, min, max,
  ◌≡◌, refl, ap, arith,
}
use lai.Bits.Step.{bit_and-step, bit_or-step, bit_xor-step}

-- Digit `i` of `x`, the lowest first.
unfoldable pub bit : ℕ → ℕ → ℕ
bit x zero = x % 2
bit x (suc i) = bit (x / 2) i

bit-suc : (x i : ℕ) → bit x (suc i) ≡ bit (x / 2) i
unfolding bit
bit-suc x i = refl

pub bit-lt : (x i : ℕ) → bit x i < 2
unfolding bit
bit-lt x zero = omega arith
bit-lt x (suc i) = bit-lt (x / 2) i

pub bit-zero : (i : ℕ) → bit 0 i ≡ 0
unfolding bit
bit-zero zero = refl
bit-zero (suc i) = bit-zero i

pub bit-bit_or : (x y i : ℕ) → bit (bit_or x y) i ≡ max (bit x i) (bit y i)
unfolding bit
bit-bit_or x y zero = omega (arith, bit_or-step x y)
bit-bit_or x y (suc i) =
    let halves : bit_or x y / 2 ≡ bit_or (x / 2) (y / 2) = omega (arith, bit_or-step x y) in
    rw halves (bit-bit_or (x / 2) (y / 2) i)

pub bit-bit_and : (x y i : ℕ) → bit (bit_and x y) i ≡ min (bit x i) (bit y i)
unfolding bit
bit-bit_and x y zero = omega (arith, bit_and-step x y)
bit-bit_and x y (suc i) =
    let halves : bit_and x y / 2 ≡ bit_and (x / 2) (y / 2) = omega (arith, bit_and-step x y) in
    rw halves (bit-bit_and (x / 2) (y / 2) i)

pub bit-bit_xor : (x y i : ℕ) → bit (bit_xor x y) i ≡ (bit x i + bit y i) % 2
unfolding bit
bit-bit_xor x y zero = omega (arith, bit_xor-step x y)
bit-bit_xor x y (suc i) =
    let halves : bit_xor x y / 2 ≡ bit_xor (x / 2) (y / 2) = omega (arith, bit_xor-step x y) in
    rw halves (bit-bit_xor (x / 2) (y / 2) i)

-- The digits of `~x` in a pattern of `k` digits.
pub bit-not : (k x i : ℕ) → x < 2 ^ k → i < k → bit (2 ^ k - 1 - x) i ≡ 1 - bit x i
unfolding bit
bit-not zero x i p h = elim h [ ]
bit-not (suc k) x zero p h = omega (arith, pow-suc 2 k)
bit-not (suc k) x (suc i) p h =
    let halves : (2 ^ suc k - 1 - x) / 2 ≡ 2 ^ k - 1 - x / 2 = omega (arith, pow-suc 2 k) in
    rw halves (bit-not k (x / 2) i (omega (arith, pow-suc 2 k)) (omega arith))

-- Multiplication by `2 ^ suc k` doubles once more.
pub mul-two-pow : (x k : ℕ) → x * 2 ^ suc k ≡ 2 * (x * 2 ^ k)
mul-two-pow x k = omega (arith, ap (λ (t : ℕ). x * t) (pow-suc 2 k))

pub div-two-pow : (x k : ℕ) → x / 2 ^ suc k ≡ x / 2 / 2 ^ k
div-two-pow x k =
    rw (div-div-eq-div-mul x 2 (2 ^ k)) (ap (λ (t : ℕ). x / t) (omega (arith, pow-suc 2 k)))

pub bit-shl : (x k i : ℕ) → bit (x * 2 ^ k) (k + i) ≡ bit x i
bit-shl x zero i =
    let same : x * 2 ^ 0 ≡ x = omega arith in let at : 0 + i ≡ i = omega arith in rw (same, at)
bit-shl x (suc k) i =
    let halves : x * 2 ^ suc k / 2 ≡ x * 2 ^ k = omega (arith, mul-two-pow x k) in
    let next : suc k + i ≡ suc (k + i) = omega arith in rw (next, bit-suc, halves) (bit-shl x k i)

pub bit-shl_low : (x k i : ℕ) → i < k → bit (x * 2 ^ k) i ≡ 0
unfolding bit
bit-shl_low x zero i h = elim h [ ]
bit-shl_low x (suc k) zero h = omega (arith, mul-two-pow x k)
bit-shl_low x (suc k) (suc i) h =
    let halves : x * 2 ^ suc k / 2 ≡ x * 2 ^ k = omega (arith, mul-two-pow x k) in
    rw halves (bit-shl_low x k i (omega arith))

pub bit-shr : (x k i : ℕ) → bit (x / 2 ^ k) i ≡ bit x (k + i)
unfolding bit
bit-shr x zero i =
    let same : x / 2 ^ 0 ≡ x = omega arith in let at : 0 + i ≡ i = omega arith in rw (same, at)
bit-shr x (suc k) i =
    let next : suc k + i ≡ suc (k + i) = omega arith in
    rw (next, div-two-pow x k) (bit-shr (x / 2) k i)

-- The remainder by `2 ^ suc k`, by its lowest digit.
pub mod-two-pow : (x k : ℕ) → x % 2 ^ suc k ≡ 2 * (x / 2 % 2 ^ k) + x % 2
mod-two-pow x k =
    rw (mod-eq-sub-div-mul x (2 ^ suc k), div-two-pow x k, mul-two-pow (x / 2 / 2 ^ k) k)
      (omega (arith, mod-eq-sub-div-mul (x / 2) (2 ^ k), div-mul-le_self (x / 2) (2 ^ k)))

pub bit-mod : (x k i : ℕ) → i < k → bit (x % 2 ^ k) i ≡ bit x i
unfolding bit
bit-mod x zero i h = elim h [ ]
bit-mod x (suc k) zero h = omega (arith, mod-two-pow x k)
bit-mod x (suc k) (suc i) h =
    let halves : x % 2 ^ suc k / 2 ≡ x / 2 % 2 ^ k = omega (arith, mod-two-pow x k) in
    rw halves (bit-mod (x / 2) k i (omega arith))

-- A number below `2 ^ k` has no digit from `k` on.
pub bit-past : (x k i : ℕ) → x < 2 ^ k → k ≤ i → bit x i ≡ 0
unfolding bit
bit-past x zero i h le = let none_left : x ≡ 0 = omega arith in rw none_left (bit-zero i)
bit-past x (suc k) zero h le = absurd (omega arith)
bit-past x (suc k) (suc i) h le = bit-past (x / 2) k i (omega (arith, pow-suc 2 k)) (omega arith)

-- Two numbers below `2 ^ k` with the same digits are equal.
pub bit_ext : (k x y : ℕ) → x < 2 ^ k → y < 2 ^ k → ((i : ℕ) → i < k → bit x i ≡ bit y i) → x ≡ y
unfolding bit
bit_ext zero x y p q h = omega arith
bit_ext (suc k) x y p q h =
    let halves : x / 2 ≡ y / 2 =
      bit_ext k (x / 2) (y / 2) (omega (arith, pow-suc 2 k)) (omega (arith, pow-suc 2 k))
        (λ i lt. h (suc i) (omega arith)) in
    omega (arith, h 0 (omega arith))

pub bit_or-lt : (k x y : ℕ) → x < 2 ^ k → y < 2 ^ k → bit_or x y < 2 ^ k
bit_or-lt zero x y p q =
    let ex : x ≡ 0 = omega arith in let ey : y ≡ 0 = omega arith in rw (ex, ey) (omega arith)
bit_or-lt (suc k) x y p q = omega (
  arith,
  bit_or-step x y,
  pow-suc 2 k,
  bit_or-lt k (x / 2) (y / 2) (omega (arith, pow-suc 2 k)) (omega (arith, pow-suc 2 k)),
)

pub bit_xor-lt : (k x y : ℕ) → x < 2 ^ k → y < 2 ^ k → bit_xor x y < 2 ^ k
bit_xor-lt zero x y p q =
    let ex : x ≡ 0 = omega arith in let ey : y ≡ 0 = omega arith in rw (ex, ey) (omega arith)
bit_xor-lt (suc k) x y p q = omega (
  arith,
  bit_xor-step x y,
  pow-suc 2 k,
  bit_xor-lt k (x / 2) (y / 2) (omega (arith, pow-suc 2 k)) (omega (arith, pow-suc 2 k)),
)

and_zero_step : (t : ℕ) → ((m : ℕ) → m < t → bit_and m 0 ≡ 0) → bit_and t 0 ≡ 0
and_zero_step zero ih = refl
and_zero_step (suc t) ih = omega (arith, bit_and-step (suc t) 0, ih (suc t / 2) (omega arith))

pub bit_and-zero : (x : ℕ) → bit_and x 0 ≡ 0
bit_and-zero x = WellFounded.induction lt_wf {C = λ t. bit_and t 0 ≡ 0} x λ t ih. and_zero_step t ih

pub bit_and-le_right : (k x y : ℕ) → y < 2 ^ k → bit_and x y ≤ y
bit_and-le_right zero x y q = let ey : y ≡ 0 = omega arith in rw ey (omega (arith, bit_and-zero x))
bit_and-le_right (suc k) x y q =
    omega (arith, bit_and-step x y, bit_and-le_right k (x / 2) (y / 2) (omega (arith, pow-suc 2 k)))

or_zero_step : (t : ℕ) → ((m : ℕ) → m < t → bit_or m 0 ≡ m) → bit_or t 0 ≡ t
or_zero_step zero ih = refl
or_zero_step (suc t) ih = omega (arith, bit_or-step (suc t) 0, ih (suc t / 2) (omega arith))

pub bit_or-zero : (x : ℕ) → bit_or x 0 ≡ x
bit_or-zero x = WellFounded.induction lt_wf {C = λ t. bit_or t 0 ≡ t} x λ t ih. or_zero_step t ih
