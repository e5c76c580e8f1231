-- ===== src/Bits/Step.antt =====
-- `&`, `|` and `^` as recursions on the lowest digit, without the fuel of the native definition.
use Prim.Native.Nat.{digits, bitwise, differ, bit_and-bitwise, bit_or-bitwise, bit_xor-bitwise}
use lai.Base.{
  ℕ, zero, suc, ◌+◌, ◌*◌, ◌/◌, ◌%◌, ◌≤◌, bit_and, bit_or, bit_xor, min, max, ◌≡◌, refl, arith,
}

module _ (base : ℕ → ℕ) (op : ℕ → ℕ → ℕ) where
  digits-fuel : (n m x y : ℕ) → x ≤ n → x ≤ m → digits base op n x y ≡ digits base op m x y
  digits-fuel zero zero x y p q = refl
  digits-fuel zero (suc m) zero y p q = refl
  digits-fuel zero (suc m) (suc x) y p q = absurd (omega arith)
  digits-fuel (suc n) zero zero y p q = refl
  digits-fuel (suc n) zero (suc x) y p q = absurd (omega arith)
  digits-fuel (suc n) (suc m) zero y p q = refl
  digits-fuel (suc n) (suc m) (suc x) y p q =
      omega (arith, digits-fuel n m (suc x / 2) (y / 2) (omega arith) (omega arith))

  bitwise-suc :
      (x y : ℕ)
      → bitwise base op (suc x) y ≡ bitwise base op (suc x / 2) (y / 2) * 2 + op (suc x % 2) (y % 2)
  bitwise-suc x y =
      omega (arith, digits-fuel x (suc x / 2) (suc x / 2) (y / 2) (omega arith) (omega arith))

pub bit_and-step : (x y : ℕ) → bit_and x y ≡ bit_and (x / 2) (y / 2) * 2 + min (x % 2) (y % 2)
bit_and-step zero y = omega (arith, bit_and-bitwise 0 y, bit_and-bitwise 0 (y / 2))
bit_and-step (suc x) y = omega (
  arith,
  bit_and-bitwise (suc x) y,
  bit_and-bitwise (suc x / 2) (y / 2),
  bitwise-suc (λ _. 0) min x y,
)

pub bit_or-step : (x y : ℕ) → bit_or x y ≡ bit_or (x / 2) (y / 2) * 2 + max (x % 2) (y % 2)
bit_or-step zero y = omega (arith, bit_or-bitwise 0 y, bit_or-bitwise 0 (y / 2))
bit_or-step (suc x) y = omega (
  arith,
  bit_or-bitwise (suc x) y,
  bit_or-bitwise (suc x / 2) (y / 2),
  bitwise-suc (λ b. b) max x y,
)

differ_lem : (a b : ℕ) → a ≤ 1 → b ≤ 1 → differ a b ≡ (a + b) % 2
differ_lem zero b p q = omega arith
differ_lem (suc a) zero p q = omega arith
differ_lem (suc zero) (suc zero) p q = refl
differ_lem (suc zero) (suc (suc b)) p q = absurd (omega arith)
differ_lem (suc (suc a)) (suc b) p q = absurd (omega arith)

pub bit_xor-step : (x y : ℕ) → bit_xor x y ≡ bit_xor (x / 2) (y / 2) * 2 + (x % 2 + y % 2) % 2
bit_xor-step zero y = omega (arith, bit_xor-bitwise 0 y, bit_xor-bitwise 0 (y / 2))
bit_xor-step (suc x) y = omega (
  arith,
  differ_lem (suc x % 2) (y % 2) (omega arith) (omega arith),
  bit_xor-bitwise (suc x) y,
  bit_xor-bitwise (suc x / 2) (y / 2),
  bitwise-suc (λ b. b) differ x y,
)
