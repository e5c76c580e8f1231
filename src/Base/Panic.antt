-- ===== src/Base/Panic.antt =====
-- What a function of lai does: it returns, or it ends in `lai_panic` (a failed `LAI_ENSURE`
-- included), from which no caller recovers, or in a fault: an access outside an array, which C
-- leaves undefined. And the codes of `lai_api_error_t`.
use Prim.Native.Nat.{ℕ, zero, suc, ◌+◌, ◌<◌}
use mathlib.Core.List.{List, [], ◌∷◌, ◌++◌}
use lai.Base.Lists.{length, get_or}
use mathlib.Core.Bool.{Bool, true, false}
use mathlib.Core.Path.{◌≡◌, refl}
use native.Mathlib.Omega.{arith}

pub data Run {ℓ} (A : Type ℓ) : Type ℓ where
  ok : A → Run A
  panic fault : Run A

-- What follows a call happens if the call returns.
abbrev pub ◌>>=◌ {ℓ ℓ'} : {S : Type ℓ} {T : Type ℓ'} → Run S → (S → Run T) → Run T
panic >>= next = panic
fault >>= next = fault
ok s >>= next = next s

abbrev pub ◌>>◌ {ℓ} : {T : Type ℓ} → Run (Unit {0}) → Run T → Run T
check >> rest = check >>= λ _. rest

infixl 5 ◌>>◌ ◌>>=◌
-- `LAI_ENSURE(cond)`.
abbrev pub ensure : Bool → Run (Unit {0})
ensure true = ok tt
ensure false = panic

-- A read of an array, out of whose range C faults.
abbrev pub read {ℓ} : {A : Type ℓ} → List A → ℕ → Run A
read [] i = fault
read (x ∷ xs) zero = ok x
read (x ∷ xs) (suc i) = read xs i

pub read-eq-ok {ℓ} :
    {A : Type ℓ} (xs : List A) (i : ℕ) (d : A) → i < length xs → read xs i ≡ ok (get_or xs i d)
read-eq-ok [] i d h = elim h [ ]
read-eq-ok (x ∷ xs) zero d h = refl
read-eq-ok (x ∷ xs) (suc i) d h = read-eq-ok xs i d (omega arith)

pub read-append {ℓ} :
    {A : Type ℓ} (pre xs : List A) (i : ℕ) → read (pre ++ xs) (length pre + i) ≡ read xs i
read-append [] xs i = let same : 0 + i ≡ i = omega arith in rw same refl
read-append (x ∷ pre) xs i =
    let next : suc (length pre) + i ≡ suc (length pre + i) = omega arith in
    rw next (read-append pre xs i)

-- `lai_api_error_t`.
pub data ApiError : Type 0 where
  no_error out_of_memory type_mismatch no_such_node out_of_bounds execution_failure : ApiError
  illegal_arguments unexpected_result end_reached unsupported : ApiError
