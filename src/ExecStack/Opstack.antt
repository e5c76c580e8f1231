-- ===== src/ExecStack/Opstack.antt =====
-- core/exec_impl.h: `lai_exec_reserve_opstack_n`, which reserves one slot whatever it is asked for.
use lai.Base.{
  Run, ok, ℕ, zero, suc, ◌+◌, ◌<◌, ◌≡◌, inl, inr, refl, ap, ◌∙◌, Bool, length, set, length-set,
  panic, ◌>>=◌, lt→ltb, le→ltb, ==_ne, arith,
}
use lai.ExecStack.{Stack, capacity, reserve, reserve_n, push}
use lai.ExecStack.Items.{IsStack, reserve-Reserved}

module _ {ℓ} {A : Type ℓ} (blank : A) where
  -- With a free slot nothing is reserved.
  reserve_free : (room : Bool) (s : Stack A) → s.ptr < capacity s → reserve blank room s ≡ ok (0, s)
  unfolding reserve
  reserve_free room s lt = rw (==_ne s.ptr (capacity s) (λ e. omega (arith, e, lt))) refl

  reserve_n_free :
      (room : Bool) (s : Stack A) (n : ℕ)
      → s.ptr < capacity s
      → reserve_n blank room s n ≡ ok (0, s)
  unfolding reserve_n
  reserve_n_free room s zero lt = refl
  reserve_n_free room s (suc n) lt =
      rw (reserve_n, reserve_free room s lt, ◌>>=◌) (reserve_n_free room s n lt)

  -- The loop after its first call.
  first_call :
      (room : Bool) (n : ℕ) (r : ℕ × Stack A)
      → (r.0 ≡ 0 → reserve_n blank room r.1 n ≡ ok (0, r.1))
      → (elim r.0 [ zero ↦ reserve_n blank room r.1 n | suc e ↦ ok (suc e, r.1) ]) ≡ ok r
  first_call room n (zero, s') more = more refl
  first_call room n (suc e, s') more = refl

  -- One free slot is not enough for two items.
  push-push : (s : Stack A) → s.ptr + 1 ≡ capacity s → (push blank s >>= push blank) ≡ panic
  unfolding push
  push-push s one_left =
      rw
        (
          lt→ltb s.ptr (capacity s) (omega (arith, one_left)),
          le→ltb (s.ptr + 1) (length (set s.base s.ptr blank))
              (omega (arith, length-set s.base s.ptr blank, one_left)),
        )
        refl

  -- For any n above 0, lai_exec_reserve_opstack_n does what a single lai_exec_reserve_opstack
  -- does: when one slot is left, two pushes after it end in a panic.
  pub reserve_n-reserve :
      (room : Bool) (s : Stack A) (n : ℕ)
      → IsStack s
      → (reserve_n blank room s (suc n) ≡ reserve blank room s)
        × (s.ptr + 1 ≡ capacity s
            → (reserve_n blank room s (suc n) >>= λ r. push blank r.1 >>= push blank) ≡ panic)
  unfolding reserve_n
  reserve_n-reserve room s n v = (
    elim (reserve-Reserved blank room s v) [
      | inl (fails, large, full) ↦ rw (reserve_n, fails) refl
      | inr (r, run, inl (zero_, st, same, at, lt, grown)) ↦
          rw (reserve_n, run, ◌>>=◌)
            (first_call room n r (λ z. reserve_n_free room r.1 n (omega (arith, at, lt))))
      | inr (r, run, inr (one, same, full, refused)) ↦
          rw (reserve_n, run, ◌>>=◌) (first_call room n r (λ z. absurd (omega (arith, one, z))))
    ],
    λ one_left.
        ap (λ (r : Run (ℕ × Stack A)). r >>= λ t. push blank t.1 >>= push blank)
          (reserve_n_free room s (suc n) (omega (arith, one_left)))
        ∙ push-push s one_left,
  )
