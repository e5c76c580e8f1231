-- ===== src/Ec/Polls.antt =====
-- drivers/ec.c: the loops over the status, and the burst mode, on a controller that keeps to the
-- protocol.
use mathlib.Core.Bool.{false≢true}
use mathlib.Core.Path.{subst}
use lai.Base.{
  ℕ, zero, suc, ◌<◌, ◌≡◌, refl, sym, ap, ◌∙◌, bit_and, Bool, true, false, not, ◌==◌, ==_ne, ==_true,
  ==_false, Bool-cases, inl, inr, ok, ◌>>=◌, arith,
}
use lai.Ec.{
  Driver, Ports, status_obf, status_ibf, status_burst, burst_enable, burst_disable, poll, poll_ibf,
  poll_obf, poll_burst, enable_burst, disable_burst,
}
use lai.Ec.Controller.{
  Phase, idle, leaving, output, Steady, Keeps, status, looked, looks, IsController,
}

module _ {S : Type 0} (ports : Ports S) (driver : Driver) (done : ℕ → Bool) (inv post : S → Type 0)
    (keep : (s : S) → inv s → done (status ports driver s) ≡ false → inv (looked ports driver s))
    (finish : (s : S)
      → inv s
      → done (status ports driver s) ≡ true
      → post (looked ports driver s)) where
  -- The loop over the status ends where the test holds, and what a look keeps holds until then.
  poll_lem :
      (patience n : ℕ) (s : S)
      → n < patience
      → done (status ports driver (looks ports driver n s)) ≡ true
      → inv s
      → (t : S) × (poll ports driver done patience s ≡ ok t) × post t
  unfolding poll
  poll_lem zero n s lt at i = absurd (omega (arith, lt))
  poll_lem (suc patience) n s lt at i = elim (Bool-cases (done (status ports driver s))) [
    | inl yes_ ↦ (looked ports driver s, rw (poll, yes_) refl, finish s i yes_)
    | inr no_ ↦
        elim n
            as (λ m.
              m < suc patience
              → done (status ports driver (looks ports driver m s)) ≡ true
              → (t : S) × (poll ports driver done (suc patience) s ≡ ok t) × post t) [
                | zero ↦ λ small here. absurd (false≢true (sym no_ ∙ here))
                | suc k ↦ λ small later.
                    let (t, run, holds) =
                      poll_lem patience k (looked ports driver s) (omega (arith, small)) later
                        (keep s i no_) in
                    (t, rw (poll, no_) run, holds)
              ]
          lt at
  ]

module _ {S : Type 0} (ports : Ports S) (driver : Driver) (patience : ℕ) (mem : S → ℕ → ℕ)
    (phase : S → Phase) (empty ready : S → Type 0)
    (c : IsController ports driver patience mem phase empty ready) where
  pub poll_ibf_lem :
      (s : S) (p : Phase)
      → phase s ≡ p
      → Steady p
      → (t : S) × (poll_ibf ports driver patience s ≡ ok t) × Keeps mem phase s t p × empty t
  unfolding poll_ibf
  poll_ibf_lem s p at steady =
      let (n, soon, clear) = c.takes_input s in
      let (t, run, (k, seen)) =
        poll_lem ports driver (λ status. bit_and status status_ibf == 0)
          (λ t. Keeps mem phase s t p) (λ t. Keeps mem phase s t p × empty t) (λ t k busy. look t k)
          (λ t k free.
            (look t k, c.on_empty t (==_true (bit_and (status ports driver t) status_ibf) 0 free)))
          patience n s soon (rw clear refl) (record { at = at; same = λ a. refl }) in
      (t, run, k, seen)
    where
      look : (t : S) → Keeps mem phase s t p → Keeps mem phase s (looked ports driver t) p
      look t k =
          let next = c.on_look t (subst Steady (sym (k.at)) steady) in
          record { at = next.at ∙ k.at; same = λ a. next.same a ∙ k.same a }

  pub poll_obf_lem :
      (s : S) (v : ℕ)
      → phase s ≡ output v
      → (t : S) × (poll_obf ports driver patience s ≡ ok t)
        × Keeps mem phase s t (output v)
        × ready t
  unfolding poll_obf
  poll_obf_lem s v at =
      let (n, soon, there) = c.gives_output s v at in
      let (t, run, (k, seen)) =
        poll_lem ports driver (λ status. not (bit_and status status_obf == 0))
          (λ t. Keeps mem phase s t (output v)) (λ t. Keeps mem phase s t (output v) × ready t)
          (λ t k busy. look t k)
          (λ t k there. (
            look t k,
            c.on_ready t (λ z. false≢true (ap (λ (x : ℕ). not (x == 0)) (sym z) ∙ there)),
          ))
          patience n s soon (rw (==_ne _ 0 there) refl) (record { at = at; same = λ a. refl }) in
      (t, run, k, seen)
    where
      look :
          (t : S)
          → Keeps mem phase s t (output v)
          → Keeps mem phase s (looked ports driver t) (output v)
      look t k =
          let next = c.on_look t (subst Steady (sym (k.at)) tt) in
          record { at = next.at ∙ k.at; same = λ a. next.same a ∙ k.same a }

  poll_burst_lem :
      (s : S)
      → phase s ≡ leaving
      → (t : S) × (poll_burst ports driver patience s ≡ ok t) × Keeps mem phase s t idle × empty t
  unfolding poll_burst
  poll_burst_lem s at =
      let (n, soon, clear) = c.leaves_burst s at in
      let (t, run, (k, seen)) =
        poll_lem ports driver (λ status. bit_and status status_burst == 0)
          (λ t. Keeps mem phase s t leaving) (λ t. Keeps mem phase s t idle × empty t)
          (λ t k still.
            let next =
              c.in_burst t k.at (==_false (bit_and (status ports driver t) status_burst) 0 still) in
            record { at = next.at; same = λ a. next.same a ∙ k.same a })
          (λ t k over.
            let (next, free) =
              c.out_of_burst t k.at
                (==_true (bit_and (status ports driver t) status_burst) 0 over) in
            (record { at = next.at; same = λ a. next.same a ∙ k.same a }, free))
          patience n s soon (rw clear refl) (record { at = at; same = λ a. refl }) in
      (t, run, k, seen)

  pub enable_burst_lem :
      (s : S)
      → phase s ≡ idle
      → empty s
      → (t : S) × (enable_burst ports driver patience s ≡ ok t) × Keeps mem phase s t idle
  unfolding enable_burst
  enable_burst_lem s quiet free =
      let s1 = ports.outb s driver.cmd_port burst_enable in
      let k1 = c.on_enable s quiet free in
      let (s2, run, k2, set_) = poll_obf_lem s1 0x90 k1.at in
      let (value, k3) = c.answers s2 0x90 k2.at set_ in
      (
        (ports.inb s2 driver.data_port).1,
        rw (run, value) refl,
        record { at = k3.at; same = λ a. k3.same a ∙ k2.same a ∙ k1.same a },
      )

  pub disable_burst_lem :
      (s : S)
      → phase s ≡ idle
      → (t : S) × (disable_burst ports driver patience s ≡ ok t)
        × Keeps mem phase s t idle
        × empty t
  unfolding disable_burst
  disable_burst_lem s quiet =
      let (s1, run, k1, free) = poll_ibf_lem s idle quiet tt in
      let s2 = ports.outb s1 driver.cmd_port burst_disable in
      let k2 = c.on_disable s1 k1.at free in
      let (s3, run', k3, free') = poll_burst_lem s2 k2.at in
      (
        s3,
        rw (run, ◌>>=◌) run',
        record { at = k3.at; same = λ a. k3.same a ∙ k2.same a ∙ k1.same a },
        free',
      )
