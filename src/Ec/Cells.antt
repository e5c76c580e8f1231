-- ===== src/Ec/Cells.antt =====
-- drivers/ec.c: `lai_read_ec` and `lai_write_ec` on a controller that keeps to the protocol.
use lai.Base.{
  ℕ, zero, suc, ◌+◌, ◌≡◌, ◌≢◌, refl, ap, ap₂, ◌∙◌, ◌==◌, ==_ne, if◌then◌else◌, if_true, List, [],
  ◌∷◌, u8, ok, ◌>>=◌,
}
use lai.Ec.{Driver, Ports, command_read, command_write, read_ec, write_ec, read_each}
use lai.Ec.Controller.{
  Phase, idle, read_address, write_address, write_value, Keeps, Changes, IsController,
}
use lai.Ec.Polls.{poll_ibf_lem, poll_obf_lem}

module _ {S : Type 0} (ports : Ports S) (driver : Driver) (patience : ℕ) (mem : S → ℕ → ℕ)
    (phase : S → Phase) (empty ready : S → Type 0)
    (c : IsController ports driver patience mem phase empty ready) (cmd : driver.cmd_port ≢ 0)
    (data_set : driver.data_port ≢ 0) where
  read_ec_lem :
      (a : ℕ) (s : S)
      → phase s ≡ idle
      → (t : S) × (read_ec ports driver patience a s ≡ ok (mem s a, t)) × Keeps mem phase s t idle
  unfolding read_ec
  read_ec_lem a s quiet =
      let (s1, run1, k1, e1) =
        poll_ibf_lem ports driver patience mem phase empty ready c s idle quiet tt in
      let k2 = c.on_read s1 k1.at e1 in
      let (s3, run3, k3, e3) =
        poll_ibf_lem ports driver patience mem phase empty ready c
          (ports.outb s1 driver.cmd_port command_read) read_address k2.at tt in
      let k4 = c.on_read_address s3 a k3.at e3 in
      let (s5, run5, k5, r5) =
        poll_obf_lem ports driver patience mem phase empty ready c
          (ports.outb s3 driver.data_port a) (mem s3 a) k4.at in
      let (value, k6) = c.answers s5 (mem s3 a) k5.at r5 in
      let before : (b : ℕ) → mem s3 b ≡ mem s b = λ b. k3.same b ∙ k2.same b ∙ k1.same b in
      (
        (ports.inb s5 driver.data_port).1,
        rw (==_ne driver.cmd_port 0 cmd, ==_ne driver.data_port 0 data_set)
            (if_true ports.present _ _ c.present
              ∙ rw (run1, ◌>>=◌, run3, ◌>>=◌, run5)
                  (ap (λ (v : ℕ). ok (v, (ports.inb s5 driver.data_port).1)) (value ∙ before a))),
        record { at = k6.at; same = λ b. k6.same b ∙ k5.same b ∙ k4.same b ∙ before b },
      )

  pub write_ec_lem :
      (a v : ℕ) (s : S)
      → phase s ≡ idle
      → (t : S) × (write_ec ports driver patience a v s ≡ ok t) × Changes mem phase s t a v
  unfolding write_ec
  write_ec_lem a v s quiet =
      let (s1, run1, k1, e1) =
        poll_ibf_lem ports driver patience mem phase empty ready c s idle quiet tt in
      let k2 = c.on_write s1 k1.at e1 in
      let (s3, run3, k3, e3) =
        poll_ibf_lem ports driver patience mem phase empty ready c
          (ports.outb s1 driver.cmd_port command_write) write_address k2.at tt in
      let k4 = c.on_write_address s3 a k3.at e3 in
      let (s5, run5, k5, e5) =
        poll_ibf_lem ports driver patience mem phase empty ready c
          (ports.outb s3 driver.data_port a) (write_value a) k4.at tt in
      let k6 = c.on_write_value s5 a v k5.at e5 in
      let before : (b : ℕ) → mem s5 b ≡ mem s b =
        λ b. k5.same b ∙ k4.same b ∙ k3.same b ∙ k2.same b ∙ k1.same b in
      (
        ports.outb s5 driver.data_port v,
        rw (==_ne driver.cmd_port 0 cmd, ==_ne driver.data_port 0 data_set)
            (if_true ports.present _ _ c.present ∙ rw (run1, ◌>>=◌, run3, ◌>>=◌, run5) refl),
        record {
          at = k6.at;
          cells = λ b. k6.cells b ∙ ap (λ (t : ℕ). if a == b then v else t) (before b);
        },
      )

  -- The cells at the offsets of `count` bytes from index `i` on.
  abbrev pub cells_from : S → (count offset i : ℕ) → List ℕ
  cells_from s zero offset i = []
  cells_from s (suc count) offset i = mem s (u8 (offset + i)) ∷ cells_from s count offset (i + 1)

  pub cells_from_same :
      (s t : S) (count offset i : ℕ)
      → ((a : ℕ) → mem t a ≡ mem s a)
      → cells_from t count offset i ≡ cells_from s count offset i
  cells_from_same s t zero offset i same = refl
  cells_from_same s t (suc count) offset i same =
      ap₂ ◌∷◌ (same (u8 (offset + i))) (cells_from_same s t count offset (i + 1) same)

  pub read_each_lem :
      (count offset i : ℕ) (s : S)
      → phase s ≡ idle
      → (t : S) × (read_each ports driver patience count offset i s
          ≡ ok (cells_from s count offset i, t))
        × Keeps mem phase s t idle
  unfolding read_each
  read_each_lem zero offset i s quiet = (s, refl, record { at = quiet; same = λ a. refl })
  read_each_lem (suc count) offset i s quiet =
      let (s1, run1, k1) = read_ec_lem (u8 (offset + i)) s quiet in
      let (s2, run2, k2) = read_each_lem count offset (i + 1) s1 k1.at in
      (
        s2,
        rw (read_each, run1, ◌>>=◌, run2, cells_from_same s s1 count offset (i + 1) k1.same) refl,
        record { at = k2.at; same = λ a. k2.same a ∙ k1.same a },
      )
