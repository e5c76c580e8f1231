-- ===== src/Ec/Controller.antt =====
-- drivers/ec.c: an embedded controller as ACPI describes it.
use lai.Base.{ℕ, zero, suc, ◌<◌, ◌≡◌, ◌≢◌, bit_and, true, ◌==◌, if◌then◌else◌}
use lai.Ec.{Driver, Ports}

-- What the controller is in the middle of; `leaving` is the end of a burst.
pub data Phase : Type 0 where
  idle read_address write_address leaving : Phase
  write_value : (address : ℕ) → Phase
  output : (value : ℕ) → Phase

-- The phases that a look at the status leaves as they are.
abbrev pub Steady : Phase → Type 0
Steady leaving = ⊥
Steady other = Unit

module _ {S : Type 0} (mem : S → ℕ → ℕ) (phase : S → Phase) where
  -- The memory is as before, and the controller in phase `p`.
  pub record Keeps (s t : S) (p : Phase) : Type 0 where
    pub at : phase t ≡ p
    pub same : (a : ℕ) → mem t a ≡ mem s a

  -- One cell has been written, and the controller is idle.
  pub record Changes (s t : S) (a v : ℕ) : Type 0 where
    pub at : phase t ≡ idle
    pub cells : (b : ℕ) → mem t b ≡ (if a == b then v else mem s b)

module _ {S : Type 0} (ports : Ports S) (driver : Driver) where
  -- The status as the host reads it, the state after that, and after so many reads.
  abbrev pub status : S → ℕ
  status s = (ports.inb s driver.cmd_port).0

  abbrev pub looked : S → S
  looked s = (ports.inb s driver.cmd_port).1

  abbrev pub looks : ℕ → S → S
  looks zero s = s
  looks (suc n) s = looks n (looked s)

module _ {S : Type 0} (ports : Ports S) (driver : Driver) (patience : ℕ) where
  -- The protocol of ACPI. `empty` holds where the host has seen IBF clear since its last write, and
  -- `ready` where it has seen OBF set: nothing is said of a write to a port where `empty` does not
  -- hold, or of a read of data where `ready` does not. IBF gets clear, OBF gets set when there is
  -- output, and BURST gets clear when a burst ends, each within `patience` looks at the status.
  pub record IsController (mem : S → ℕ → ℕ) (phase : S → Phase) (empty ready : S → Type 0)
      : Type 0 where
    pub present : ports.present ≡ true
    pub takes_input :
        (s : S)
        → (n : ℕ) × (n < patience)
          × (bit_and (status ports driver (looks ports driver n s)) 0x02 ≡ 0)
    pub gives_output :
        (s : S) (v : ℕ)
        → phase s ≡ output v
        → (n : ℕ) × (n < patience)
          × (bit_and (status ports driver (looks ports driver n s)) 0x01 ≢ 0)
    pub leaves_burst :
        (s : S)
        → phase s ≡ leaving
        → (n : ℕ) × (n < patience)
          × (bit_and (status ports driver (looks ports driver n s)) 0x10 ≡ 0)
    pub on_look : (s : S) → Steady (phase s) → Keeps mem phase s (looked ports driver s) (phase s)
    pub on_empty :
        (s : S) → bit_and (status ports driver s) 0x02 ≡ 0 → empty (looked ports driver s)
    pub on_ready :
        (s : S) → bit_and (status ports driver s) 0x01 ≢ 0 → ready (looked ports driver s)
    pub in_burst :
        (s : S)
        → phase s ≡ leaving
        → bit_and (status ports driver s) 0x10 ≢ 0
        → Keeps mem phase s (looked ports driver s) leaving
    pub out_of_burst :
        (s : S)
        → phase s ≡ leaving
        → bit_and (status ports driver s) 0x10 ≡ 0
        → Keeps mem phase s (looked ports driver s) idle × empty (looked ports driver s)
    pub answers :
        (s : S) (v : ℕ)
        → phase s ≡ output v
        → ready s
        → ((ports.inb s driver.data_port).0 ≡ v)
          × Keeps mem phase s (ports.inb s driver.data_port).1 idle
    pub on_read :
        (s : S)
        → phase s ≡ idle
        → empty s
        → Keeps mem phase s (ports.outb s driver.cmd_port 0x80) read_address
    pub on_read_address :
        (s : S) (a : ℕ)
        → phase s ≡ read_address
        → empty s
        → Keeps mem phase s (ports.outb s driver.data_port a) (output (mem s a))
    pub on_write :
        (s : S)
        → phase s ≡ idle
        → empty s
        → Keeps mem phase s (ports.outb s driver.cmd_port 0x81) write_address
    pub on_write_address :
        (s : S) (a : ℕ)
        → phase s ≡ write_address
        → empty s
        → Keeps mem phase s (ports.outb s driver.data_port a) (write_value a)
    pub on_write_value :
        (s : S) (a v : ℕ)
        → phase s ≡ write_value a
        → empty s
        → Changes mem phase s (ports.outb s driver.data_port v) a v
    pub on_enable :
        (s : S)
        → phase s ≡ idle
        → empty s
        → Keeps mem phase s (ports.outb s driver.cmd_port 0x82) (output 0x90)
    pub on_disable :
        (s : S)
        → phase s ≡ idle
        → empty s
        → Keeps mem phase s (ports.outb s driver.cmd_port 0x83) leaving
