-- ===== src/Ec.antt =====
-- drivers/ec.c, include/lai/drivers/ec.h: the driver of the embedded controller. The ports of the
-- host and what stands behind them are a state and two functions.
pub mod Controller
pub mod Polls
pub mod Cells
pub mod Init
pub mod RoundTrip
use lai.Base.{
  ℕ, zero, suc, ◌+◌, ◌-◌, bit_and, Bool, true, false, not, ◌&&◌, ◌||◌, ◌==◌, if◌then◌else◌, List,
  [], ◌∷◌, u8, shl, shr, Run, ok, panic, ◌>>=◌,
}
use lai.OpRegion.Values.{gather_bytes, spread_bytes}

abbrev pub status_obf : ℕ
status_obf = 0x01

abbrev pub status_ibf : ℕ
status_ibf = 0x02

abbrev pub status_burst : ℕ
status_burst = 0x10

abbrev pub command_read : ℕ
command_read = 0x80

abbrev pub command_write : ℕ
command_write = 0x81

abbrev pub burst_enable : ℕ
burst_enable = 0x82

abbrev pub burst_disable : ℕ
burst_disable = 0x83

abbrev pub command_query : ℕ
command_query = 0x84

-- `struct lai_ec_driver`
pub record Driver : Type 0 where
  pub cmd_port : ℕ
  pub data_port : ℕ

-- `laihost_inb` and `laihost_outb`, null pointers if `present` is not set.
pub record Ports (S : Type 0) : Type 0 where
  pub present : Bool
  pub inb : S → ℕ → ℕ × S
  pub outb : S → (port value : ℕ) → S

module _ {S : Type 0} (ports : Ports S) (driver : Driver) where
  -- The loop that reads the status until `done` holds of it, with `patience` rounds: a controller
  -- that never gets ready keeps the C code in its loop.
  unfoldable pub poll : (done : ℕ → Bool) (patience : ℕ) → S → Run S
  poll done zero s = panic
  poll done (suc patience) s = elim (done (ports.inb s driver.cmd_port).0) [
    | true ↦ ok (ports.inb s driver.cmd_port).1
    | false ↦ poll done patience (ports.inb s driver.cmd_port).1
  ]

  unfoldable pub poll_ibf : (patience : ℕ) → S → Run S
  unfolding poll
  poll_ibf patience s = poll (λ status. bit_and status status_ibf == 0) patience s

  unfoldable pub poll_obf : (patience : ℕ) → S → Run S
  unfolding poll
  poll_obf patience s = poll (λ status. not (bit_and status status_obf == 0)) patience s

  -- The loop of `disable_burst`.
  unfoldable pub poll_burst : (patience : ℕ) → S → Run S
  unfolding poll
  poll_burst patience s = poll (λ status. bit_and status status_burst == 0) patience s

  unfoldable pub enable_burst : (patience : ℕ) → S → Run S
  enable_burst patience s = poll_obf patience (ports.outb s driver.cmd_port burst_enable) >>= λ t.
      if (ports.inb t driver.data_port).0 == 0x90
      then ok (ports.inb t driver.data_port).1
      else panic

  unfoldable pub disable_burst : (patience : ℕ) → S → Run S
  disable_burst patience s =
      poll_ibf patience s >>= λ t. poll_burst patience (ports.outb t driver.cmd_port burst_disable)

  abbrev pub uninitialized : Bool
  uninitialized = (driver.cmd_port == 0) || (driver.data_port == 0)

  -- `lai_read_ec`
  unfoldable pub read_ec : (patience : ℕ) → (offset : ℕ) → S → Run (ℕ × S)
  read_ec patience offset s =
      if uninitialized
      then ok (0, s)
      else if ports.present
      then (poll_ibf patience s >>= λ s1.
          poll_ibf patience (ports.outb s1 driver.cmd_port command_read) >>= λ s2.
          poll_obf patience (ports.outb s2 driver.data_port offset) >>= λ s3.
          ok (ports.inb s3 driver.data_port))
      else panic

  -- `lai_write_ec`
  unfoldable pub write_ec : (patience : ℕ) → (offset value : ℕ) → S → Run S
  write_ec patience offset value s =
      if uninitialized
      then ok s
      else if ports.present
      then (poll_ibf patience s >>= λ s1.
          poll_ibf patience (ports.outb s1 driver.cmd_port command_write) >>= λ s2.
          poll_ibf patience (ports.outb s2 driver.data_port offset) >>= λ s3.
          ok (ports.outb s3 driver.data_port value))
      else panic

  -- `lai_query_ec`
  unfoldable pub query_ec : (patience : ℕ) → S → Run (ℕ × S)
  query_ec patience s =
      if uninitialized
      then ok (0, s)
      else if ports.present
      then (enable_burst patience s >>= λ s1.
          poll_obf patience (ports.outb s1 driver.cmd_port command_query) >>= λ s2.
          disable_burst patience s2 >>= λ s3. ok (ports.inb s3 driver.data_port))
      else panic

  -- The reads of `readb`, `readw`, `readd` and `readq`, the lowest offset first, and the writes of
  -- `writeb` and its fellows; an offset is cut to 8 bits by the call.
  unfoldable pub read_each : (patience count : ℕ) (offset i : ℕ) → S → Run (List ℕ × S)
  read_each patience zero offset i s = ok ([], s)
  read_each patience (suc count) offset i s = read_ec patience (u8 (offset + i)) s >>= λ r.
      read_each patience count offset (i + 1) r.1 >>= λ rest. ok (r.0 ∷ rest.0, rest.1)

  unfoldable pub write_each : (patience : ℕ) (bytes : List ℕ) (offset i : ℕ) → S → Run S
  write_each patience [] offset i s = ok s
  write_each patience (b ∷ bytes) offset i s =
      write_ec patience (u8 (offset + i)) b s >>= λ t. write_each patience bytes offset (i + 1) t

  -- `readb` to `readq` and `writeb` to `writeq` of `lai_ec_opregion_override`, for 1, 2, 4 or 8
  -- bytes.
  unfoldable pub region_read : (patience count : ℕ) (offset : ℕ) → S → Run (ℕ × S)
  region_read patience count offset s = enable_burst patience s >>= λ s1.
      read_each patience count offset 0 s1 >>= λ r.
      disable_burst patience r.1 >>= λ s2. ok (gather_bytes r.0 0 0, s2)

  unfoldable pub region_write : (patience count : ℕ) (offset value : ℕ) → S → Run S
  region_write patience count offset value s = enable_burst patience s >>= λ s1.
      write_each patience (spread_bytes count 0 value) offset 0 s1 >>= λ s2.
      disable_burst patience s2
