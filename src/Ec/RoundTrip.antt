-- ===== src/Ec/RoundTrip.antt =====
-- drivers/ec.c: an integer that is written through `lai_ec_opregion_override` is read back.
use lai.Base.{ℕ, ◌+◌, ◌≤◌, ◌<◌, ◌≡◌, ◌≢◌, List, length, u8}
use lai.Ec.{Driver, Ports}
use lai.Ec.Controller.{Phase, idle, IsController}
use lai.Ec.Cells.{cells_from}

-- An address that is none of those of `count` bytes from index `i` on.
abbrev pub Apart : (offset i count a : ℕ) → Type 0
Apart offset i count a = (j : ℕ) → i ≤ j → j < i + count → a ≢ u8 (offset + j)

module _ {S : Type 0} (ports : Ports S) (driver : Driver) (patience : ℕ) (mem : S → ℕ → ℕ)
    (phase : S → Phase) (empty ready : S → Type 0)
    (c : IsController ports driver patience mem phase empty ready) (cmd : driver.cmd_port ≢ 0)
    (data_set : driver.data_port ≢ 0) where
  abbrev cells : S → (count offset i : ℕ) → List ℕ
  cells = cells_from ports driver patience mem phase empty ready c cmd data_set

  -- The bytes that have been written, and the cells that have not.
  record Stored (s t : S) (bytes : List ℕ) (offset i : ℕ) : Type 0 where
    quiet : phase t ≡ idle
    others : (a : ℕ) → Apart offset i (length bytes) a → mem t a ≡ mem s a
    stored : i + length bytes ≤ 256 → cells t (length bytes) offset i ≡ bytes
