-- ===== src/Tests/Ec.antt =====
-- A controller that is busy until the second look at its status and takes no input before, and the
-- driver of the embedded controller on it.
use lai.Base.{ℕ, ◌+◌, ◌≡◌, refl, Bool, true, false, ◌==◌, if◌then◌else◌, some, [], ◌∷◌, ok}
use lai.Ec.{Driver, Ports, command_read, command_write, burst_enable, burst_disable}
use lai.Ec.Controller.{
  Phase, idle, read_address, write_address, leaving, write_value, output, Keeps,
}
use lai.Ec.Init.{init_ec}
use lai.Resource.{initialize_resource_view}

record Machine : Type 0 where
  cells : ℕ → ℕ
  phase : Phase
  busy : Bool

abbrev machine_cells : Machine → ℕ → ℕ
machine_cells s = s.cells

abbrev machine_phase : Machine → Phase
machine_phase s = s.phase

abbrev has_output : Phase → ℕ
has_output (output v) = 1
has_output other = 0

abbrev in_burst : Phase → ℕ
in_burst leaving = 0x10
in_burst other = 0

abbrev settle : Phase → Phase
settle leaving = idle
settle other = other

abbrev take_output : Phase → Machine → ℕ × Machine
take_output (output v) s = (v, record s { phase = idle })
take_output other s = (0, s)

abbrev after_command : ℕ → Phase
after_command v =
    if v == command_read
    then read_address
    else if v == command_write
    then write_address
    else if v == burst_enable
    then output 0x90
    else if v == burst_disable
    then leaving
    else idle

abbrev take_data : Phase → Machine → ℕ → Machine
take_data read_address s v = record s { phase = output (s.cells v); busy = true }
take_data write_address s v = record s { phase = write_value v; busy = true }
take_data (write_value a) s v = record {
  cells = λ b. if a == b then v else s.cells b;
  phase = idle;
  busy = true;
}
take_data other s v = s

abbrev machine : Ports Machine
machine = record {
  present = true;
  inb = λ s port.
      if port == 0x66
      then (
        (if s.busy then 2 + in_burst s.phase else has_output s.phase),
        record s { phase = (if s.busy then s.phase else settle s.phase); busy = false },
      )
      else (if s.busy then (0, s) else take_output s.phase s);
  outb = λ s port v.
      if s.busy
      then s
      else if port == 0x66
      then record s { phase = after_command v; busy = true }
      else take_data s.phase s v;
}

abbrev driver : Driver
driver = record { cmd_port = 0x66; data_port = 0x62 }

abbrev MachineKeeps : Machine → Machine → Phase → Type 0
MachineKeeps = Keeps machine_cells machine_phase

abbrev Free : Machine → Type 0
Free s = s.busy ≡ false

abbrev at : (ℕ → ℕ) → Phase → Bool → Machine
at m p b = record { cells = m; phase = p; busy = b }

abbrev fresh : Machine
fresh = record { cells = λ a. a; phase = idle; busy = false }

-- Two fixed blocks of one port, 0x62 and 0x66.
two_ports :
    init_ec 0
      (some (0x4B ∷ 0x62 ∷ 0 ∷ 1 ∷ 0x4B ∷ 0x66 ∷ 0 ∷ 1 ∷ 0x79 ∷ 0 ∷ []))
      (record { cmd_port = 0; data_port = 0 })
    ≡ ok driver
unfolding init_ec initialize_resource_view
two_ports = refl
