-- ===== src/OpRegion/Perform.antt =====
-- core/opregion.c: the access to the hardware of a region, `lai_perform_read` and
-- `lai_perform_write`. The functions of the host are a record, and so is the evaluation of the PCI
-- parameters of a region (`lai_get_pci_params`).
use lai.Base.{
  ℕ, ◌+◌, ◌/◌, ◌%◌, ◌^◌, bit_and, Bool, ◌||◌, ◌==◌, if◌then◌else◌, u8, u16, u64, Run, ok, ensure,
  ◌>>=◌, ◌>>◌,
}
use lai.OpRegion.Field.{Device}

pub data AddressSpace : Type 0 where
  memory_space io_space pci_space other_space : AddressSpace

-- The fields of the node of a region; `op_override` says whether the host overrides it.
pub record Region : Type 0 where
  pub op_address_space : AddressSpace
  pub op_base : ℕ
  pub op_override : Bool

pub record PciParams : Type 0 where
  pub seg : ℕ
  pub bbn : ℕ
  pub adr : ℕ

-- Accesses of so many bits: through an override, to mapped memory, to a port, and to the
-- configuration space of a PCI function (segment, bus, slot, function, offset).
pub record Host (S : Type 0) : Type 0 where
  pub override_read : S → (size address : ℕ) → Run (ℕ × S)
  pub override_write : S → (size address value : ℕ) → Run S
  pub mapped_read : S → (size address : ℕ) → Run (ℕ × S)
  pub mapped_write : S → (size address value : ℕ) → Run S
  pub port_in : S → (size port : ℕ) → Run (ℕ × S)
  pub port_out : S → (size port value : ℕ) → Run S
  pub pci_read : S → (size seg bus slot fun offset : ℕ) → Run (ℕ × S)
  pub pci_write : S → (size seg bus slot fun offset value : ℕ) → Run S
  pub has_map : Bool
  pub has_in : Bool
  pub has_out : Bool
  pub has_pci_read : Bool
  pub has_pci_write : Bool
  pub pci_params : S → Run (PciParams × S)

-- The sizes that the switches accept, with 64 bits or without.
unfoldable pub narrow_size : ℕ → Bool
narrow_size size = (size == 8) || (size == 16) || (size == 32)

unfoldable pub any_size : ℕ → Bool
unfolding narrow_size
any_size size = narrow_size size || (size == 64)

module _ {S : Type 0} (host : Host S) where
  open host use {
    override_read, override_write, mapped_read, mapped_write, port_in, port_out, pci_read,
    pci_write, has_map, has_in, has_out, has_pci_read, has_pci_write, pci_params,
  }

  unfoldable pub perform_read : Region → S → (access_size offset : ℕ) → Run (ℕ × S)
  unfolding any_size narrow_size
  perform_read opregion s access_size offset =
      let address = u64 (opregion.op_base + offset) in
      if opregion.op_override
      then (ensure (any_size access_size) >> override_read s access_size address)
      else (elim opregion.op_address_space [
        | memory_space ↦
            ensure has_map >> ensure (any_size access_size) >> mapped_read s access_size address
        | io_space ↦
            ensure has_in >> ensure (narrow_size access_size) >> port_in s access_size (u16 address)
        | pci_space ↦ pci_params s >>= λ r.
            ensure has_pci_read
            >> ensure (narrow_size access_size)
            >> pci_read r.1 access_size (u16 r.0.seg) (u8 r.0.bbn) (u8 (r.0.adr / 2 ^ 16))
                (u8 (bit_and r.0.adr 0xFF)) (u16 address)
        | other_space ↦ ok (0, s)
      ])

  unfoldable pub perform_write : Region → S → (access_size offset value : ℕ) → Run S
  unfolding any_size narrow_size
  perform_write opregion s access_size offset value =
      let address = u64 (opregion.op_base + offset) in
      let narrowed = value % 2 ^ access_size in
      if opregion.op_override
      then (ensure (any_size access_size) >> override_write s access_size address narrowed)
      else (elim opregion.op_address_space [
        | memory_space ↦
            ensure has_map
            >> ensure (any_size access_size)
            >> mapped_write s access_size address narrowed
        | io_space ↦
            ensure has_out
            >> ensure (narrow_size access_size)
            >> port_out s access_size (u16 address) narrowed
        | pci_space ↦ pci_params s >>= λ r.
            ensure has_pci_write
            >> ensure (narrow_size access_size)
            >> pci_write r.1 access_size (u16 r.0.seg) (u8 r.0.bbn) (u8 (r.0.adr / 2 ^ 16))
                (u8 (bit_and r.0.adr 0xFF)) (u16 address) narrowed
        | other_space ↦ ok s
      ])

  -- The device that the fields of a region use.
  abbrev pub region_device : Region → Device S
  region_device opregion = record {
    read_bits = perform_read opregion;
    write_bits = perform_write opregion;
  }
