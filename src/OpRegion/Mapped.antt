-- ===== src/OpRegion/Mapped.antt =====
-- core/opregion.c: a region in memory is a memory of bits for its fields.
use lai.Base.{
  ℕ, ◌+◌, ◌*◌, ◌%◌, ◌^◌, ◌≤◌, ◌<◌, ◌≡◌, ◌⊎◌, inl, inr, refl, ap, ◌∙◌, true, false, u64, ok, arith,
}
use lai.Bits.{bit, bit-mod}
use lai.OpRegion.FieldRead.{Width, IsMemory}
use lai.OpRegion.Perform.{
  AddressSpace, Region, Host, narrow_size, any_size, perform_read, perform_write, region_device,
}

-- What the code relies on of `laihost_map`: an access to the memory that it maps is an access to
-- the bits of the machine's memory at that address.
pub record IsMapped {S : Type 0} (host : Host S) (bits : S → ℕ → ℕ) : Type 0 where
  pub implemented : host.has_map ≡ true
  pub reads :
      (s : S) (size address : ℕ)
      → Width size
      → 8 * address + size ≤ 2 ^ 67
      → (v : ℕ) × (host.mapped_read s size address ≡ ok (v, s))
        × ((i : ℕ) → i < size → bit v i ≡ bits s (8 * address + i))
  pub writes :
      (s : S) (size address v : ℕ)
      → Width size
      → 8 * address + size ≤ 2 ^ 67
      → (out : S) × (host.mapped_write s size address v ≡ ok out)
        × ((i : ℕ) → i < size → bits out (8 * address + i) ≡ bit v i)
        × ((j : ℕ) → (j < 8 * address) ⊎ (8 * address + size ≤ j) → bits out j ≡ bits s j)

Width-any_size : (a : ℕ) → Width a → any_size a ≡ true
unfolding any_size narrow_size
Width-any_size a (inl e) = rw e refl
Width-any_size a (inr (inl e)) = rw e refl
Width-any_size a (inr (inr e)) = rw e refl

Width-positive : (a : ℕ) → Width a → 0 < a
Width-positive a (inl e) = omega (arith, e)
Width-positive a (inr (inl e)) = omega (arith, e)
Width-positive a (inr (inr e)) = omega (arith, e)

module _ {S : Type 0} (host : Host S) (bits : S → ℕ → ℕ) (mapped : IsMapped host bits)
    (opregion : Region) (limit : ℕ)
    (in_memory : opregion.op_address_space ≡ AddressSpace.memory_space)
    (plain : opregion.op_override ≡ false) (below : 8 * opregion.op_base + limit ≤ 2 ^ 67) where
  -- The bits of the region.
  abbrev pub region_bits : S → ℕ → ℕ
  region_bits s j = bits s (8 * opregion.op_base + j)

  address_lem :
      (offset size : ℕ)
      → Width size
      → 8 * offset + size ≤ limit
      → u64 (opregion.op_base + offset) ≡ opregion.op_base + offset
  address_lem offset size w fits = omega (arith, Width-positive size w)

  read_mapped :
      (s : S) (offset size : ℕ)
      → Width size
      → 8 * offset + size ≤ limit
      → perform_read host opregion s size offset
        ≡ host.mapped_read s size (opregion.op_base + offset)
  unfolding perform_read
  read_mapped s offset size w fits =
      rw
        (
          perform_read,
          plain,
          in_memory,
          mapped.implemented,
          Width-any_size size w,
          address_lem offset size w fits,
        )
        refl

  write_mapped :
      (s : S) (offset size v : ℕ)
      → Width size
      → 8 * offset + size ≤ limit
      → perform_write host opregion s size offset v
        ≡ host.mapped_write s size (opregion.op_base + offset) (v % 2 ^ size)
  unfolding perform_write
  write_mapped s offset size v w fits =
      rw
        (
          perform_write,
          plain,
          in_memory,
          mapped.implemented,
          Width-any_size size w,
          address_lem offset size w fits,
        )
        refl

  -- For a region in system memory that the host does not override and that lies below 2^64, when
  -- the host maps memory faithfully (IsMapped): lai_perform_read and lai_perform_write of 8, 16
  -- or 32 bits within the region end without a panic, and behave as a memory of bits, the bits of
  -- the machine's memory from the base of the region on. This is what the theorems on fields ask
  -- of their device.
  pub region_device-IsMemory : IsMemory (region_device host opregion) region_bits limit
  region_device-IsMemory = record {
    reads = λ s size offset w fits.
        let (v, run, digits) = mapped.reads s size (opregion.op_base + offset) w (omega arith) in
        (
          v,
          read_mapped s offset size w fits ∙ run,
          λ i lt. digits i lt ∙ ap (bits s) (omega arith),
        );
    writes = λ s size offset v w fits.
        let (out, run, inside, outside) =
          mapped.writes s size (opregion.op_base + offset) (v % 2 ^ size) w (omega arith) in
        (
          out,
          write_mapped s offset size v w fits ∙ run,
          (λ i lt. ap (bits out) (omega arith) ∙ inside i lt ∙ bit-mod v size i lt),
          λ j away.
              outside (8 * opregion.op_base + j)
                (elim away [ inl low ↦ inl (omega arith) | inr high ↦ inr (omega arith) ]),
        );
  }
