-- ===== src/Tests/OpRegion.antt =====
-- Tests of the bit buffers of core/opregion.c.
use lai.Base.{
  false, refl, ℕ, ◌≡◌, ◌%◌, ◌^◌, ◌+◌, ◌<◌, List, [], ◌∷◌, arith, ok, ◌>>=◌, ap, ◌∙◌, ◌/◌,
  get_or-replicate, ◌-◌, inl, true,
}
use lai.Bits.{bit, bit-zero}
use lai.OpRegion.Buffer.{buffer_put_at}
use lai.OpRegion.BufferBits.{buffer_bit, Put, buffer_put_at-Put}
use lai.OpRegion.Field.{Field, access_width, read_field_internal, write_field_internal}
use lai.OpRegion.FieldRead.{Filled, IsMemory}
use lai.OpRegion.FieldLoop.{read_field_internal-Filled}
use lai.OpRegion.FieldWrite.{
  Written, write_field_internal-Written, read_field_internal-write_field_internal,
}
use lai.OpRegion.Values.{integer, read_field, write_field}
use lai.OpRegion.RoundTrip.{read_field-write_field}
use lai.OpRegion.Perform.{AddressSpace, Region, region_device}
use lai.OpRegion.Mapped.{region_device-IsMemory}
use lai.Tests.Memory.{number_host, number_host-IsMapped, number_memory, number_memory-IsMemory}

Put-example :
    (out : List ℕ) × (buffer_put_at 12 (0x81 ∷ 0 ∷ []) 0x2A5 3 11 0 ≡ ok out)
    × Put (0x81 ∷ 0 ∷ []) out 0x2A5 3 0 11
Put-example = buffer_put_at-Put (0x81 ∷ 0 ∷ []) 0x2A5 3 11 (omega arith)

-- A buffer of zeros is clear.
clear_bits : (i : ℕ) → i < 11 → buffer_bit (0 ∷ 0 ∷ []) (3 + i) ≡ 0
clear_bits i lt =
    ap (λ (t : ℕ). bit t ((3 + i) % 8)) (get_or-replicate 2 ((3 + i) / 8) 0)
    ∙ bit-zero ((3 + i) % 8)

-- A field of 13 bits at bit 5, of byte accesses, whose other bits are preserved.
abbrev thirteen_bits : Field
thirteen_bits = record { fld_offset = 5; fld_size = 13; fld_flags = 1; in_memory = true }

thirteen_width : access_width thirteen_bits ≡ ok 8
unfolding access_width
thirteen_width = refl

read_field_example :
    (out : List ℕ) × (read_field_internal number_memory 0xABCDEF (0 ∷ 0 ∷ []) thirteen_bits
      ≡ ok (out, 0xABCDEF))
    × Filled (0 ∷ 0 ∷ []) out (λ j. bit 0xABCDEF (5 + j)) 0 13
read_field_example =
    read_field_internal-Filled number_memory bit 32 (number_memory-IsMemory 32) thirteen_bits 8
      (inl refl) (omega arith) 0xABCDEF (0 ∷ 0 ∷ []) thirteen_width (omega arith) (omega arith)

write_field_example :
    (out : ℕ) × (write_field_internal number_memory 0xABCDEF (0x34 ∷ 0x12 ∷ []) thirteen_bits
      ≡ ok out)
    × Written (bit 0xABCDEF) (bit out) (λ j. buffer_bit (0x34 ∷ 0x12 ∷ []) (j - 5)) 5 18
write_field_example =
    write_field_internal-Written number_memory bit 32 (number_memory-IsMemory 32) thirteen_bits 8
      (inl refl) (omega arith) refl (0x34 ∷ 0x12 ∷ []) (omega arith) 0xABCDEF thirteen_width
      (omega arith)

field_round_trip_example :
    (out : List ℕ) × (after : ℕ) × ((write_field_internal number_memory 0xABCDEF
          (0x34 ∷ 0x12 ∷ [])
          thirteen_bits
        >>= λ t. read_field_internal number_memory t (0 ∷ 0 ∷ []) thirteen_bits)
      ≡ ok (out, after))
    × ((i : ℕ) → i < 13 → buffer_bit out i ≡ buffer_bit (0x34 ∷ 0x12 ∷ []) i)
field_round_trip_example =
    read_field_internal-write_field_internal number_memory bit 32 (number_memory-IsMemory 32)
      thirteen_bits 8 (inl refl) (omega arith) refl (0x34 ∷ 0x12 ∷ []) (omega arith) 0xABCDEF
      (0 ∷ 0 ∷ []) thirteen_width (omega arith) (omega arith)
      (λ i lt. ap (λ (t : ℕ). bit t (i % 8)) (get_or-replicate 2 (i / 8) 0) ∙ bit-zero (i % 8))

integer_round_trip_example :
    (after : ℕ) × ((write_field number_memory 0xABCDEF thirteen_bits (integer 0xFFFF) >>= λ t.
    read_field number_memory true t thirteen_bits)
      ≡ ok (integer (0xFFFF % 2 ^ 13), after))
integer_round_trip_example =
    read_field-write_field number_memory bit 32 (number_memory-IsMemory 32) thirteen_bits 8
      (inl refl) (omega arith) refl true 0xABCDEF 0xFFFF thirteen_width (omega arith) (omega arith)

-- A region of memory at address 2.
abbrev region_at_two : Region
region_at_two = record {
  op_address_space = AddressSpace.memory_space;
  op_base = 2;
  op_override = false;
}

region_device_example :
    IsMemory (region_device number_host region_at_two) (λ s j. bit s (16 + j)) 64
region_device_example =
    region_device-IsMemory number_host bit number_host-IsMapped region_at_two 64 refl refl
      (omega arith)
