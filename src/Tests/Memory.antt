-- ===== src/Tests/Memory.antt =====
-- A device for the tests: a memory whose content is one number.
use native.Mathlib.Nat.{one-le-pow, mod-lt}
use lai.Base.{
  panic, true, false, ℕ, ◌+◌, ◌*◌, ◌/◌, ◌%◌, ◌^◌, ◌<◌, ◌≡◌, inl, inr, refl, ap, ◌∙◌, max, bit_or,
  shl, ok, arith,
}
use lai.Bits.{bit, bit-bit_or, bit-shl, bit-shl_low, bit-shr, bit-mod, bit-past}
use lai.OpRegion.BufferBits.{split_at}
use lai.OpRegion.Field.{Device}
use lai.OpRegion.Perform.{Host}
use lai.OpRegion.Mapped.{IsMapped}
use lai.OpRegion.FieldRead.{IsMemory}

-- The digits of `s` from `k` on, `size` of them, are replaced by those of `v`.
abbrev replaced : (s k size v : ℕ) → ℕ
replaced s k size v =
    bit_or (bit_or (s % 2 ^ k) (shl (v % 2 ^ size) k)) (shl (s / 2 ^ (k + size)) (k + size))

abbrev pub number_memory : Device ℕ
number_memory = record {
  read_bits = λ s size offset. ok (s / 2 ^ (8 * offset) % 2 ^ size, s);
  write_bits = λ s size offset v. ok (replaced s (8 * offset) size v);
}

mod_small : (x k : ℕ) → x % 2 ^ k < 2 ^ k
mod_small x k = mod-lt x (omega (arith, one-le-pow k 2))

module _ (s k size v : ℕ) where
  replaced_digits :
      (i : ℕ)
      → bit (replaced s k size v) i
        ≡ max
            (max (bit (s % 2 ^ k) i) (bit (shl (v % 2 ^ size) k) i))
            (bit (shl (s / 2 ^ (k + size)) (k + size)) i)
  replaced_digits i =
      bit-bit_or (bit_or (s % 2 ^ k) (shl (v % 2 ^ size) k)) (shl (s / 2 ^ (k + size)) (k + size)) i
      ∙ ap (λ (t : ℕ). max t (bit (shl (s / 2 ^ (k + size)) (k + size)) i))
          (bit-bit_or (s % 2 ^ k) (shl (v % 2 ^ size) k) i)

  replaced_inside : (i : ℕ) → i < size → bit (replaced s k size v) (k + i) ≡ bit v i
  replaced_inside i lt = omega (
    arith,
    replaced_digits (k + i),
    bit-past (s % 2 ^ k) k (k + i) (mod_small s k) (omega arith),
    bit-shl (v % 2 ^ size) k i,
    bit-mod v size i lt,
    bit-shl_low (s / 2 ^ (k + size)) (k + size) (k + i) (omega arith),
  )

  replaced_low : (j : ℕ) → j < k → bit (replaced s k size v) j ≡ bit s j
  replaced_low j lt = omega (
    arith,
    replaced_digits j,
    bit-mod s k j lt,
    bit-shl_low (v % 2 ^ size) k j lt,
    bit-shl_low (s / 2 ^ (k + size)) (k + size) j (omega arith),
  )

  replaced_high : (i : ℕ) → bit (replaced s k size v) (k + size + i) ≡ bit s (k + size + i)
  replaced_high i =
      let regroup : k + size + i ≡ k + (size + i) = omega arith in
      omega (
        arith,
        replaced_digits (k + size + i),
        bit-past (s % 2 ^ k) k (k + size + i) (mod_small s k) (omega arith),
        ap (bit (shl (v % 2 ^ size) k)) regroup,
        bit-shl (v % 2 ^ size) k (size + i),
        bit-past (v % 2 ^ size) size (size + i) (mod_small v size) (omega arith),
        bit-shl (s / 2 ^ (k + size)) (k + size) i,
        bit-shr s (k + size) i,
      )

pub number_memory-IsMemory : (limit : ℕ) → IsMemory number_memory bit limit
number_memory-IsMemory limit = record {
  reads = λ s size offset w fits. (
    s / 2 ^ (8 * offset) % 2 ^ size,
    refl,
    λ i lt. bit-mod (s / 2 ^ (8 * offset)) size i lt ∙ bit-shr s (8 * offset) i,
  );
  writes = λ s size offset v w fits. (
    replaced s (8 * offset) size v,
    refl,
    (λ i lt. replaced_inside s (8 * offset) size v i lt),
    λ j away. elim away [
      | inl low ↦ replaced_low s (8 * offset) size v j low
      | inr high ↦
          let (i, at) = split_at (8 * offset + size) j high in
          rw at (replaced_high s (8 * offset) size v i)
    ],
  );
}

-- A host whose mapped memory is the number, and that has nothing else.
abbrev pub number_host : Host ℕ
number_host = record {
  override_read = λ s size address. panic;
  override_write = λ s size address value. panic;
  mapped_read = λ s size address. number_memory.read_bits s size address;
  mapped_write = λ s size address value. number_memory.write_bits s size address value;
  port_in = λ s size port. panic;
  port_out = λ s size port value. panic;
  pci_read = λ s size seg bus slot fun offset. panic;
  pci_write = λ s size seg bus slot fun offset value. panic;
  has_map = true;
  has_in = false;
  has_out = false;
  has_pci_read = false;
  has_pci_write = false;
  pci_params = λ s. panic;
}

pub number_host-IsMapped : IsMapped number_host bit
number_host-IsMapped =
    let m = number_memory-IsMemory (2 ^ 67) in
    record {
      implemented = refl;
      reads = λ s size address w fits. m.reads s size address w fits;
      writes = λ s size address v w fits. m.writes s size address v w fits;
    }
