-- ===== src/OpRegion/Buffer.antt =====
-- core/opregion.c: bits of a byte buffer, `lai_buffer_put_at` and `lai_buffer_get_at`.
use lai.Base.{
  ℕ, zero, suc, ◌+◌, ◌-◌, ◌/◌, ◌%◌, min, bit_and, bit_or, true, false, List, set, ltb, u8, u64, shl,
  shr, Run, ok, panic, read, ◌>>=◌,
}
use lai.Bits.{ones}

-- `in_byte_offset`, and `access_size` of the bits from `progress` on.
abbrev pub in_byte : (bit_offset progress : ℕ) → ℕ
in_byte bit_offset progress = (bit_offset + progress) % 8

abbrev pub chunk : (bit_offset num_bits progress : ℕ) → ℕ
chunk bit_offset num_bits progress = min (num_bits - progress) (8 - in_byte bit_offset progress)

-- The byte after the bits of `value` from `progress` on have been added to it.
unfoldable pub put_byte : (byte value bit_offset num_bits progress : ℕ) → ℕ
put_byte byte value bit_offset num_bits progress = u8 (
    bit_or byte (
      shl (bit_and (shr value progress) (ones (chunk bit_offset num_bits progress)))
        (in_byte bit_offset progress)))

unfoldable pub buffer_put_at : ℕ → List ℕ → (value bit_offset num_bits progress : ℕ) → Run (List ℕ)
unfolding put_byte
buffer_put_at zero buffer value bit_offset num_bits progress = panic
buffer_put_at (suc fuel) buffer value bit_offset num_bits progress = elim (ltb progress num_bits) [
  | false ↦ ok buffer
  | true ↦
      let q = (bit_offset + progress) / 8 in
      read buffer q >>= λ byte.
      buffer_put_at fuel (set buffer q (put_byte byte value bit_offset num_bits progress)) value
        bit_offset num_bits (progress + chunk bit_offset num_bits progress)
]

-- The bits of a byte, at the place that they take in the value.
unfoldable pub get_bits : (byte bit_offset num_bits progress : ℕ) → ℕ
get_bits byte bit_offset num_bits progress = u64 (
    shl
      (bit_and (shr byte (in_byte bit_offset progress)) (ones (chunk bit_offset num_bits progress)))
      progress)

unfoldable pub buffer_get_at : ℕ → List ℕ → (bit_offset num_bits progress value : ℕ) → Run ℕ
unfolding get_bits
buffer_get_at zero buffer bit_offset num_bits progress value = panic
buffer_get_at (suc fuel) buffer bit_offset num_bits progress value = elim (ltb progress num_bits) [
  | false ↦ ok value
  | true ↦ read buffer ((bit_offset + progress) / 8) >>= λ byte.
      buffer_get_at fuel buffer bit_offset num_bits (progress + chunk bit_offset num_bits progress)
        (bit_or value (get_bits byte bit_offset num_bits progress))
]
