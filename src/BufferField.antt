-- ===== src/BufferField.antt =====
-- core/exec-operand.c: `lai_write_buffer` and `lai_read_buffer`, the access to buffer fields. `data`
-- of the source is the content of the buffer, `n` counts the bits that are done.
pub mod Wrote
pub mod Field
use lai.Base.{
  ℕ, zero, suc, ◌+◌, ◌-◌, ◌/◌, ◌^◌, bit_and, bit_or, true, false, List, set, ltb, leb,
  if◌then◌else◌, not8, u64, shl, Run, ok, panic, fault, read, ◌>>=◌,
}
use lai.Bits.{ones}
use lai.OpRegion.Buffer.{in_byte, chunk, put_byte}

-- The byte without the bits that are overwritten.
unfoldable pub clear_byte : (byte offset size n : ℕ) → ℕ
clear_byte byte offset size n =
    bit_and byte (not8 (shl (ones (chunk offset size n)) (in_byte offset n)))

-- The loop of `lai_write_buffer`; a shift of the 64-bit value by 64 is a fault.
unfoldable pub write_rounds : ℕ → (bytes : List ℕ) (value offset size n : ℕ) → Run (List ℕ)
unfolding clear_byte put_byte
write_rounds zero bytes value offset size n = panic
write_rounds (suc fuel) bytes value offset size n = elim (ltb n size) [
  | false ↦ ok bytes
  | true ↦ elim (leb 64 n) [
    | true ↦ fault
    | false ↦
        let q = (offset + n) / 8 in
        read bytes q >>= λ byte.
        write_rounds fuel
          (set bytes q (put_byte (clear_byte byte offset size n) value offset size n)) value offset
          size (n + chunk offset size n)
  ]
]

-- `lai_write_buffer`, with a round per bit and one more.
unfoldable pub write_buffer_field : (bytes : List ℕ) (value offset size : ℕ) → Run (List ℕ)
unfolding write_rounds
write_buffer_field bytes value offset size = write_rounds (size + 1) bytes value offset size 0

-- The loop of `lai_read_buffer`, which takes the low bits of every byte.
unfoldable pub read_rounds : ℕ → (bytes : List ℕ) (offset size n integer : ℕ) → Run ℕ
read_rounds zero bytes offset size n integer = panic
read_rounds (suc fuel) bytes offset size n integer = elim (ltb n size) [
  | false ↦ ok integer
  | true ↦ elim (leb 64 n) [
    | true ↦ fault
    | false ↦ read bytes ((offset + n) / 8) >>= λ cur_byte.
        read_rounds fuel bytes offset size (n + chunk offset size n)
          (bit_or integer (u64 (shl (bit_and cur_byte (ones (chunk offset size n))) n)))
  ]
]

-- `lai_read_buffer`
unfoldable pub read_buffer_field : (bytes : List ℕ) (offset size : ℕ) → Run ℕ
unfolding read_rounds
read_buffer_field bytes offset size = read_rounds (size + 1) bytes offset size 0 0
