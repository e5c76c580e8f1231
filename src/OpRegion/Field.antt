-- ===== src/OpRegion/Field.antt =====
-- core/opregion.c: fields. The hardware behind a region, or behind the index and data registers of
-- an index field, is a device: its reads and writes of so many bits at a byte offset, on a state.
use lai.Base.{
  ℕ, zero, suc, ◌+◌, ◌-◌, ◌/◌, ◌%◌, ◌^◌, min, bit_and, bit_or, Bool, true, false, List, ltb, leb,
  ◌==◌, if◌then◌else◌, ◌||◌, u32, u64, shl, shr, not64, Run, ok, panic, fault, ◌>>=◌, ◌>>◌,
}
use lai.Bits.{ones}
use lai.OpRegion.Buffer.{buffer_put_at, buffer_get_at}

pub record Device (S : Type 0) : Type 0 where
  pub read_bits : S → (access_size offset : ℕ) → Run (ℕ × S)
  pub write_bits : S → (access_size offset value : ℕ) → Run S

-- The fields of a node that describe a field, and whether its region lies in memory.
pub record Field : Type 0 where
  pub fld_offset : ℕ
  pub fld_size : ℕ
  pub fld_flags : ℕ
  pub in_memory : Bool

-- `32 - __builtin_clz(x)` by its bits: the number of digits of `x`.
unfoldable pub digit_count : ℕ → ℕ → ℕ
digit_count zero x = 0
digit_count (suc fuel) x = let rest = digit_count fuel (x / 2) in if x == 0 then 0 else rest + 1

-- The next power of 2. `__builtin_clz(0)` and a shift of an `int` by 31 or more are undefined.
unfoldable pub next_power : ℕ → Run ℕ
unfolding digit_count
next_power size =
    if ltb 1 size
    then (let digits = digit_count 32 (u32 (size - 1)) in
        if digits == 0 || leb 31 digits then fault else ok (2 ^ digits))
    else ok 1

unfoldable pub any_width : Bool → ℕ → ℕ
any_width in_memory access_size =
    let max_access_width = (if in_memory then 64 else 32) in
    let capped = min access_size max_access_width in if ltb capped 8 then 8 else capped

-- `lai_calculate_access_width`.
unfoldable pub access_width : Field → Run ℕ
unfolding next_power any_width
access_width field =
    let access = field.fld_flags % 16 in
    if access == 1
    then ok 8
    else if access == 2
    then ok 16
    else if access == 3
    then ok 32
    else if access == 4
    then ok 64
    else if access == 0
    then (next_power field.fld_size >>= λ size. ok (any_width field.in_memory size))
    else panic

-- The part of an access that a field takes from bit `progress` on: where it begins, and its bits.
abbrev pub bit_start : (fld_offset access_size progress : ℕ) → ℕ
bit_start fld_offset access_size progress = bit_and (fld_offset + progress) (access_size - 1)

abbrev pub access_bits : (fld_offset fld_size access_size progress : ℕ) → ℕ
access_bits fld_offset fld_size access_size progress =
    min (fld_size - progress) (access_size - bit_start fld_offset access_size progress)

-- `UINT64_C(1) << bits` is undefined from 64 on.
unfoldable pub shift_ok : ℕ → Run (Unit {0})
shift_ok bits = if ltb bits 64 then ok tt else fault

-- The value that is written: `value & ~mask | (new_val << bit_offset) & mask`.
unfoldable pub merge_bits : (value new_val start bits : ℕ) → ℕ
merge_bits value new_val start bits =
    let mask = u64 (shl (ones bits) start) in
    bit_or (bit_and value (not64 mask)) (bit_and (u64 (shl new_val start)) mask)

module _ {S : Type 0} (device : Device S) (field : Field) (access_size : ℕ) where
  open field use {fld_offset, fld_size, fld_flags}

  -- The loop of `lai_read_field_internal`.
  unfoldable pub read_loop : (fuel : ℕ) → S → List ℕ → (offset progress : ℕ) → Run (List ℕ × S)
  unfolding shift_ok
  read_loop zero s destination offset progress = panic
  read_loop (suc fuel) s destination offset progress = elim (ltb progress fld_size) [
    | false ↦ ok (destination, s)
    | true ↦
        let start = bit_start fld_offset access_size progress in
        let bits = access_bits fld_offset fld_size access_size progress in
        shift_ok bits >> device.read_bits s access_size offset >>= λ r.
        buffer_put_at (bits + 1) destination (bit_and (shr r.0 start) (ones bits)) progress bits 0
        >>= λ filled. read_loop fuel r.1 filled (offset + access_size / 8) (progress + bits)
  ]

  -- The bits around the field: what is there, ones or zeros, by the update rule of the field.
  unfoldable pub old_value : S → (offset : ℕ) → Run (ℕ × S)
  old_value s offset =
      let write_flag = fld_flags / 32 % 16 in
      if write_flag == 0
      then device.read_bits s access_size offset
      else if write_flag == 1
      then ok (2 ^ 64 - 1, s)
      else if write_flag == 2
      then ok (0, s)
      else panic

  -- The loop of `lai_write_field_internal`.
  unfoldable pub write_loop : (fuel : ℕ) → S → List ℕ → (offset progress : ℕ) → Run S
  unfolding shift_ok old_value merge_bits
  write_loop zero s source offset progress = panic
  write_loop (suc fuel) s source offset progress = elim (ltb progress fld_size) [
    | false ↦ ok s
    | true ↦
        let start = bit_start fld_offset access_size progress in
        let bits = access_bits fld_offset fld_size access_size progress in
        shift_ok bits >> old_value s offset >>= λ old.
        buffer_get_at (bits + 1) source progress bits 0 0 >>= λ new_val.
        device.write_bits old.1 access_size offset (merge_bits old.0 new_val start bits) >>= λ s'.
        write_loop fuel s' source (offset + access_size / 8) (progress + bits)
  ]

-- The byte offset of the first access.
abbrev pub first_offset : (fld_offset access_size : ℕ) → ℕ
first_offset fld_offset access_size = bit_and fld_offset (not64 (access_size - 1)) / 8

module _ {S : Type 0} (device : Device S) where
  unfoldable pub read_field_internal : S → List ℕ → Field → Run (List ℕ × S)
  unfolding access_width read_loop
  read_field_internal s destination field = do
    access_size ← access_width field
    read_loop device field access_size (field.fld_size + 1) s destination
        (first_offset field.fld_offset access_size) 0

  unfoldable pub write_field_internal : S → List ℕ → Field → Run S
  unfolding access_width write_loop
  write_field_internal s source field = do
    access_size ← access_width field
    write_loop device field access_size (field.fld_size + 1) s source
        (first_offset field.fld_offset access_size) 0
