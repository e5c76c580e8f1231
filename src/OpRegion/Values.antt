-- ===== src/OpRegion/Values.antt =====
-- core/opregion.c: fields as AML values, and the kinds of fields.
use lai.Base.{
  ℕ, zero, suc, ◌+◌, ◌*◌, ◌/◌, bit_and, bit_or, Bool, List, [], ◌∷◌, replicate, ltb, u8, u64, shl,
  shr, if◌then◌else◌, Run, ok, panic, fault, ◌>>=◌,
}
use lai.OpRegion.Field.{Device, Field, read_field_internal, write_field_internal}

-- The types of AML values that fields are read into and written from.
pub data Value : Type 0 where
  integer : ℕ → Value
  buffer string : List ℕ → Value
  other : Value

-- `value |= (uint64_t)buf[i] << (i * 8)` for the bytes from index `i` on.
unfoldable pub gather_bytes : List ℕ → (i value : ℕ) → ℕ
gather_bytes [] i value = value
gather_bytes (b ∷ buf) i value = gather_bytes buf (i + 1) (bit_or value (u64 (shl (u8 b) (i * 8))))

-- `buf[i] = (source->integer >> (i * 8)) & 0xFF` for the bytes from index `i` on.
unfoldable pub spread_bytes : (count i n : ℕ) → List ℕ
spread_bytes zero i n = []
spread_bytes (suc count) i n = bit_and (shr n (i * 8)) 0xFF ∷ spread_bytes count (i + 1) n

module _ {S : Type 0} (device : Device S) where
  -- `lai_read_field`; the allocation of a large buffer is not checked there.
  unfoldable pub read_field : Bool → S → Field → Run (Value × S)
  unfolding gather_bytes
  read_field room s field =
      let bytes = (field.fld_size + 7) / 8 in
      read_field_internal device s (replicate bytes 0) field >>= λ r.
      if ltb 8 bytes
      then (if room then ok (buffer r.0, r.1) else fault)
      else ok (integer (gather_bytes r.0 0 0), r.1)

  -- `lai_write_field`.
  unfoldable pub write_field : S → Field → Value → Run S
  unfolding spread_bytes
  write_field s field (buffer content) = write_field_internal device s content field
  write_field s field (string content) = write_field_internal device s content field
  write_field s field (integer n) = write_field_internal device s (spread_bytes 8 0 n) field
  write_field s field other = panic

-- The nodes of fields: in a region, in a bank of it, or behind index and data registers.
pub data FieldNode (S : Type 0) : Type 0 where
  plain_field : Device S → Field → FieldNode S
  bank_field : (bank_node : FieldNode S) (bank_value : ℕ) → Device S → Field → FieldNode S
  index_field : (index_node data_node : FieldNode S) → Field → FieldNode S

module _ {S : Type 0} where
  abbrev pub field_of : FieldNode S → Field
  field_of (plain_field device field) = field
  field_of (bank_field bank_node bank_value device field) = field
  field_of (index_field index_node data_node field) = field

  -- `LAI_ENSURE(dest.type == LAI_INTEGER)`.
  unfoldable pub expect_integer : Value × S → Run (ℕ × S)
  expect_integer (integer n, s) = ok (n, s)
  expect_integer (buffer content, s) = panic
  expect_integer (string content, s) = panic
  expect_integer (other, s) = panic

  -- The hardware of a node: that of its region, or `lai_perform_indexfield_read` and `_write`.
  unfoldable pub device_of : Bool → FieldNode S → Device S
  unfolding expect_integer read_field write_field
  device_of room (plain_field device field) = device
  device_of room (bank_field bank_node bank_value device field) = device
  device_of room (index_field index_node data_node field) =
      let index_device = device_of room index_node in
      let data_device = device_of room data_node in
      record {
        read_bits = λ s access_size offset.
            write_field index_device s (field_of index_node) (integer offset) >>= λ t.
            read_field data_device room t (field_of data_node) >>= expect_integer;
        write_bits = λ s access_size offset value.
            write_field index_device s (field_of index_node) (integer offset) >>= λ t.
            write_field data_device t (field_of data_node) (integer value);
      }

  -- The bank is chosen before the access: `lai_read_bankfield` and `lai_write_bankfield`.
  unfoldable pub choose_bank : Bool → S → FieldNode S → Run S
  unfolding device_of
  choose_bank room s (plain_field device field) = ok s
  choose_bank room s (index_field index_node data_node field) = ok s
  choose_bank room s (bank_field bank_node bank_value device field) =
      write_field (device_of room bank_node) s (field_of bank_node) (integer bank_value)

  unfoldable pub read_opregion : Bool → S → FieldNode S → Run (Value × S)
  unfolding choose_bank read_field device_of
  read_opregion room s node =
      choose_bank room s node >>= λ t. read_field (device_of room node) room t (field_of node)

  unfoldable pub write_opregion : Bool → S → FieldNode S → Value → Run S
  unfolding choose_bank write_field device_of
  write_opregion room s node source =
      choose_bank room s node >>= λ t. write_field (device_of room node) t (field_of node) source
