-- ===== src/Resource.antt =====
-- helpers/resource.c, include/lai/helpers/resource.h: the resource descriptors of a device, as the
-- bytes of its _CRS buffer; an address is an offset in them, and a read past them is a fault.
pub mod Template
pub mod Irqs
use lai.Base.{
  ℕ, zero, suc, ◌+◌, ◌-◌, ◌*◌, ◌^◌, bit_and, bit_or, Bool, true, false, not, ◌==◌, leb, ltb,
  if◌then◌else◌, Option, none, some, List, [], ◌∷◌, ◌++◌, to_nat, u8, u32, shl, shr, Run, ok, panic,
  fault, read, ◌>>=◌, ApiError, no_error, end_reached, unexpected_result, illegal_arguments,
}

abbrev pub small_irq : ℕ
small_irq = 0x04

abbrev pub small_dma : ℕ
small_dma = 0x05

abbrev pub small_io : ℕ
small_io = 0x08

abbrev pub small_fixed_io : ℕ
small_fixed_io = 0x09

abbrev pub small_fixed_dma : ℕ
small_fixed_dma = 0x0A

abbrev pub small_vendor : ℕ
small_vendor = 0x0E

abbrev pub small_end : ℕ
small_end = 0x0F

abbrev pub large_mem24 : ℕ
large_mem24 = 0x81

abbrev pub large_register : ℕ
large_register = 0x82

abbrev pub large_mem32 : ℕ
large_mem32 = 0x85

abbrev pub large_fixed_mem32 : ℕ
large_fixed_mem32 = 0x86

abbrev pub large_irq : ℕ
large_irq = 0x89

-- `ACPI_SMALL_IRQ_EDGE_TRIGGERED`, `ACPI_SMALL_IRQ_ACTIVE_LOW` and those of extended descriptors.
abbrev pub small_edge : ℕ
small_edge = 0x01

abbrev pub small_active_low : ℕ
small_active_low = 0x08

abbrev pub extended_edge : ℕ
extended_edge = 0x02

abbrev pub extended_active_low : ℕ
extended_active_low = 0x04

-- Two and four bytes; four make an `int`, which is widened with its sign.
unfoldable pub read_two : List ℕ → ℕ → Run ℕ
read_two crs at = do a ← read crs at; b ← read crs (at + 1); ok (bit_or a (shl b 8))

unfoldable pub read_four : List ℕ → ℕ → Run ℕ
read_four crs at = do
  a ← read crs at
  b ← read crs (at + 1)
  c ← read crs (at + 2)
  d ← read crs (at + 3)
  ok (bit_or (bit_or (bit_or a (shl b 8)) (shl c 16)) (shl d 24))

abbrev pub widen : ℕ → ℕ
widen n = if ltb n (2 ^ 31) then n else n + (2 ^ 64 - 2 ^ 32)

-- `struct lai_resource_header_info`
pub record HeaderInfo : Type 0 where
  pub type : ℕ
  pub size : ℕ
  pub skip_size : ℕ

unfoldable pub get_header_info : List ℕ → (header_byte : ℕ) → Run HeaderInfo
unfolding read_two
get_header_info crs header_byte = read crs header_byte >>= λ b.
    if bit_and b (2 ^ 7) == 0
    then ok (record {
      type = bit_and (shr b 3) 0xF;
      size = bit_and b 0x7;
      skip_size = bit_and b 0x7 + 1;
    })
    else (read_two crs (header_byte + 1) >>= λ size.
        ok (record { type = b; size = size; skip_size = size + 3 }))

-- `struct lai_resource_view`, less the fields that no function uses.
pub record View : Type 0 where
  pub entry : ℕ
  pub skip_size : ℕ
  pub entry_idx : ℕ
  pub base : ℕ
  pub length : ℕ
  pub alignment : ℕ
  pub flags : ℕ
  pub gsi : ℕ

-- `lai_initialize_resource_view`
unfoldable pub initialize_resource_view : View
initialize_resource_view = record {
  entry = 0;
  skip_size = 0;
  entry_idx = 0;
  base = 0;
  length = 0;
  alignment = 0;
  flags = 0;
  gsi = 0;
}

-- The cases of `lai_resource_iterate`, at the view that has moved to the descriptor.
unfoldable pub iterate_fixed_io : List ℕ → HeaderInfo → View → Run (ApiError × View)
iterate_fixed_io crs info v = do
  low ← read crs (v.entry + 1)
  high ← read crs (v.entry + 2)
  size ← read crs (v.entry + 3)
  ok (
    no_error,
    record v {
      base = bit_or low (shl (bit_and high 0x3) 8);
      length = size;
      skip_size = info.skip_size;
    },
  )

unfoldable pub iterate_io : List ℕ → HeaderInfo → View → Run (ApiError × View)
unfolding read_two
iterate_io crs info v = do
  flags ← read crs (v.entry + 1)
  base ← read_two crs (v.entry + 2)
  alignment ← read crs (v.entry + 6)
  size ← read crs (v.entry + 7)
  ok (
    no_error,
    record v {
      flags = flags;
      base = base;
      alignment = alignment;
      length = size;
      skip_size = info.skip_size;
    },
  )

unfoldable pub iterate_small_irq : List ℕ → HeaderInfo → View → Run (ApiError × View)
iterate_small_irq crs info v =
    if info.size == 2
    then ok (no_error, record v { entry_idx = 0; flags = small_edge; skip_size = info.skip_size })
    else if info.size == 3
    then (read crs (v.entry + 3) >>= λ flags.
        ok (no_error, record v { entry_idx = 0; flags = flags; skip_size = info.skip_size }))
    else ok (unexpected_result, record v { entry_idx = 0 })

unfoldable pub iterate_fixed_mem32 : List ℕ → HeaderInfo → View → Run (ApiError × View)
unfolding read_four
iterate_fixed_mem32 crs info v = do
  flags ← read crs (v.entry + 3)
  base ← read_four crs (v.entry + 4)
  size ← read_four crs (v.entry + 8)
  ok (
    no_error,
    record v { flags = flags; base = base; length = widen size; skip_size = info.skip_size },
  )

-- `lai_resource_iterate`
unfoldable pub resource_iterate : List ℕ → View → Run (ApiError × View)
unfolding get_header_info iterate_fixed_io iterate_io iterate_small_irq iterate_fixed_mem32
resource_iterate crs iterator =
    let v = record iterator { entry = iterator.entry + iterator.skip_size } in
    get_header_info crs v.entry >>= λ info.
    if info.type == small_fixed_io
    then iterate_fixed_io crs info v
    else if info.type == small_io
    then iterate_io crs info v
    else if info.type == small_irq
    then iterate_small_irq crs info v
    else if info.type == small_end
    then ok (end_reached, record v { skip_size = info.skip_size })
    else if info.type == large_irq
    then (read crs (v.entry + 3) >>= λ flags.
        ok (no_error, record v { entry_idx = 0; flags = flags; skip_size = info.skip_size }))
    else if info.type == large_fixed_mem32
    then iterate_fixed_mem32 crs info v
    else ok (no_error, record v { skip_size = info.skip_size })

-- `enum lai_resource_type`
pub data ResourceType : Type 0 where
  resource_null irq dma io mem vendor register : ResourceType

unfoldable pub resource_type : (type : ℕ) → ResourceType
resource_type t =
    if t == small_irq
    then irq
    else if t == small_dma
    then dma
    else if t == small_io
    then io
    else if t == small_fixed_io
    then io
    else if t == small_fixed_dma
    then dma
    else if t == small_vendor
    then vendor
    else if t == small_end
    then resource_null
    else if t == large_mem24
    then mem
    else if t == large_register
    then register
    else if t == large_mem32
    then mem
    else if t == large_fixed_mem32
    then mem
    else if t == large_irq
    then irq
    else resource_null

unfoldable pub resource_get_type : List ℕ → View → Run ResourceType
unfolding get_header_info resource_type
resource_get_type crs v = get_header_info crs v.entry >>= λ info. ok (resource_type info.type)

-- `lai_resource_irq_is_level_triggered`
unfoldable pub irq_is_level_triggered : List ℕ → View → Run Bool
unfolding get_header_info
irq_is_level_triggered crs v = get_header_info crs v.entry >>= λ info.
    if info.type == small_irq
    then (if ltb info.size 3
        then ok false
        else (read crs (v.entry + 3) >>= λ config. ok (bit_and config small_edge == 0)))
    else if info.type == large_irq
    then (read crs (v.entry + 3) >>= λ config. ok (bit_and config extended_edge == 0))
    else panic

-- `lai_resource_irq_is_active_low`
unfoldable pub irq_is_active_low : List ℕ → View → Run Bool
unfolding get_header_info
irq_is_active_low crs v = get_header_info crs v.entry >>= λ info.
    if info.type == small_irq
    then (if ltb info.size 3
        then ok false
        else (read crs (v.entry + 3) >>= λ config. ok (not (bit_and config small_active_low == 0))))
    else if info.type == large_irq
    then (read crs (v.entry + 3) >>= λ config. ok (not (bit_and config extended_active_low == 0)))
    else panic

-- The loop of `lai_resource_next_irq` over the mask of a small descriptor, with `left` places to go:
-- the place that is set, if there is one, and the index after it.
unfoldable pub next_set : (left : ℕ) (irq_mask entry_idx : ℕ) → Option ℕ × ℕ
next_set zero mask i = (none, i)
next_set (suc left) mask i = elim (bit_and mask (2 ^ i) == 0) [
  | true ↦ next_set left mask (i + 1)
  | false ↦ (some i, i + 1)
]

abbrev pub small_answer : View → Option ℕ × ℕ → ApiError × View
small_answer v (some gsi, i) = (no_error, record v { gsi = gsi; entry_idx = i })
small_answer v (none, i) = (end_reached, record v { entry_idx = i })

-- `lai_resource_next_irq`; the mask of a small descriptor and the offset in a large one are cut to
-- their variables of 8 bits.
unfoldable pub resource_next_irq : List ℕ → View → Run (ApiError × View)
unfolding get_header_info read_two read_four next_set
resource_next_irq crs v = get_header_info crs v.entry >>= λ info.
    if info.type == small_irq
    then (read_two crs (v.entry + 1) >>= λ mask.
        ok (small_answer v (next_set (16 - v.entry_idx) (u8 mask) v.entry_idx)))
    else if info.type == large_irq
    then (read crs (v.entry + 4) >>= λ table_length.
        if ltb v.entry_idx table_length
        then (read_four crs (v.entry + u8 (4 * v.entry_idx + 5)) >>= λ gsi.
            ok (no_error, record v { gsi = gsi; entry_idx = v.entry_idx + 1 }))
        else ok (end_reached, v))
    else ok (illegal_arguments, v)
