-- ===== src/Resource/Template.antt =====
-- helpers/resource.c: `lai_read_resource`, once the buffer of _CRS has been evaluated: the IRQs of a
-- resource template.
use lai.Base.{
  ℕ, zero, suc, ◌+◌, ◌-◌, ◌^◌, bit_and, true, false, ◌==◌, leb, if◌then◌else◌, List, [], ◌∷◌, ◌++◌,
  length, shr, Run, ok, panic, read, ◌>>=◌,
}
use lai.Resource.{small_irq, small_end, large_irq, small_edge, read_two, read_four}

-- `acpi_resource_t` of an IRQ.
pub record IrqResource : Type 0 where
  pub base : ℕ
  pub irq_flags : ℕ

-- The loop over the mask of a small descriptor.
unfoldable pub mask_irqs : ℕ → (irq_mask i irq_flags : ℕ) → Run (List IrqResource)
mask_irqs zero mask i flags = panic
mask_irqs (suc fuel) mask i flags = elim (mask == 0) [
  | true ↦ ok []
  | false ↦ elim (bit_and mask (2 ^ i) == 0) [
    | true ↦ mask_irqs fuel mask (i + 1) flags
    | false ↦ mask_irqs fuel (bit_and mask (2 ^ 16 - 1 - 2 ^ i)) (i + 1) flags >>= λ rest.
        ok (record { base = i; irq_flags = flags } ∷ rest)
  ]
]

-- The flags of a small descriptor with `data_size` bytes.
unfoldable pub small_flags : List ℕ → (at data_size : ℕ) → Run ℕ
small_flags crs at data_size = if leb 3 data_size then read crs (at + 3) else ok small_edge

-- The IRQ of a large descriptor: the first of its table.
unfoldable pub large_resource : List ℕ → (at : ℕ) → Run IrqResource
unfolding read_four
large_resource crs at = do
  base ← read_four crs (at + 5)
  flags ← read crs (at + 3)
  ok (record { base = base; irq_flags = flags })

-- The loop over the descriptors from `at` on: what has been written to `dest`, and the count that
-- is returned, which is 0 at a descriptor of another kind. Each descriptor is a byte at least, which
-- bounds the rounds.
unfoldable pub read_resources :
    ℕ → List ℕ → (at : ℕ) (dest : List IrqResource) → Run (ℕ × List IrqResource)
unfolding mask_irqs small_flags large_resource read_two
read_resources zero crs at dest = panic
read_resources (suc fuel) crs at dest = read crs at >>= λ b. elim (b == 0x79) [
  | true ↦ ok (length dest, dest)
  | false ↦ elim (bit_and b 0x80 == 0) [
    | true ↦ elim (shr b 3 == small_end) [
      | true ↦ ok (length dest, dest)
      | false ↦ elim (shr b 3 == small_irq) [
        | true ↦ read_two crs (at + 1) >>= λ mask. small_flags crs at (bit_and b 7) >>= λ flags.
            mask_irqs 17 mask 0 flags >>= λ irqs.
            read_resources fuel crs (at + (bit_and b 7 + 1)) (dest ++ irqs)
        | false ↦ ok (0, dest)
      ]
    ]
    | false ↦ read_two crs (at + 1) >>= λ data_size. elim (b == large_irq) [
      | true ↦ large_resource crs at >>= λ irq.
          read_resources fuel crs (at + (data_size + 3)) (dest ++ irq ∷ [])
      | false ↦ ok (0, dest)
    ]
  ]
]

-- `lai_read_resource` of the buffer.
unfoldable pub read_resource : List ℕ → Run (ℕ × List IrqResource)
unfolding read_resources
read_resource crs = read_resources (suc (length crs)) crs 0 []
