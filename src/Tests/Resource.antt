-- ===== src/Tests/Resource.antt =====
-- Tests of the resource iterator.
use lai.Base.{ApiError, ℕ, ◌≡◌, refl, List, [], ◌∷◌, ok, no_error, end_reached, arith}
use lai.Resource.{View, resource_iterate, resource_next_irq}
use lai.Resource.Template.{read_resource}
use lai.Resource.Irqs.{NextIrq, resource_next_irq-NextIrq}

-- IRQs 5, 7 and 10 with flags, a fixed block of 8 ports at 0x2F8, and the end.
abbrev crs : List ℕ
crs = 0x23 ∷ 0xA0 ∷ 0x04 ∷ 0x08 ∷ 0x4B ∷ 0xF8 ∷ 0x02 ∷ 0x08 ∷ 0x79 ∷ 0 ∷ []

abbrev at_irq : View
at_irq = record {
  entry = 0;
  skip_size = 4;
  entry_idx = 6;
  base = 0;
  length = 0;
  alignment = 0;
  flags = 8;
  gsi = 0;
}

resource_next_irq_example :
    (out : ApiError × View) × (resource_next_irq crs at_irq ≡ ok out) × NextIrq at_irq 0xA0 out
resource_next_irq_example =
    resource_next_irq-NextIrq crs at_irq 0x23 0xA0 0x04 refl refl refl (omega arith) refl
      (omega arith)

after_seven :
    resource_next_irq crs (record at_irq { entry_idx = 8 })
    ≡ ok (end_reached, record at_irq { entry_idx = 16 })
unfolding resource_next_irq
after_seven = refl

-- The older function finds IRQ 10 as well, but stops with 0 at the ports.
older :
    read_resource (0x23 ∷ 0xA0 ∷ 0x04 ∷ 0x08 ∷ 0x79 ∷ 0 ∷ [])
    ≡ ok (
      3,
      record { base = 5; irq_flags = 8 }
          ∷ record { base = 7; irq_flags = 8 }
          ∷ record { base = 10; irq_flags = 8 }
          ∷ [],
    )
unfolding read_resource
older = refl

ports :
    resource_iterate crs at_irq
    ≡ ok (no_error, record at_irq { entry = 4; base = 0x2F8; length = 8; skip_size = 4 })
unfolding resource_iterate
ports = refl
