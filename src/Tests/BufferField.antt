-- ===== src/Tests/BufferField.antt =====
-- Tests of buffer fields.
use lai.Base.{ℕ, ◌≡◌, refl, List, [], ◌∷◌, ok, arith}
use lai.BufferField.{write_buffer_field, read_buffer_field}
use lai.BufferField.Wrote.{Wrote}
use lai.BufferField.Field.{write_buffer_field-Wrote}

abbrev all_ones : List ℕ
all_ones = 0xFF ∷ 0xFF ∷ 0xFF ∷ []

write_buffer_field_example :
    (out : List ℕ) × (write_buffer_field all_ones 0x20 4 12 ≡ ok out)
    × Wrote all_ones out 0x20 4 0 12
write_buffer_field_example = write_buffer_field-Wrote all_ones 0x20 4 12 (omega arith) (omega arith)

written : write_buffer_field all_ones 0x20 4 12 ≡ ok (0x0F ∷ 0x02 ∷ 0xFF ∷ [])
unfolding write_buffer_field
written = refl

-- A field that does not start at a byte: 0x20 was written, and 0x2F is read.
misread : read_buffer_field (0x0F ∷ 0x02 ∷ 0xFF ∷ []) 4 12 ≡ ok 0x2F
unfolding read_buffer_field
misread = refl

aligned : read_buffer_field (0x34 ∷ 0x12 ∷ 0xFF ∷ []) 0 12 ≡ ok 0x234
unfolding read_buffer_field
aligned = refl
