-- ===== src/OpRegion/RoundTrip.antt =====
-- core/opregion.c: an integer that is written to a field of at most 64 bits is read back.
use native.Mathlib.Nat.{one-le-pow, mod-lt}
use native.Mathlib.Decide.{dec_lt}
use lai.Base.{
  ℕ, ◌+◌, ◌*◌, ◌/◌, ◌%◌, ◌^◌, ◌≤◌, ◌<◌, ◌≡◌, inr, refl, sym, ap, ◌∙◌, max, Bool, List, length,
  replicate, get_or-replicate, length-replicate, ok, ◌>>=◌, arith, le→ltb,
}
use lai.Bits.{bit, bit-zero, bit-mod, bit-past, bit_ext}
use lai.OpRegion.BufferBits.{buffer_bit, split_at}
use lai.OpRegion.BufferRead.{pow_mono, zero_max}
use lai.OpRegion.Field.{Device, Field, access_width}
use lai.OpRegion.FieldRead.{Width, IsMemory}
use lai.OpRegion.FieldLoop.{read_field_internal-Filled}
use lai.OpRegion.FieldWrite.{write_field_internal-Written}
use lai.OpRegion.Values.{integer, gather_bytes, spread_bytes, read_field, write_field}
use lai.OpRegion.Integers.{spread_length, spread_bit, Gathered, gather_lem}

zeros_bit : (count j : ℕ) → buffer_bit (replicate count 0) j ≡ 0
zeros_bit count j =
    ap (λ (t : ℕ). bit t (j % 8)) (get_or-replicate count (j / 8) 0) ∙ bit-zero (j % 8)

-- The bits of a value below `2 ^ n`, from `n` on.
mod_past : (v n i : ℕ) → n ≤ i → bit (v % 2 ^ n) i ≡ 0
mod_past v n i le = bit-past (v % 2 ^ n) n i (mod-lt v (omega (arith, one-le-pow n 2))) le

-- The integer that is gathered from a buffer that has the bits of `v` below `n` and no others.
Gathered-value :
    (out : List ℕ) (v n r : ℕ)
    → Gathered out 0 0 r
    → n ≤ 8 * length out
    → ((i : ℕ) → i < n → buffer_bit out i ≡ bit v i)
    → ((i : ℕ) → n ≤ i → buffer_bit out i ≡ 0)
    → r ≡ v % 2 ^ n
Gathered-value out v n r g fits inside outside =
    let (more, total) = split_at n (8 * (0 + length out)) (omega arith) in
    bit_ext (8 * (0 + length out)) r (v % 2 ^ n) g.bounded
      (rw total
        (omega (arith, mod-lt v {m = 2 ^ n} (omega (arith, one-le-pow n 2)), pow_mono n more)))
      (λ i lt.
        let at : i ≡ 8 * 0 + i = omega arith in
        ap (bit r) at ∙ g.high i (omega arith) ∙ elim (dec_lt i n) [
          | yes low ↦ inside i low ∙ sym (bit-mod v n i low)
          | no high ↦ outside i (omega arith) ∙ sym (mod_past v n i (omega arith))
        ])

module _ {S : Type 0} (device : Device S) (region : S → ℕ → ℕ) (limit : ℕ)
    (mem : IsMemory device region limit) (field : Field) (a : ℕ) (w : Width a)
    (room : field.fld_offset + field.fld_size + a ≤ limit + 1)
    (preserve : field.fld_flags / 32 % 16 ≡ 0) where
  -- Take a field of at most 64 bits, accessed by 8, 16 or 32 bits, whose other bits are
  -- preserved, in a region whose device is a memory of bits that reaches past the last access.
  -- Then lai_write_field of an integer followed by lai_read_field ends without a fault and
  -- returns the integer modulo two to the size of the field.
  pub read_field-write_field :
      (allocates : Bool) (s : S) (v : ℕ)
      → access_width field ≡ ok a
      → field.fld_offset < 2 ^ 64
      → field.fld_size ≤ 64
      → (after : S) × ((write_field device s field (integer v) >>= λ t.
            read_field device allocates t field)
          ≡ ok (integer (v % 2 ^ field.fld_size), after))
  unfolding read_field write_field
  read_field-write_field allocates s v width small few =
      let n = field.fld_size in
      let o = field.fld_offset in
      let src = spread_bytes 8 0 v in
      let bytes = (n + 7) / 8 in
      let dest : List ℕ = replicate bytes 0 in
      let (after, wrote, f) =
        write_field_internal-Written device region limit mem field a w room preserve src
          (omega (arith, spread_length 8 0 v)) s width small in
      let (out, read_, g) =
        read_field_internal-Filled device region limit mem field a w room after dest width small
          (omega (arith, length-replicate {A = ℕ} bytes 0)) in
      let size : length out ≡ bytes = g.size ∙ length-replicate {A = ℕ} bytes 0 in
      let value =
        Gathered-value out v n (gather_bytes out 0 0)
          (gather_lem out 0 0 (omega arith) (omega arith)) (omega arith)
          (λ i lt.
            g.inside i (omega arith) lt
            ∙ ap (λ (t : ℕ). max t (region after (o + i))) (zeros_bit bytes i)
            ∙ zero_max (region after (o + i))
            ∙ f.inside (o + i) (omega arith) (omega arith)
            ∙ ap (buffer_bit src) (omega arith)
            ∙ spread_bit v i (omega arith))
          (λ i le. g.outside i (inr le) ∙ zeros_bit bytes i) in
      (
        after,
        rw
            (
              write_field,
              wrote,
              ◌>>=◌,
              read_field,
              read_,
              ◌>>=◌,
              le→ltb 8 bytes (omega arith),
              value,
            )
            refl,
      )
