-- ===== src/OpRegion/FieldLoop.antt =====
-- core/opregion.c: the whole read of a field.
use native.Mathlib.Decide.{dec_lt}
use lai.Base.{
  ℕ, zero, suc, ◌+◌, ◌-◌, ◌*◌, ◌/◌, ◌%◌, ◌^◌, ◌≤◌, ◌<◌, ◌≡◌, refl, ap, ◌∙◌, bit_and, List, length,
  lt→ltb, le→ltb, shr, ok, ◌>>=◌, arith,
}
use lai.Bits.{bit, ones, bit_and-ones, bit-shr, bit-mod}
use lai.OpRegion.BufferBits.{buffer_put_at-Put}
use lai.OpRegion.Field.{
  Device, Field, bit_start, access_bits, shift_ok, read_loop, access_width, read_field_internal,
  first_offset,
}
use lai.OpRegion.FieldRead.{
  Width, IsMemory, access_lem, Filled, Put-Filled, Filled-append, first_offset_lem,
}

pub shift_ok_lem : (bits : ℕ) → bits < 64 → shift_ok bits ≡ ok tt
unfolding shift_ok
shift_ok_lem bits lt = rw (shift_ok, lt→ltb bits 64 lt) refl

-- The bits that an access yields.
pub taken_bits :
    (v start bits i : ℕ) → i < bits → bit (bit_and (shr v start) (ones bits)) i ≡ bit v (start + i)
taken_bits v start bits i lt =
    ap (λ (t : ℕ). bit t i) (bit_and-ones bits (shr v start))
    ∙ bit-mod (shr v start) bits i lt
    ∙ bit-shr v start i

module _ {S : Type 0} (device : Device S) (region : S → ℕ → ℕ) (limit : ℕ)
    (mem : IsMemory device region limit) (field : Field) (a : ℕ) (w : Width a)
    (room : field.fld_offset + field.fld_size + a ≤ limit + 1) where
  abbrev o : ℕ
  o = field.fld_offset

  abbrev n : ℕ
  n = field.fld_size

  read_loop_lem :
      (fuel : ℕ) (s : S) (dest : List ℕ) (offset p : ℕ)
      → p ≤ n
      → n < p + fuel
      → n ≤ 8 * length dest
      → (p < n → 8 * offset ≡ o + p - (o + p) % a)
      → (out : List ℕ) × (read_loop device field a fuel s dest offset p ≡ ok (out, s))
        × Filled dest out (λ j. region s (o + j)) p n
  unfolding read_loop
  read_loop_lem zero s dest offset p le fuel_left fits aligned = absurd (omega arith)
  read_loop_lem (suc fuel) s dest offset p le fuel_left fits aligned = elim (dec_lt p n) [
    | no done ↦ (
      dest,
      rw (read_loop, le→ltb p n (omega arith)) refl,
      record {
        size = refl;
        inside = λ i from below. absurd (omega arith);
        outside = λ j away. refl;
      },
    )
    | yes more ↦
        let acc = access_lem a o n p offset w more (aligned more) in
        let start = bit_start o a p in
        let bits = access_bits o n a p in
        let (v, got, vb) = mem.reads s a offset w (omega (arith, acc.begins)) in
        let value = bit_and (shr v start) (ones bits) in
        let (mid, put, f) = buffer_put_at-Put dest value p bits (omega (arith, acc.stops)) in
        let from_region = λ (i : ℕ) (lt : i < bits).
          taken_bits v start bits i lt
          ∙ vb (start + i) (omega (arith, acc.within))
          ∙ ap (region s) (omega (arith, acc.begins)) in
        let (out, run, g) =
          read_loop_lem fuel s mid (offset + a / 8) (p + bits) acc.stops
            (omega (arith, acc.some_bits)) (omega (arith, f.size)) acc.follows in
        (
          out,
          rw (read_loop, lt→ltb p n more, shift_ok_lem bits acc.few, ◌>>=◌, got, ◌>>=◌, put, ◌>>=◌)
              run,
          Filled-append dest mid out (λ j. region s (o + j)) p (p + bits) n (omega arith) acc.stops
              (Put-Filled dest mid value p bits (λ j. region s (o + j)) f from_region) g,
        )
  ]

  -- For a field accessed by 8, 16 or 32 bits in a region whose device is a memory of bits that
  -- reaches past the last access, and a buffer with room for the bits: lai_read_field_internal
  -- ends without a fault and without a change of the device, the first bits of the buffer become
  -- the or of what they were and the bits of the field, and no other bit of the buffer changes.
  pub read_field_internal-Filled :
      (s : S) (dest : List ℕ)
      → access_width field ≡ ok a
      → o < 2 ^ 64
      → n ≤ 8 * length dest
      → (out : List ℕ) × (read_field_internal device s dest field ≡ ok (out, s))
        × Filled dest out (λ j. region s (o + j)) 0 n
  unfolding read_field_internal
  read_field_internal-Filled s dest width small fits =
      let (out, run, f) =
        read_loop_lem (n + 1) s dest (first_offset o a) 0 (omega arith) (omega arith) fits
          (λ _. first_offset_lem a o w small) in
      (out, rw (read_field_internal, width, ◌>>=◌) run, f)
