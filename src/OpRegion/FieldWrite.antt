-- ===== src/OpRegion/FieldWrite.antt =====
-- core/opregion.c: the whole write of a field whose other bits are preserved.
use native.Mathlib.Decide.{dec_lt}
use lai.Base.{
  ℕ, zero, suc, ◌+◌, ◌-◌, ◌*◌, ◌/◌, ◌%◌, ◌^◌, ◌≤◌, ◌<◌, ◌≡◌, ◌⊎◌, inl, inr, refl, sym, ap, ◌∙◌, max,
  List, length, lt→ltb, le→ltb, ok, ◌>>=◌, arith,
}
use lai.Bits.{bit}
use lai.OpRegion.Buffer.{buffer_get_at}
use lai.OpRegion.BufferBits.{buffer_bit, split_at}
use lai.OpRegion.BufferRead.{buffer_get_at-Got, zero_max}
use lai.OpRegion.Merge.{merge_bits_inside, merge_bits_outside}
use lai.OpRegion.Field.{
  Device, Field, bit_start, access_bits, old_value, merge_bits, write_loop, access_width,
  write_field_internal, read_field_internal, first_offset,
}
use lai.OpRegion.FieldRead.{Width, IsMemory, access_lem, first_offset_lem}
use lai.OpRegion.FieldLoop.{shift_ok_lem, read_field_internal-Filled}

-- The bits of a region from `lo` to `hi` have become those of a source, and no other bit changes.
pub record Written (before after source : ℕ → ℕ) (lo hi : ℕ) : Type 0 where
  pub inside : (j : ℕ) → lo ≤ j → j < hi → after j ≡ source j
  pub outside : (j : ℕ) → (j < lo) ⊎ (hi ≤ j) → after j ≡ before j

Written-append :
    (before mid after source : ℕ → ℕ) (lo m hi : ℕ)
    → lo ≤ m
    → m ≤ hi
    → Written before mid source lo m
    → Written mid after source m hi
    → Written before after source lo hi
Written-append before mid after source lo m hi lm mh f g = record {
  inside = λ j from below. elim (dec_lt j m) [
    | yes early ↦ g.outside j (inl early) ∙ f.inside j from early
    | no late ↦ g.inside j (omega arith) below
  ];
  outside = λ j away. elim away [
    | inl low ↦ g.outside j (inl (omega arith)) ∙ f.outside j (inl low)
    | inr high ↦ g.outside j (inr high) ∙ f.outside j (inr (omega arith))
  ];
}

-- One access of width `a` at `at`, of which the bits from `start` on are the new ones.
access-Written :
    (before after source : ℕ → ℕ) (at a start bits : ℕ) (merged old : ℕ)
    → start + bits ≤ a
    → ((i : ℕ) → i < a → after (at + i) ≡ bit merged i)
    → ((j : ℕ) → (j < at) ⊎ (at + a ≤ j) → after j ≡ before j)
    → ((i : ℕ) → i < a → bit old i ≡ before (at + i))
    → ((k : ℕ) → k < bits → bit merged (start + k) ≡ source (at + start + k))
    → ((i : ℕ) → i < a → (i < start) ⊎ (start + bits ≤ i) → bit merged i ≡ bit old i)
    → Written before after source (at + start) (at + start + bits)
access-Written before after source at a start bits merged old within new same was inner outer =
    record {
      inside = λ j from below.
          let (k, here) = split_at (at + start) j from in
          ap after (here ∙ (omega arith))
          ∙ new (start + k) (omega arith)
          ∙ inner k (omega arith)
          ∙ ap source (sym here);
      outside = λ j away. elim (dec_lt j at) [
        | yes low ↦ same j (inl low)
        | no more ↦ elim (dec_lt j (at + a)) [
          | no high ↦ same j (inr (omega arith))
          | yes within_access ↦
              let (i, here) = split_at at j (omega arith) in
              let side : (i < start) ⊎ (start + bits ≤ i) = elim away [
                | inl low ↦ inl (omega arith)
                | inr high ↦ inr (omega arith)
              ] in
              ap after here
              ∙ new i (omega arith)
              ∙ outer i (omega arith) side
              ∙ was i (omega arith)
              ∙ ap before (sym here)
        ]
      ];
    }

-- The bounds may be written in another way.
Written-at :
    (before after source : ℕ → ℕ) (lo hi lo' hi' : ℕ)
    → lo ≡ lo'
    → hi ≡ hi'
    → Written before after source lo hi
    → Written before after source lo' hi'
Written-at before after source lo hi lo' hi' e e' f = record {
  inside = λ j from below. f.inside j (omega arith) (omega arith);
  outside = λ j away. elim away [
    | inl low ↦ f.outside j (inl (omega arith))
    | inr high ↦ f.outside j (inr (omega arith))
  ];
}

Width-small : (a : ℕ) → Width a → a ≤ 32
Width-small a (inl e) = omega (arith, e)
Width-small a (inr (inl e)) = omega (arith, e)
Width-small a (inr (inr e)) = omega (arith, e)

module _ {S : Type 0} (device : Device S) (region : S → ℕ → ℕ) (limit : ℕ)
    (mem : IsMemory device region limit) (field : Field) (a : ℕ) (w : Width a)
    (room : field.fld_offset + field.fld_size + a ≤ limit + 1)
    (preserve : field.fld_flags / 32 % 16 ≡ 0) (src : List ℕ)
    (enough : field.fld_size ≤ 8 * length src) where
  abbrev o : ℕ
  o = field.fld_offset

  abbrev n : ℕ
  n = field.fld_size

  -- Where the new bits of the region come from.
  abbrev new_bits : ℕ → ℕ
  new_bits j = buffer_bit src (j - o)

  old_value_lem :
      (s : S) (offset : ℕ) → old_value device field a s offset ≡ device.read_bits s a offset
  unfolding old_value
  old_value_lem s offset = rw (old_value, preserve) refl

  -- One round of the loop.
  write_step :
      (s : S) (offset p : ℕ)
      → p < n
      → 8 * offset ≡ o + p - (o + p) % a
      → (v new_val : ℕ) × (out : S) × (old_value device field a s offset ≡ ok (v, s))
        × (buffer_get_at (access_bits o n a p + 1) src p (access_bits o n a p) 0 0 ≡ ok new_val)
        × (device.write_bits s a offset
              (merge_bits v new_val (bit_start o a p) (access_bits o n a p))
            ≡ ok out)
        × Written (region s) (region out) new_bits (o + p) (o + (p + access_bits o n a p))
  write_step s offset p more aligned =
      let acc = access_lem a o n p offset w more aligned in
      let start = bit_start o a p in
      let bits = access_bits o n a p in
      let limit_ok : 8 * offset + a ≤ limit = omega (arith, acc.begins) in
      let (v, got, vb) = mem.reads s a offset w limit_ok in
      let (new_val, get, g) =
        buffer_get_at-Got src p bits (omega (arith, acc.few)) (omega (arith, acc.stops)) in
      let merged = merge_bits v new_val start bits in
      let (out, wrote, inside, outside) = mem.writes s a offset merged w limit_ok in
      let fits : start + bits < 65 = omega (arith, acc.within, Width-small a w) in
      let done =
        access-Written (region s) (region out) new_bits (8 * offset) a start bits merged v
          acc.within inside outside vb
          (λ k lt.
            merge_bits_inside start bits fits v new_val k lt
            ∙ g.digits k lt
            ∙ ap (buffer_bit src) (omega (arith, acc.begins)))
          (λ i lt away.
            merge_bits_outside start bits fits v new_val i (omega (arith, Width-small a w)) away) in
      (
        v,
        new_val,
        out,
        old_value_lem s offset ∙ got,
        get,
        wrote,
        Written-at (region s) (region out) new_bits (8 * offset + start) (8 * offset + start + bits)
            (o + p) (o + (p + bits)) (omega (arith, acc.begins)) (omega (arith, acc.begins)) done,
      )

  write_loop_lem :
      (fuel : ℕ) (s : S) (offset p : ℕ)
      → p ≤ n
      → n < p + fuel
      → (p < n → 8 * offset ≡ o + p - (o + p) % a)
      → (out : S) × (write_loop device field a fuel s src offset p ≡ ok out)
        × Written (region s) (region out) new_bits (o + p) (o + n)
  unfolding write_loop
  write_loop_lem zero s offset p le fuel_left aligned = absurd (omega arith)
  write_loop_lem (suc fuel) s offset p le fuel_left aligned = elim (dec_lt p n) [
    | no done ↦ (
      s,
      rw (write_loop, le→ltb p n (omega arith)) refl,
      record { inside = λ j from below. absurd (omega arith); outside = λ j away. refl },
    )
    | yes more ↦
        let acc = access_lem a o n p offset w more (aligned more) in
        let bits = access_bits o n a p in
        let (v, new_val, mid, old, get, wrote, f) = write_step s offset p more (aligned more) in
        let (out, run, g) =
          write_loop_lem fuel mid (offset + a / 8) (p + bits) acc.stops
            (omega (arith, acc.some_bits)) acc.follows in
        (
          out,
          rw
              (
                write_loop,
                lt→ltb p n more,
                shift_ok_lem bits acc.few,
                ◌>>=◌,
                old,
                ◌>>=◌,
                get,
                ◌>>=◌,
                wrote,
                ◌>>=◌,
              )
              run,
          Written-append (region s) (region mid) (region out) new_bits (o + p) (o + (p + bits))
              (o + n) (omega arith) (omega (arith, acc.stops)) f g,
        )
  ]

  -- For a field accessed by 8, 16 or 32 bits, whose other bits are preserved, in a region whose
  -- device is a memory of bits that reaches past the last access, and a source that holds the
  -- bits: lai_write_field_internal ends without a fault, the bits of the region that belong to
  -- the field become those of the source, and no other bit of the region changes.
  pub write_field_internal-Written :
      (s : S)
      → access_width field ≡ ok a
      → o < 2 ^ 64
      → (out : S) × (write_field_internal device s src field ≡ ok out)
        × Written (region s) (region out) new_bits o (o + n)
  unfolding write_field_internal
  write_field_internal-Written s width small =
      let (out, run, f) =
        write_loop_lem (n + 1) s (first_offset o a) 0 (omega arith) (omega arith)
          (λ _. first_offset_lem a o w small) in
      (
        out,
        rw (write_field_internal, width, ◌>>=◌) run,
        Written-at (region s) (region out) new_bits (o + 0) (o + n) o (o + n) (omega arith) refl f,
      )

  -- A field that is written and read again: the buffer that was clear holds the bits of the source.
  pub read_field_internal-write_field_internal :
      (s : S) (dest : List ℕ)
      → access_width field ≡ ok a
      → o < 2 ^ 64
      → n ≤ 8 * length dest
      → ((i : ℕ) → i < n → buffer_bit dest i ≡ 0)
      → (out : List ℕ) × (after : S) × ((write_field_internal device s src field >>= λ t.
            read_field_internal device t dest field)
          ≡ ok (out, after))
        × ((i : ℕ) → i < n → buffer_bit out i ≡ buffer_bit src i)
  read_field_internal-write_field_internal s dest width small fits clear =
      let (after, wrote, f) = write_field_internal-Written s width small in
      let (out, read_, g) =
        read_field_internal-Filled device region limit mem field a w room after dest width small
          fits in
      (
        out,
        after,
        rw (wrote, ◌>>=◌) read_,
        λ i lt.
            g.inside i (omega arith) lt
            ∙ ap (λ (t : ℕ). max t (region after (o + i))) (clear i lt)
            ∙ zero_max (region after (o + i))
            ∙ f.inside (o + i) (omega arith) (omega arith)
            ∙ ap (buffer_bit src) (omega arith),
      )
