-- ===== src/OpRegion/FieldRead.antt =====
-- core/opregion.c: what `lai_read_field_internal` reads.
use mathlib.Core.Path.{subst}
use native.Mathlib.Decide.{dec_lt}
use lai.Base.{
  ℕ, ◌+◌, ◌-◌, ◌*◌, ◌/◌, ◌%◌, ◌^◌, ◌≤◌, ◌<◌, ◌≡◌, ◌⊎◌, inl, inr, refl, sym, ap, ap₂, ◌∙◌, max,
  bit_and, List, length, ok, arith,
}
use lai.Bits.{bit, bit_and-ones, bit_and-align}
use lai.OpRegion.BufferBits.{buffer_bit, Put, split_at}
use lai.OpRegion.Field.{Device, bit_start, access_bits, first_offset}

-- The access widths at which no shift is undefined.
abbrev pub Width : ℕ → Type 0
Width a = (a ≡ 8) ⊎ (a ≡ 16) ⊎ (a ≡ 32)

-- Masking by the width less one is the remainder.
pub Width-mask : (a x : ℕ) → Width a → bit_and x (a - 1) ≡ x % a
Width-mask a x (inl e) = rw e (bit_and-ones 3 x)
Width-mask a x (inr (inl e)) = rw e (bit_and-ones 4 x)
Width-mask a x (inr (inr e)) = rw e (bit_and-ones 5 x)

-- A device that is a memory of bits: a read of 8, 16 or 32 bits that lie in it gives those bits
-- and changes nothing, a write sets those bits and no other.
pub record IsMemory {S : Type 0} (device : Device S) (region : S → ℕ → ℕ) (limit : ℕ) : Type 0 where
  pub reads :
      (s : S) (size offset : ℕ)
      → Width size
      → 8 * offset + size ≤ limit
      → (v : ℕ) × (device.read_bits s size offset ≡ ok (v, s))
        × ((i : ℕ) → i < size → bit v i ≡ region s (8 * offset + i))
  pub writes :
      (s : S) (size offset v : ℕ)
      → Width size
      → 8 * offset + size ≤ limit
      → (out : S) × (device.write_bits s size offset v ≡ ok out)
        × ((i : ℕ) → i < size → region out (8 * offset + i) ≡ bit v i)
        × ((j : ℕ) → (j < 8 * offset) ⊎ (8 * offset + size ≤ j) → region out j ≡ region s j)

-- Where the access from bit `p` of a field on lies.
pub record Access (a o n p offset : ℕ) : Type 0 where
  pub begins : 8 * offset + bit_start o a p ≡ o + p
  pub some_bits : 0 < access_bits o n a p
  pub few : access_bits o n a p < 64
  pub stops : p + access_bits o n a p ≤ n
  pub within : bit_start o a p + access_bits o n a p ≤ a
  pub follows :
      p + access_bits o n a p < n
      → 8 * (offset + a / 8) ≡ o + (p + access_bits o n a p) - (o + (p + access_bits o n a p)) % a

Access-8 : (o n p offset : ℕ) → p < n → 8 * offset ≡ o + p - (o + p) % 8 → Access 8 o n p offset
Access-8 o n p offset lt e = record {
  begins = omega (arith, Width-mask 8 (o + p) (inl refl));
  some_bits = omega (arith, Width-mask 8 (o + p) (inl refl));
  few = omega (arith, Width-mask 8 (o + p) (inl refl));
  stops = omega arith;
  within = omega (arith, Width-mask 8 (o + p) (inl refl));
  follows = λ more. omega (arith, Width-mask 8 (o + p) (inl refl));
}

Access-16 : (o n p offset : ℕ) → p < n → 8 * offset ≡ o + p - (o + p) % 16 → Access 16 o n p offset
Access-16 o n p offset lt e = record {
  begins = omega (arith, Width-mask 16 (o + p) (inr (inl refl)));
  some_bits = omega (arith, Width-mask 16 (o + p) (inr (inl refl)));
  few = omega (arith, Width-mask 16 (o + p) (inr (inl refl)));
  stops = omega arith;
  within = omega (arith, Width-mask 16 (o + p) (inr (inl refl)));
  follows = λ more. omega (arith, Width-mask 16 (o + p) (inr (inl refl)));
}

Access-32 : (o n p offset : ℕ) → p < n → 8 * offset ≡ o + p - (o + p) % 32 → Access 32 o n p offset
Access-32 o n p offset lt e = record {
  begins = omega (arith, Width-mask 32 (o + p) (inr (inr refl)));
  some_bits = omega (arith, Width-mask 32 (o + p) (inr (inr refl)));
  few = omega (arith, Width-mask 32 (o + p) (inr (inr refl)));
  stops = omega arith;
  within = omega (arith, Width-mask 32 (o + p) (inr (inr refl)));
  follows = λ more. omega (arith, Width-mask 32 (o + p) (inr (inr refl)));
}

pub access_lem :
    (a o n p offset : ℕ)
    → Width a
    → p < n
    → 8 * offset ≡ o + p - (o + p) % a
    → Access a o n p offset
access_lem a o n p offset (inl w) lt e =
    subst (λ (t : ℕ). Access t o n p offset) (sym w)
      (Access-8 o n p offset lt (e ∙ ap (λ (t : ℕ). o + p - (o + p) % t) w))
access_lem a o n p offset (inr (inl w)) lt e =
    subst (λ (t : ℕ). Access t o n p offset) (sym w)
      (Access-16 o n p offset lt (e ∙ ap (λ (t : ℕ). o + p - (o + p) % t) w))
access_lem a o n p offset (inr (inr w)) lt e =
    subst (λ (t : ℕ). Access t o n p offset) (sym w)
      (Access-32 o n p offset lt (e ∙ ap (λ (t : ℕ). o + p - (o + p) % t) w))

-- A buffer whose bits from `p` to `e` have taken those of a source, by `|`.
pub record Filled (buffer out : List ℕ) (source : ℕ → ℕ) (p e : ℕ) : Type 0 where
  pub size : length out ≡ length buffer
  pub inside : (i : ℕ) → p ≤ i → i < e → buffer_bit out i ≡ max (buffer_bit buffer i) (source i)
  pub outside : (j : ℕ) → (j < p) ⊎ (e ≤ j) → buffer_bit out j ≡ buffer_bit buffer j

-- The bits of a value that come from a source, put at `p`.
pub Put-Filled :
    (buffer out : List ℕ) (value p bits : ℕ) (source : ℕ → ℕ)
    → Put buffer out value p 0 bits
    → ((i : ℕ) → i < bits → bit value i ≡ source (p + i))
    → Filled buffer out source p (p + bits)
Put-Filled buffer out value p bits source f g = record {
  size = f.size;
  inside = λ i from below.
      let (k, at) = split_at p i from in
      ap (buffer_bit out) at
      ∙ f.inside k (omega arith) (omega arith)
      ∙ ap₂ max (ap (buffer_bit buffer) (sym at)) (g k (omega arith) ∙ ap source (sym at));
  outside = λ j away. elim away [
    | inl low ↦ f.outside j (inl (omega arith))
    | inr high ↦ f.outside j (inr high)
  ];
}

pub Filled-append :
    (buffer mid out : List ℕ) (source : ℕ → ℕ) (p q e : ℕ)
    → p ≤ q
    → q ≤ e
    → Filled buffer mid source p q
    → Filled mid out source q e
    → Filled buffer out source p e
Filled-append buffer mid out source p q e pq qe f g = record {
  size = g.size ∙ f.size;
  inside = λ i from below. elim (dec_lt i q) [
    | yes early ↦ g.outside i (inl early) ∙ f.inside i from early
    | no late ↦
        g.inside i (omega arith) below
        ∙ ap (λ (t : ℕ). max t (source i)) (f.outside i (inr (omega arith)))
  ];
  outside = λ j away. elim away [
    | inl low ↦ g.outside j (inl (omega arith)) ∙ f.outside j (inl low)
    | inr high ↦ g.outside j (inr high) ∙ f.outside j (inr (omega arith))
  ];
}

-- The first access begins at the width below the field.
pub first_offset_lem : (a o : ℕ) → Width a → o < 2 ^ 64 → 8 * first_offset o a ≡ o + 0 - (o + 0) % a
first_offset_lem a o (inl w) lt = rw w (omega (arith, bit_and-align 3 61 o lt))
first_offset_lem a o (inr (inl w)) lt = rw w (omega (arith, bit_and-align 4 60 o lt))
first_offset_lem a o (inr (inr w)) lt = rw w (omega (arith, bit_and-align 5 59 o lt))
