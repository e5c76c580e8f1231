-- ===== src/OpRegion/Merge.antt =====
-- core/opregion.c: the value that `lai_write_field_internal` writes, bit by bit.
use native.Mathlib.Nat.{pow-suc, one-le-pow}
use lai.Base.{
  ℕ, zero, suc, ◌+◌, ◌-◌, ◌/◌, ◌^◌, ◌≤◌, ◌<◌, ◌≡◌, ◌⊎◌, inl, inr, ap, ◌∙◌, bit_and, u64, shl, not64,
  arith,
}
use lai.Bits.{
  bit, bit-lt, bit-bit_and, bit-bit_or, bit-shl, bit-shl_low, bit-mod, bit-past, bit-ones, ones,
}
use lai.OpRegion.BufferBits.{split_at}
use lai.OpRegion.Field.{merge_bits}

-- The digits of a complement.
bit-complement : (k x i : ℕ) → x < 2 ^ k → i < k → bit (2 ^ k - 1 - x) i ≡ 1 - bit x i
unfolding bit
bit-complement zero x i lt le = absurd (omega arith)
bit-complement (suc k) x zero lt le = omega (arith, pow-suc 2 k)
bit-complement (suc k) x (suc i) lt le =
    let halves : (2 ^ suc k - 1 - x) / 2 ≡ 2 ^ k - 1 - x / 2 = omega (arith, pow-suc 2 k) in
    rw halves (bit-complement k (x / 2) i (omega (arith, pow-suc 2 k)) (omega arith))

bit-not64 : (x i : ℕ) → i < 64 → bit (not64 (u64 x)) i ≡ 1 - bit (u64 x) i
bit-not64 x i lt = bit-complement 64 (u64 x) i (omega arith) lt

module _ (start bits : ℕ) (fits : start + bits < 65) where
  mask_inside : (j : ℕ) → j < bits → bit (u64 (shl (ones bits) start)) (start + j) ≡ 1
  mask_inside j lt =
      bit-mod (shl (ones bits) start) 64 (start + j) (omega arith)
      ∙ bit-shl (ones bits) start j
      ∙ bit-ones bits j lt

  mask_outside :
      (i : ℕ) → i < 64 → (i < start) ⊎ (start + bits ≤ i) → bit (u64 (shl (ones bits) start)) i ≡ 0
  mask_outside i lt (inl low) =
      bit-mod (shl (ones bits) start) 64 i lt ∙ bit-shl_low (ones bits) start i low
  mask_outside i lt (inr high) =
      let (j, at) = split_at start i (omega arith) in
      bit-mod (shl (ones bits) start) 64 i lt
      ∙ ap (bit (shl (ones bits) start)) at
      ∙ bit-shl (ones bits) start j
      ∙ bit-past (ones bits) bits j (omega (arith, one-le-pow bits 2)) (omega arith)

  -- The merged value has the new bits inside the mask and the old ones outside.
  pub merge_bits_inside :
      (old new_val j : ℕ)
      → j < bits
      → bit (merge_bits old new_val start bits) (start + j) ≡ bit new_val j
  unfolding merge_bits
  merge_bits_inside old new_val j lt =
      let mask = u64 (shl (ones bits) start) in
      let here = mask_inside j lt in
      let cleared = bit-not64 (shl (ones bits) start) (start + j) (omega arith) in
      let placed : bit (u64 (shl new_val start)) (start + j) ≡ bit new_val j =
        bit-mod (shl new_val start) 64 (start + j) (omega arith) ∙ bit-shl new_val start j in
      omega (
        arith,
        bit-bit_or (bit_and old (not64 mask)) (bit_and (u64 (shl new_val start)) mask) (start + j),
        bit-bit_and old (not64 mask) (start + j),
        bit-bit_and (u64 (shl new_val start)) mask (start + j),
        here,
        cleared,
        placed,
        bit-lt new_val j,
      )

  pub merge_bits_outside :
      (old new_val i : ℕ)
      → i < 64
      → (i < start) ⊎ (start + bits ≤ i)
      → bit (merge_bits old new_val start bits) i ≡ bit old i
  unfolding merge_bits
  merge_bits_outside old new_val i lt away =
      let mask = u64 (shl (ones bits) start) in
      let here = mask_outside i lt away in
      let kept = bit-not64 (shl (ones bits) start) i lt in
      omega (
        arith,
        bit-bit_or (bit_and old (not64 mask)) (bit_and (u64 (shl new_val start)) mask) i,
        bit-bit_and old (not64 mask) i,
        bit-bit_and (u64 (shl new_val start)) mask i,
        here,
        kept,
        bit-lt old i,
        bit-lt (u64 (shl new_val start)) i,
      )
