-- ===== src/OpRegion/BufferRead.antt =====
-- core/opregion.c: what `lai_buffer_get_at` reads.
use mathlib.Core.Path.{subst}
use native.Mathlib.Nat.{pow-suc, one-le-pow, mod-lt, mul-lt-mul_of_pos_right}
use native.Mathlib.Decide.{dec_lt}
use lai.Base.{
  ℕ, zero, suc, ◌+◌, ◌*◌, ◌/◌, ◌%◌, ◌^◌, ◌≤◌, ◌<◌, ◌≡◌, refl, sym, ap, ap₂, ◌∙◌, max, bit_and,
  bit_or, List, length, get_or, read-eq-ok, arith, lt→ltb, le→ltb, u64, shl, shr, ok, ◌>>=◌,
}
use lai.Bits.{bit, bit-bit_or, bit-shr, bit-mod, bit-past, bit_or-lt, bit_ext, ones, bit_and-ones}
use lai.OpRegion.Buffer.{in_byte, chunk, get_bits, buffer_get_at, buffer_put_at}
use lai.OpRegion.BufferBits.{
  buffer_bit, pow_add, digit_inside, digit_below, split_at, buffer_put_at-Put,
}

pub zero_max : (x : ℕ) → max 0 x ≡ x
zero_max x = omega arith

pub pow_mono : (p a : ℕ) → 2 ^ p ≤ 2 ^ (p + a)
pow_mono p zero = let same : p + 0 ≡ p = omega arith in rw same (omega arith)
pow_mono p (suc a) =
    let next : p + suc a ≡ suc (p + a) = omega arith in
    rw (next, pow-suc 2 (p + a)) (omega (arith, pow_mono p a))

-- A chunk of `a` bits at place `p` stays below `2 ^ (p + a)`.
chunk-lt : (x a p : ℕ) → u64 (shl (bit_and x (ones a)) p) < 2 ^ (p + a)
chunk-lt x a p =
    let small =
      mul-lt-mul_of_pos_right (mod-lt x (omega (arith, one-le-pow a 2)))
        (omega (arith, one-le-pow p 2)) in
    let shifted : shl (bit_and x (ones a)) p < 2 ^ a * 2 ^ p = rw (bit_and-ones a x) small in
    let swap : p + a ≡ a + p = omega arith in rw (swap, pow_add a p) (omega (arith, shifted))

module _ (buffer : List ℕ) (off n : ℕ) where
  -- What has been read of the first `p` bits.
  pub record Got (p value : ℕ) : Type 0 where
    pub bounded : value < 2 ^ p
    pub digits : (i : ℕ) → i < p → bit value i ≡ buffer_bit buffer (off + i)

  get_step :
      (p value : ℕ)
      → p < n
      → n ≤ 64
      → Got p value
      → Got (p + chunk off n p) (bit_or value (get_bits (get_or buffer ((off + p) / 8) 0) off n p))
  unfolding get_bits
  get_step p value more small g =
      let byte = get_or buffer ((off + p) / 8) 0 in
      let a = chunk off n p in
      let b = in_byte off p in
      record {
        bounded =
            bit_or-lt (p + a) value _ (omega (arith, g.bounded, pow_mono p a))
              (chunk-lt (shr byte b) a p);
        digits = λ i below. elim (dec_lt i p) [
          | yes early ↦
              bit-bit_or value _ i
              ∙ ap (max (bit value i))
                  (bit-mod _ 64 i (omega arith) ∙ digit_below (shr byte b) a p i early)
              ∙ (omega (arith, g.digits i early))
          | no late ↦
              let (k, at) = split_at p i (omega arith) in
              let same : (off + i) / 8 ≡ (off + p) / 8 = omega arith in
              let digit : (off + i) % 8 ≡ b + k = omega arith in
              bit-bit_or value _ i
              ∙ ap₂ max (bit-past value p i g.bounded (omega arith)) (
                  bit-mod _ 64 i (omega arith)
                  ∙ ap (bit (shl (bit_and (shr byte b) (ones a)) p)) at
                  ∙ digit_inside (shr byte b) a p k (omega arith)
                  ∙ bit-shr byte b k)
              ∙ zero_max (bit byte (b + k))
              ∙ sym (ap₂ (λ (t : ℕ) (d : ℕ). bit (get_or buffer t 0) d) same digit)
        ];
      }

  get_loop :
      (fuel p value : ℕ)
      → p ≤ n
      → n ≤ 64
      → n < p + fuel
      → off + n ≤ 8 * length buffer
      → Got p value
      → (r : ℕ) × (buffer_get_at fuel buffer off n p value ≡ ok r) × Got n r
  unfolding buffer_get_at
  get_loop zero p value le small room fits g = absurd (omega arith)
  get_loop (suc fuel) p value le small room fits g = elim (dec_lt p n) [
    | no done ↦
        let all : p ≡ n = omega arith in
        (
          value,
          rw (buffer_get_at, le→ltb p n (omega arith)) refl,
          subst (λ (t : ℕ). Got t value) all g,
        )
    | yes more ↦
        let q = (off + p) / 8 in
        let (r, run, got) =
          get_loop fuel (p + chunk off n p) (bit_or value (get_bits (get_or buffer q 0) off n p))
            (omega arith) small (omega arith) fits (get_step p value more small g) in
        (
          r,
          rw (buffer_get_at, lt→ltb p n more, read-eq-ok buffer q 0 (omega arith), ◌>>=◌) run,
          got,
        )
  ]

  -- For at most 64 bits that fit the buffer, lai_buffer_get_at ends without a fault, with a value
  -- below two to the number of bits whose bits are those of the buffer from the offset on.
  pub buffer_get_at-Got :
      n ≤ 64
      → off + n ≤ 8 * length buffer
      → (r : ℕ) × (buffer_get_at (n + 1) buffer off n 0 0 ≡ ok r) × Got n r
  buffer_get_at-Got small fits =
      get_loop (n + 1) 0 0 (omega arith) small (omega arith) fits
        (record { bounded = omega arith; digits = λ i lt. absurd (omega arith) })

-- When at most 64 bits fit the buffer and are clear in it, lai_buffer_get_at after
-- lai_buffer_put_at at the same offset returns the value that was put, modulo two to the number
-- of bits.
pub buffer_get_at-buffer_put_at :
    (buffer : List ℕ) (value off n : ℕ)
    → n ≤ 64
    → off + n ≤ 8 * length buffer
    → ((i : ℕ) → i < n → buffer_bit buffer (off + i) ≡ 0)
    → (buffer_put_at (n + 1) buffer value off n 0 >>= λ out. buffer_get_at (n + 1) out off n 0 0)
      ≡ ok (value % 2 ^ n)
buffer_get_at-buffer_put_at buffer value off n small fits clear =
    let (out, run, put) = buffer_put_at-Put buffer value off n fits in
    let (r, read_, got) = buffer_get_at-Got out off n small (omega (arith, put.size)) in
    let same : r ≡ value % 2 ^ n =
      bit_ext n r (value % 2 ^ n) got.bounded (mod-lt value (omega (arith, one-le-pow n 2))) λ i lt.
        got.digits i lt
        ∙ put.inside i (omega arith) lt
        ∙ ap (λ (t : ℕ). max t (bit value i)) (clear i lt)
        ∙ zero_max (bit value i)
        ∙ sym (bit-mod value n i lt) in
    rw (run, ◌>>=◌, read_, same) refl
