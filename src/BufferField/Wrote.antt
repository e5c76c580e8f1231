-- ===== src/BufferField/Wrote.antt =====
-- core/exec-operand.c: the bits of a buffer after `lai_write_buffer`.
use native.Mathlib.Nat.{pow-suc, one-le-pow, mul-lt-mul_of_pos_right}
use native.Mathlib.Decide.{ℕ_discrete}
use lai.Base.{
  set-set, ℕ, zero, suc, ◌+◌, ◌-◌, ◌*◌, ◌/◌, ◌%◌, ◌^◌, ◌≤◌, ◌<◌, ◌≡◌, ◌⊎◌, inl, inr, sym, ap, ◌∙◌,
  max, List, length, set, get_or, get_or-set_self, get_or-set_ne, length-set, arith, not8, shl,
}
use lai.Bits.{bit, bit-lt, bit-bit_and, bit-shl, bit-shl_low, bit-past, ones, bit-ones}
use lai.OpRegion.Buffer.{in_byte, chunk, put_byte}
use lai.OpRegion.BufferBits.{buffer_bit, Put-step, split_at, pow_add}
use lai.OpRegion.BufferRead.{pow_mono}
use lai.BufferField.{clear_byte}

-- The digits of a complement.
bit-complement : (k x i : ℕ) → x < 2 ^ k → i < k → bit (2 ^ k - 1 - x) i ≡ 1 - bit x i
unfolding bit
bit-complement zero x i lt below = absurd (omega arith)
bit-complement (suc k) x zero lt below = omega (arith, pow-suc 2 k, one-le-pow k 2)
bit-complement (suc k) x (suc i) lt below =
    let halves : (2 ^ suc k - 1 - x) / 2 ≡ 2 ^ k - 1 - x / 2 =
      omega (arith, pow-suc 2 k, one-le-pow k 2) in
    rw halves (bit-complement k (x / 2) i (omega (arith, pow-suc 2 k)) (omega arith))

-- A buffer whose bits from `off + p` to `off + e` are those of the value, and whose other bits are
-- as they were.
pub record Wrote (buffer out : List ℕ) (value off p e : ℕ) : Type 0 where
  pub size : length out ≡ length buffer
  pub inside : (i : ℕ) → p ≤ i → i < e → buffer_bit out (off + i) ≡ bit value i
  pub outside : (j : ℕ) → (j < off + p) ⊎ (off + e ≤ j) → buffer_bit out j ≡ buffer_bit buffer j

module _ (value off n p : ℕ) (more : p < n) where
  abbrev a : ℕ
  a = chunk off n p

  abbrev b : ℕ
  b = in_byte off p

  mask_fits : shl (ones a) b < 2 ^ 8
  mask_fits =
      let below : shl (ones a) b < 2 ^ a * 2 ^ b =
        mul-lt-mul_of_pos_right {m = ones a} {n = 2 ^ a} (omega (arith, one-le-pow a 2))
          (omega (arith, one-le-pow b 2)) in
      let (rest, total) = split_at (a + b) 8 (omega arith) in
      let eight : 2 ^ (a + b + rest) ≡ 2 ^ 8 = ap (λ (t : ℕ). 2 ^ t) (sym total) in
      omega (arith, below, pow_add a b, pow_mono (a + b) rest, eight)

  clear_inside : (byte i : ℕ) → i < a → bit (clear_byte byte off n p) (b + i) ≡ 0
  unfolding clear_byte
  clear_inside byte i lt = omega (
    arith,
    bit-bit_and byte (not8 (shl (ones a) b)) (b + i),
    bit-complement 8 (shl (ones a) b) (b + i) mask_fits (omega arith),
    bit-shl (ones a) b i,
    bit-ones a i lt,
  )

  clear_outside :
      (byte i : ℕ) → i < 8 → (i < b) ⊎ (b + a ≤ i) → bit (clear_byte byte off n p) i ≡ bit byte i
  unfolding clear_byte
  clear_outside byte i lt away =
      let no_mask : bit (shl (ones a) b) i ≡ 0 = elim away [
        | inl low ↦ bit-shl_low (ones a) b i low
        | inr high ↦
            let (k, at) = split_at b i (omega arith) in
            rw at (
              bit-shl (ones a) b k
              ∙ bit-past (ones a) a k (omega (arith, one-le-pow a 2)) (omega arith))
      ] in
      omega (
        arith,
        bit-bit_and byte (not8 (shl (ones a) b)) i,
        bit-complement 8 (shl (ones a) b) i mask_fits lt,
        no_mask,
        bit-lt byte i,
      )

  -- The buffer with the bits cleared.
  cleared_inside :
      (buffer : List ℕ) (i : ℕ)
      → (off + p) / 8 < length buffer
      → p ≤ i
      → i < p + a
      → buffer_bit
          (set buffer ((off + p) / 8) (clear_byte (get_or buffer ((off + p) / 8) 0) off n p))
          (off + i)
        ≡ 0
  cleared_inside buffer i lt from below =
      let (k, at) = split_at p i from in
      let same : (off + i) / 8 ≡ (off + p) / 8 = omega arith in
      let digit : (off + i) % 8 ≡ b + k = omega arith in
      rw (same, digit, get_or-set_self buffer ((off + p) / 8) _ 0 lt)
        (clear_inside (get_or buffer ((off + p) / 8) 0) k (omega arith))

  cleared_outside :
      (buffer : List ℕ) (j : ℕ)
      → (off + p) / 8 < length buffer
      → (j < off + p) ⊎ (off + (p + a) ≤ j)
      → buffer_bit
          (set buffer ((off + p) / 8) (clear_byte (get_or buffer ((off + p) / 8) 0) off n p))
          j
        ≡ buffer_bit buffer j
  cleared_outside buffer j lt away = elim (ℕ_discrete ((off + p) / 8) (j / 8)) [
    | no other ↦
        ap (λ (t : ℕ). bit t (j % 8)) (get_or-set_ne buffer ((off + p) / 8) (j / 8) _ 0 other)
    | yes same ↦
        let far : (j % 8 < b) ⊎ (b + a ≤ j % 8) = elim away [
          | inl low ↦ inl (omega arith)
          | inr high ↦ inr (omega arith)
        ] in
        rw (← same, get_or-set_self buffer ((off + p) / 8) _ 0 lt)
          (clear_outside (get_or buffer ((off + p) / 8) 0) (j % 8) (omega arith) far)
  ]

  -- One round of the loop.
  pub Wrote-step :
      (buffer : List ℕ)
      → (off + p) / 8 < length buffer
      → Wrote buffer
          (set buffer
            ((off + p) / 8)
            (put_byte (clear_byte (get_or buffer ((off + p) / 8) 0) off n p) value off n p))
          value
          off
          p
          (p + a)
  Wrote-step buffer lt =
      let q = (off + p) / 8 in
      let byte = clear_byte (get_or buffer q 0) off n p in
      let cleared = set buffer q byte in
      let size : length cleared ≡ length buffer = length-set buffer q byte in
      let put = Put-step value off n p more cleared (omega (arith, size, lt)) in
      let here : get_or cleared q 0 ≡ byte = get_or-set_self buffer q byte 0 lt in
      let out = set buffer q (put_byte byte value off n p) in
      let same : set cleared q (put_byte (get_or cleared q 0) value off n p) ≡ out =
        ap (λ (t : ℕ). set cleared q (put_byte t value off n p)) here
        ∙ set-set buffer q byte (put_byte byte value off n p) in
      record {
        size = length-set buffer q (put_byte byte value off n p);
        inside = λ i from below.
            ap (λ (t : List ℕ). buffer_bit t (off + i)) (sym same)
            ∙ put.inside i from below
            ∙ ap (λ (t : ℕ). max t (bit value i)) (cleared_inside buffer i lt from below)
            ∙ (omega arith);
        outside = λ j away.
            ap (λ (t : List ℕ). buffer_bit t j) (sym same)
            ∙ put.outside j away
            ∙ cleared_outside buffer j lt away;
      }
