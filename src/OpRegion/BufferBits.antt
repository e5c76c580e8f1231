-- ===== src/OpRegion/BufferBits.antt =====
-- core/opregion.c: what the bits of a buffer are after `lai_buffer_put_at`, and what
-- `lai_buffer_get_at` reads.
use native.Mathlib.Nat.{pow-suc, one-le-pow, mod-lt, mul_assoc}
use native.Mathlib.Decide.{ℕ_discrete, dec_lt}
use lai.Base.{
  ℕ, zero, suc, ◌+◌, ◌-◌, ◌*◌, ◌/◌, ◌%◌, ◌^◌, ◌≤◌, ◌<◌, ◌≡◌, ◌⊎◌, inl, inr, refl, ap, ◌∙◌, max,
  bit_and, List, length, set, get_or, get_or-set_self, get_or-set_ne, length-set, read-eq-ok, arith,
  lt→ltb, le→ltb, shl, shr, ok, ◌>>=◌,
}
use lai.Bits.{bit, bit-bit_or, bit-shl, bit-shl_low, bit-shr, bit-mod, bit-past}
use lai.Bits.{ones, bit_and-ones}
use lai.OpRegion.Buffer.{in_byte, chunk, put_byte, buffer_put_at}

-- Bit `j` of a buffer, counted from the low bit of its first byte.
abbrev pub buffer_bit : List ℕ → ℕ → ℕ
buffer_bit buffer j = bit (get_or buffer (j / 8) 0) (j % 8)

pub pow_add : (a b : ℕ) → 2 ^ (a + b) ≡ 2 ^ a * 2 ^ b
pow_add zero b = let same : 0 + b ≡ b = omega arith in rw same (omega arith)
pow_add (suc a) b =
    let next : suc a + b ≡ suc (a + b) = omega arith in
    rw (next, pow-suc 2 (a + b), pow-suc 2 a, pow_add a b)
      (omega (arith, mul_assoc 2 (2 ^ a) (2 ^ b)))

-- The digits of `x % 2 ^ a`, shifted by `b`.
pub digit_inside : (x a b i : ℕ) → i < a → bit (shl (bit_and x (ones a)) b) (b + i) ≡ bit x i
digit_inside x a b i lt =
    bit-shl _ b i ∙ ap (λ (t : ℕ). bit t i) (bit_and-ones a x) ∙ bit-mod x a i lt

pub digit_below : (x a b i : ℕ) → i < b → bit (shl (bit_and x (ones a)) b) i ≡ 0
digit_below x a b i lt = bit-shl_low _ b i lt

pub digit_above : (x a b i : ℕ) → a ≤ i → bit (shl (bit_and x (ones a)) b) (b + i) ≡ 0
digit_above x a b i le =
    bit-shl _ b i
    ∙ ap (λ (t : ℕ). bit t i) (bit_and-ones a x)
    ∙ bit-past (x % 2 ^ a) a i (mod-lt x (omega (arith, one-le-pow a 2))) le

pub split_at : (b i : ℕ) → b ≤ i → (k : ℕ) × (i ≡ b + k)
split_at b i le = (i - b, omega arith)

-- A buffer of bytes whose bits from `off + p` to `off + e` have taken those of a value, and whose
-- other bits are as they were.
pub record Put (buffer out : List ℕ) (value off p e : ℕ) : Type 0 where
  pub size : length out ≡ length buffer
  pub inside :
      (i : ℕ)
      → p ≤ i
      → i < e
      → buffer_bit out (off + i) ≡ max (buffer_bit buffer (off + i)) (bit value i)
  pub outside : (j : ℕ) → (j < off + p) ⊎ (off + e ≤ j) → buffer_bit out j ≡ buffer_bit buffer j

module _ (value off n p : ℕ) (more : p < n) where
  abbrev a : ℕ
  a = chunk off n p

  abbrev b : ℕ
  b = in_byte off p

  -- The digits of the changed byte.
  put_byte_inside :
      (byte i : ℕ)
      → i < a
      → bit (put_byte byte value off n p) (b + i) ≡ max (bit byte (b + i)) (bit value (p + i))
  unfolding put_byte
  put_byte_inside byte i lt =
      bit-mod _ 8 (b + i) (omega arith)
      ∙ bit-bit_or byte _ (b + i)
      ∙ ap (max (bit byte (b + i))) (digit_inside (shr value p) a b i lt ∙ bit-shr value p i)

  put_byte_outside :
      (byte i : ℕ)
      → i < 8
      → (i < b) ⊎ (b + a ≤ i)
      → bit (put_byte byte value off n p) i ≡ bit byte i
  unfolding put_byte
  put_byte_outside byte i lt away =
      let zero_digit : bit (shl (bit_and (shr value p) (ones a)) b) i ≡ 0 = elim away [
        | inl low ↦ digit_below (shr value p) a b i low
        | inr high ↦
            let (k, at) = split_at b i (omega arith) in
            rw at (digit_above (shr value p) a b k (omega arith))
      ] in
      bit-mod _ 8 i lt ∙ bit-bit_or byte _ i ∙ ap (max (bit byte i)) zero_digit ∙ (omega arith)

  inside_step :
      (buffer : List ℕ) (i : ℕ)
      → (off + p) / 8 < length buffer
      → p ≤ i
      → i < p + a
      → buffer_bit
          (set buffer ((off + p) / 8) (put_byte (get_or buffer ((off + p) / 8) 0) value off n p))
          (off + i)
        ≡ max (buffer_bit buffer (off + i)) (bit value i)
  inside_step buffer i lt from below =
      let (k, at) = split_at p i from in
      let same : (off + i) / 8 ≡ (off + p) / 8 = omega arith in
      let digit : (off + i) % 8 ≡ b + k = omega arith in
      rw (same, digit, get_or-set_self buffer ((off + p) / 8) _ 0 lt, at)
        (put_byte_inside (get_or buffer ((off + p) / 8) 0) k (omega arith))

  outside_step :
      (buffer : List ℕ) (j : ℕ)
      → (off + p) / 8 < length buffer
      → (j < off + p) ⊎ (off + (p + a) ≤ j)
      → buffer_bit
          (set buffer ((off + p) / 8) (put_byte (get_or buffer ((off + p) / 8) 0) value off n p))
          j
        ≡ buffer_bit buffer j
  outside_step buffer j lt away = elim (ℕ_discrete ((off + p) / 8) (j / 8)) [
    | no other ↦
        ap (λ (t : ℕ). bit t (j % 8)) (get_or-set_ne buffer ((off + p) / 8) (j / 8) _ 0 other)
    | yes same ↦
        let far : (j % 8 < b) ⊎ (b + a ≤ j % 8) = elim away [
          | inl low ↦ inl (omega arith)
          | inr high ↦ inr (omega arith)
        ] in
        rw (← same, get_or-set_self buffer ((off + p) / 8) _ 0 lt)
          (put_byte_outside (get_or buffer ((off + p) / 8) 0) (j % 8) (omega arith) far)
  ]

  pub Put-step :
      (buffer : List ℕ)
      → (off + p) / 8 < length buffer
      → Put buffer
          (set buffer ((off + p) / 8) (put_byte (get_or buffer ((off + p) / 8) 0) value off n p))
          value
          off
          p
          (p + a)
  Put-step buffer lt = record {
    size = length-set buffer _ _;
    inside = λ i from below. inside_step buffer i lt from below;
    outside = λ j away. outside_step buffer j lt away;
  }

Put-append :
    (buffer mid out : List ℕ) (value off p q e : ℕ)
    → p ≤ q
    → q ≤ e
    → Put buffer mid value off p q
    → Put mid out value off q e
    → Put buffer out value off p e
Put-append buffer mid out value off p q e pq qe f g = record {
  size = g.size ∙ f.size;
  inside = λ i from below. elim (dec_lt i q) [
    | yes early ↦ g.outside (off + i) (inl (omega arith)) ∙ f.inside i from early
    | no late ↦
        g.inside i (omega arith) below
        ∙ ap (λ (t : ℕ). max t (bit value i)) (f.outside (off + i) (inr (omega arith)))
  ];
  outside = λ j away. elim away [
    | inl low ↦ g.outside j (inl (omega arith)) ∙ f.outside j (inl low)
    | inr high ↦ g.outside j (inr high) ∙ f.outside j (inr (omega arith))
  ];
}

Put-loop :
    (fuel : ℕ) (buffer : List ℕ) (value off n p : ℕ)
    → p ≤ n
    → n < p + fuel
    → off + n ≤ 8 * length buffer
    → (out : List ℕ) × (buffer_put_at fuel buffer value off n p ≡ ok out)
      × Put buffer out value off p n
unfolding buffer_put_at
Put-loop zero buffer value off n p le room fits = absurd (omega arith)
Put-loop (suc fuel) buffer value off n p le room fits = elim (dec_lt p n) [
  | no done ↦
      let all : p ≡ n = omega arith in
      (
        buffer,
        rw (buffer_put_at, le→ltb p n (omega arith)) refl,
        record {
          size = refl;
          inside = λ i from below. absurd (omega arith);
          outside = λ j away. refl;
        },
      )
  | yes more ↦
      let q = (off + p) / 8 in
      let inside : q < length buffer = omega arith in
      let step = Put-step value off n p more buffer inside in
      let mid = set buffer q (put_byte (get_or buffer q 0) value off n p) in
      let a = chunk off n p in
      let (out, run, rest) =
        Put-loop fuel mid value off n (p + a) (omega arith) (omega arith)
          (omega (arith, step.size)) in
      (
        out,
        rw (buffer_put_at, lt→ltb p n more, read-eq-ok buffer q 0 inside, ◌>>=◌) run,
        Put-append buffer mid out value off p (p + a) n (omega arith) (omega arith) step rest,
      )
]

-- When the bits fit the buffer, lai_buffer_put_at ends without a fault; the bits of the buffer
-- from the offset on become the or of what they were and the bits of the value, and no other bit
-- and not the size of the buffer changes.
pub buffer_put_at-Put :
    (buffer : List ℕ) (value off n : ℕ)
    → off + n ≤ 8 * length buffer
    → (out : List ℕ) × (buffer_put_at (n + 1) buffer value off n 0 ≡ ok out)
      × Put buffer out value off 0 n
buffer_put_at-Put buffer value off n fits =
    Put-loop (n + 1) buffer value off n 0 (omega arith) (omega arith) fits
