-- ===== src/OpRegion/Integers.antt =====
-- core/opregion.c: integers written to a field and read back.
use native.Mathlib.Nat.{one-le-pow, mul-lt-mul_of_pos_right}
use native.Mathlib.Decide.{dec_lt}
use lai.Base.{
  ℕ, zero, suc, ◌+◌, ◌*◌, ◌/◌, ◌%◌, ◌^◌, ◌≤◌, ◌<◌, ◌≡◌, refl, sym, ap, ◌∙◌, bit_and, bit_or, List,
  [], ◌∷◌, length, get_or, u8, u64, shl, shr, arith,
}
use lai.Bits.{
  bit, bit-bit_or, bit-shl, bit-shl_low, bit-mod, bit-shr, bit-past, bit_and-ones, bit_or-lt,
}
use lai.OpRegion.BufferBits.{buffer_bit, split_at, pow_add}
use lai.OpRegion.BufferRead.{pow_mono}
use lai.OpRegion.Values.{gather_bytes, spread_bytes}

pub spread_length : (count i n : ℕ) → length (spread_bytes count i n) ≡ count
unfolding spread_bytes
spread_length zero i n = refl
spread_length (suc count) i n = omega (arith, spread_length count (i + 1) n)

pub spread_get :
    (count i n k : ℕ)
    → k < count
    → get_or (spread_bytes count i n) k 0 ≡ bit_and (shr n ((i + k) * 8)) 0xFF
unfolding spread_bytes
spread_get zero i n k lt = absurd (omega arith)
spread_get (suc count) i n zero lt = ap (λ (t : ℕ). bit_and (shr n (t * 8)) 0xFF) (omega arith)
spread_get (suc count) i n (suc k) lt =
    spread_get count (i + 1) n k (omega arith)
    ∙ ap (λ (t : ℕ). bit_and (shr n (t * 8)) 0xFF) (omega arith)

-- The bytes of an integer hold its bits.
pub spread_bit : (n j : ℕ) → j < 64 → buffer_bit (spread_bytes 8 0 n) j ≡ bit n j
spread_bit n j lt =
    ap (λ (t : ℕ). bit t (j % 8))
      (spread_get 8 0 n (j / 8) (omega arith) ∙ bit_and-ones 8 (shr n ((0 + j / 8) * 8)))
    ∙ bit-mod (shr n ((0 + j / 8) * 8)) 8 (j % 8) (omega arith)
    ∙ bit-shr n ((0 + j / 8) * 8) (j % 8)
    ∙ ap (bit n) (omega arith)

-- The bits of the bytes lie from place `8 * i` on, over those of `value`.
pub record Gathered (buf : List ℕ) (i value out : ℕ) : Type 0 where
  pub bounded : out < 2 ^ (8 * (i + length buf))
  pub low : (j : ℕ) → j < 8 * i → bit out j ≡ bit value j
  pub high : (k : ℕ) → k < 8 * length buf → bit out (8 * i + k) ≡ buffer_bit buf k

-- One byte is added.
byte_bounded :
    (b i value : ℕ)
    → value < 2 ^ (8 * i)
    → bit_or value (u64 (shl (u8 b) (i * 8))) < 2 ^ (8 * (i + 1))
byte_bounded b i value lt =
    let next : 8 * (i + 1) ≡ 8 * i + 8 = omega arith in
    let swap : 8 * i + 8 ≡ 8 + i * 8 = omega arith in
    let shifted : shl (u8 b) (i * 8) < 2 ^ (8 + i * 8) =
      (rw (pow_add 8 (i * 8)) (
        mul-lt-mul_of_pos_right {m = u8 b} {n = 2 ^ 8} (omega arith)
          (omega (arith, one-le-pow (i * 8) 2)))) in
    rw next (
      bit_or-lt (8 * i + 8) value _ (omega (arith, pow_mono (8 * i) 8))
        (rw swap (omega (arith, shifted))))

byte_low :
    (b i value j : ℕ)
    → j < 8 * i
    → i < 8
    → bit (bit_or value (u64 (shl (u8 b) (i * 8)))) j ≡ bit value j
byte_low b i value j lt small = omega (
  arith,
  bit-bit_or value (u64 (shl (u8 b) (i * 8))) j,
  bit-mod (shl (u8 b) (i * 8)) 64 j (omega arith),
  bit-shl_low (u8 b) (i * 8) j (omega arith),
)

byte_high :
    (b i value k : ℕ)
    → k < 8
    → i < 8
    → value < 2 ^ (8 * i)
    → bit (bit_or value (u64 (shl (u8 b) (i * 8)))) (8 * i + k) ≡ bit b k
byte_high b i value k lt small bound =
    let at : 8 * i + k ≡ i * 8 + k = omega arith in
    omega (
      arith,
      bit-bit_or value (u64 (shl (u8 b) (i * 8))) (8 * i + k),
      bit-past value (8 * i) (8 * i + k) bound (omega arith),
      bit-mod (shl (u8 b) (i * 8)) 64 (8 * i + k) (omega arith),
      ap (bit (shl (u8 b) (i * 8))) at,
      bit-shl (u8 b) (i * 8) k,
      bit-mod b 8 k lt,
    )

first_byte : (b : ℕ) (buf : List ℕ) (k : ℕ) → k < 8 → buffer_bit (b ∷ buf) k ≡ bit b k
first_byte b buf k lt =
    let byte : k / 8 ≡ 0 = omega arith in
    let digit : k % 8 ≡ k = omega arith in rw (byte, digit) refl

later_byte : (b : ℕ) (buf : List ℕ) (k : ℕ) → buffer_bit (b ∷ buf) (8 + k) ≡ buffer_bit buf k
later_byte b buf k =
    let byte : (8 + k) / 8 ≡ suc (k / 8) = omega arith in
    let digit : (8 + k) % 8 ≡ k % 8 = omega arith in rw (byte, digit) refl

pub gather_lem :
    (buf : List ℕ) (i value : ℕ)
    → i + length buf ≤ 8
    → value < 2 ^ (8 * i)
    → Gathered buf i value (gather_bytes buf i value)
unfolding gather_bytes
gather_lem [] i value fits lt = record {
  bounded = (let same : i + 0 ≡ i = omega arith in rw same lt);
  low = λ j below. refl;
  high = λ k below. absurd (omega arith);
}
gather_lem (b ∷ buf) i value fits lt =
    let next = bit_or value (u64 (shl (u8 b) (i * 8))) in
    let g = gather_lem buf (i + 1) next (omega arith) (byte_bounded b i value lt) in
    record {
      bounded =
          (let same : i + suc (length buf) ≡ i + 1 + length buf = omega arith in rw same g.bounded);
      low = λ j below. g.low j (omega arith) ∙ byte_low b i value j below (omega arith);
      high = λ k below. elim (dec_lt k 8) [
        | yes first ↦
            g.low (8 * i + k) (omega arith)
            ∙ byte_high b i value k first (omega arith) lt
            ∙ sym (first_byte b buf k first)
        | no later ↦
            let (r, at) = split_at 8 k (omega arith) in
            let place : 8 * i + k ≡ 8 * (i + 1) + r = omega arith in
            ap (bit (gather_bytes buf (i + 1) next)) place
            ∙ g.high r (omega arith)
            ∙ sym (ap (buffer_bit (b ∷ buf)) at ∙ later_byte b buf r)
      ];
    }
