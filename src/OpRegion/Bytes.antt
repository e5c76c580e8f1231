-- ===== src/OpRegion/Bytes.antt =====
-- The bytes of an integer, least significant first, and the integer that they make again.
use lai.Base.{ℕ, ◌+◌, ◌*◌, ◌/◌, ◌%◌, ◌^◌, ◌≤◌, ◌<◌, ◌≡◌, ap, ◌∙◌, length, shr, arith}
use lai.Bits.{bit, bit-mod, bit-shr, bit_ext, bit_and-ones}
use lai.OpRegion.BufferBits.{buffer_bit}
use lai.OpRegion.Values.{gather_bytes, spread_bytes}
use lai.OpRegion.Integers.{spread_length, spread_get, gather_lem}

byte_bit : (count n j : ℕ) → j < 8 * count → buffer_bit (spread_bytes count 0 n) j ≡ bit n j
byte_bit count n j lt =
    ap (λ (t : ℕ). bit t (j % 8))
      (spread_get count 0 n (j / 8) (omega arith) ∙ bit_and-ones 8 (shr n ((0 + j / 8) * 8)))
    ∙ bit-mod (shr n ((0 + j / 8) * 8)) 8 (j % 8) (omega arith)
    ∙ bit-shr n ((0 + j / 8) * 8) (j % 8)
    ∙ ap (bit n) (omega arith)

pub gather_bytes-spread_bytes :
    (count n : ℕ) → count ≤ 8 → n < 2 ^ (8 * count) → gather_bytes (spread_bytes count 0 n) 0 0 ≡ n
gather_bytes-spread_bytes count n few lt =
    let size : length (spread_bytes count 0 n) ≡ count = spread_length count 0 n in
    let g = gather_lem (spread_bytes count 0 n) 0 0 (omega (arith, size)) (omega arith) in
    let top : 8 * (0 + length (spread_bytes count 0 n)) ≡ 8 * count = omega (arith, size) in
    bit_ext (8 * count) (gather_bytes (spread_bytes count 0 n) 0 0) n (rw (← top) g.bounded) lt
      (λ i below.
        ap (bit (gather_bytes (spread_bytes count 0 n) 0 0)) (omega arith)
        ∙ g.high i (omega (arith, size))
        ∙ byte_bit count n i below)
