-- ===== src/AmlCode/Lengths.antt =====
-- core/exec.c: the encoding of package lengths, and `lai_parse_varint` against it.
use lai.Base.{
  ℕ, ◌+◌, ◌*◌, ◌/◌, ◌%◌, ◌^◌, ◌<◌, ◌≡◌, refl, ap, ◌∙◌, bit_and, bit_or, Bool-cases, inl, inr, true,
  ltb, if◌then◌else◌, Option, none, some, List, [], ◌∷◌, ◌++◌, length, read-append, ltb→lt, lt→ltb,
  shl, shr, ok, read, arith,
}
use lai.Bits.{bit_and-ones, bit_or-shl, bit_or_comm}
use lai.AmlCode.{parse_varint}

-- The encoding of a length below 2^28: the two top bits of the first byte count the bytes that
-- follow. With none of them the byte holds six bits of the length; else it holds its four low bits.
unfoldable pub encode_length : ℕ → List ℕ
encode_length n =
    if ltb n (2 ^ 6)
    then n ∷ []
    else if ltb n (2 ^ 12)
    then (64 + n % 16) ∷ n / 16 ∷ []
    else if ltb n (2 ^ 20)
    then (128 + n % 16) ∷ n / 16 % 256 ∷ n / 2 ^ 12 ∷ []
    else (192 + n % 16) ∷ n / 16 % 256 ∷ n / 2 ^ 12 % 256 ∷ n / 2 ^ 20 ∷ []

-- The number of bytes that follow, and the bits of the length in the first byte.
size_bits : (b : ℕ) → bit_and (shr b 6) 3 ≡ b / 64 % 4
size_bits b = bit_and-ones 2 (b / 64)

low_six : (b : ℕ) → bit_and b 0x3F ≡ b % 64
low_six b = bit_and-ones 6 b

low_four : (b : ℕ) → bit_and b 0x0F ≡ b % 16
low_four b = bit_and-ones 4 b

-- The next byte goes over the bits that are there.
join :
    (k low high : ℕ)
    → low < 2 ^ k
    → low < 2 ^ 28
    → shl high k < 2 ^ 28
    → bit_or low (shl high k) ≡ high * 2 ^ k + low
join k low high below small fits =
    bit_or_comm 28 low (shl high k) small fits ∙ bit_or-shl k high low below

-- The outcome at a limit: the value and the place behind its bytes, or the error.
abbrev pub limited : (value next limit : ℕ) → Option (ℕ × ℕ)
limited n next limit = if ltb limit next then none else some (n, next)

module _ (code : List ℕ) (pc limit b0 : ℕ) (first : read code (pc + 0) ≡ ok b0) where
  one_byte : b0 / 64 % 4 ≡ 0 → parse_varint code pc limit ≡ ok (limited (b0 % 64) (pc + 1) limit)
  unfolding parse_varint
  one_byte z =
      let here : pc + 0 ≡ pc = omega arith in
      let at : read code pc ≡ ok b0 = (rw (← here) first) in
      elim (Bool-cases (ltb limit (pc + 1))) [
        | inl cut ↦ rw (cut) refl
        | inr fits ↦ rw (fits, at, size_bits b0, z, low_six b0) refl
      ]

  -- Without room for `more` bytes behind the first there is none for the whole.
  no_room :
      (more : ℕ)
      → ltb limit (pc + 1) ≡ true
      → 0 < more
      → (value : ℕ) → limited value (pc + more) limit ≡ none
  no_room more cut some_more value =
      let e : ltb limit (pc + more) ≡ true =
        lt→ltb limit (pc + more) (omega (arith, ltb→lt limit (pc + 1) cut)) in
      rw e refl

  module _ (b1 : ℕ) (second : read code (pc + 1) ≡ ok b1) (byte1 : b1 < 256) where
    two_bytes :
        b0 / 64 % 4 ≡ 1
        → parse_varint code pc limit ≡ ok (limited (b1 * 2 ^ 4 + b0 % 16) (pc + 2) limit)
    unfolding parse_varint
    two_bytes z =
        let here : pc + 0 ≡ pc = omega arith in
        let at : read code pc ≡ ok b0 = (rw (← here) first) in
        elim (Bool-cases (ltb limit (pc + 1))) [
          | inl cut ↦ rw (cut, no_room 2 cut (omega arith) (b1 * 2 ^ 4 + b0 % 16)) refl
          | inr one ↦ elim (Bool-cases (ltb limit (pc + 2))) [
            | inl cut ↦ rw (one, at, size_bits b0, z, cut) refl
            | inr fits ↦
                rw (one, at, size_bits b0, z, fits, second, low_four b0)
                  (let e : bit_or (b0 % 16) (shl b1 4) ≡ b1 * 2 ^ 4 + b0 % 16 =
                      join 4 (b0 % 16) b1 (omega arith) (omega arith) (omega arith) in
                    rw e refl)
          ]
        ]

    module _ (b2 : ℕ) (third : read code (pc + 2) ≡ ok b2) (byte2 : b2 < 256) where
      join_two :
          bit_or (bit_or (b0 % 16) (shl b1 4)) (shl b2 12) ≡ b2 * 2 ^ 12 + (b1 * 2 ^ 4 + b0 % 16)
      join_two =
          let e : bit_or (b0 % 16) (shl b1 4) ≡ b1 * 2 ^ 4 + b0 % 16 =
            join 4 (b0 % 16) b1 (omega arith) (omega arith) (omega arith) in
          rw e (join 12 (b1 * 2 ^ 4 + b0 % 16) b2 (omega arith) (omega arith) (omega arith))

      three_bytes :
          b0 / 64 % 4 ≡ 2
          → parse_varint code pc limit
            ≡ ok (limited (b2 * 2 ^ 12 + (b1 * 2 ^ 4 + b0 % 16)) (pc + 3) limit)
      unfolding parse_varint
      three_bytes z =
          let here : pc + 0 ≡ pc = omega arith in
          let at : read code pc ≡ ok b0 = (rw (← here) first) in
          elim (Bool-cases (ltb limit (pc + 1))) [
            | inl cut ↦
                rw (cut, no_room 3 cut (omega arith) (b2 * 2 ^ 12 + (b1 * 2 ^ 4 + b0 % 16))) refl
            | inr one ↦ elim (Bool-cases (ltb limit (pc + 3))) [
              | inl cut ↦ rw (one, at, size_bits b0, z, cut) refl
              | inr fits ↦
                  rw (one, at, size_bits b0, z, fits, second, third, low_four b0, join_two) refl
            ]
          ]

      four_bytes :
          (b3 : ℕ)
          → read code (pc + 3) ≡ ok b3
          → b3 < 256
          → b0 / 64 % 4 ≡ 3
          → parse_varint code pc limit
            ≡ ok (limited (b3 * 2 ^ 20 + (b2 * 2 ^ 12 + (b1 * 2 ^ 4 + b0 % 16))) (pc + 4) limit)
      unfolding parse_varint
      four_bytes b3 fourth byte3 z =
          let here : pc + 0 ≡ pc = omega arith in
          let at : read code pc ≡ ok b0 = (rw (← here) first) in
          let low = b2 * 2 ^ 12 + (b1 * 2 ^ 4 + b0 % 16) in
          elim (Bool-cases (ltb limit (pc + 1))) [
            | inl cut ↦ rw (cut, no_room 4 cut (omega arith) (b3 * 2 ^ 20 + low)) refl
            | inr one ↦ elim (Bool-cases (ltb limit (pc + 4))) [
              | inl cut ↦ rw (one, at, size_bits b0, z, cut) refl
              | inr fits ↦
                  rw (one, at, size_bits b0, z, fits, second, third, fourth, low_four b0, join_two)
                    (let e : bit_or low (shl b3 20) ≡ b3 * 2 ^ 20 + low =
                        join 20 low b3 (omega arith) (omega arith) (omega arith) in
                      rw e refl)
            ]
          ]

-- The encoding of a length below 2^28, anywhere in the code, is parsed by lai_parse_varint to
-- that length, and the program counter moves behind it, whatever follows; if the limit cuts the
-- encoding off, parsing fails.
pub parse_varint-encode_length :
    (n : ℕ) (pre rest : List ℕ) (limit : ℕ)
    → n < 2 ^ 28
    → parse_varint (pre ++ (encode_length n ++ rest)) (length pre) limit
      ≡ ok (limited n (length pre + length (encode_length n)) limit)
unfolding encode_length
parse_varint-encode_length n pre rest limit lt = elim (Bool-cases (ltb n (2 ^ 6))) [
  | inl short ↦ rw short (
      one_byte (pre ++ n ∷ rest) (length pre) limit n (read-append pre (n ∷ rest) 0)
        (omega (arith, ltb→lt n 64 short))
      ∙ ap (λ (t : ℕ). ok (limited t (length pre + 1) limit)) (omega (arith, ltb→lt n 64 short)))
  | inr more ↦ elim (Bool-cases (ltb n (2 ^ 12))) [
    | inl short ↦
        let code = pre ++ (64 + n % 16) ∷ n / 16 ∷ rest in
        let bytes : List ℕ = (64 + n % 16) ∷ n / 16 ∷ rest in
        let value : n / 16 * 2 ^ 4 + (64 + n % 16) % 16 ≡ n = omega arith in
        rw (more, short)
          (two_bytes code (length pre) limit (64 + n % 16) (read-append pre bytes 0) (n / 16)
              (read-append pre bytes 1) (omega (arith, ltb→lt n 4096 short)) (omega arith)
            ∙ ap (λ (t : ℕ). ok (limited t (length pre + 2) limit)) value)
    | inr long ↦ elim (Bool-cases (ltb n (2 ^ 20))) [
      | inl short ↦
          let bytes : List ℕ = (128 + n % 16) ∷ n / 16 % 256 ∷ n / 2 ^ 12 ∷ rest in
          let value : n / 2 ^ 12 * 2 ^ 12 + (n / 16 % 256 * 2 ^ 4 + (128 + n % 16) % 16) ≡ n =
            omega arith in
          rw (more, long, short)
            (three_bytes (pre ++ bytes) (length pre) limit (128 + n % 16) (read-append pre bytes 0)
                (n / 16 % 256) (read-append pre bytes 1) (omega arith) (n / 2 ^ 12)
                (read-append pre bytes 2) (omega (arith, ltb→lt n (2 ^ 20) short)) (omega arith)
              ∙ ap (λ (t : ℕ). ok (limited t (length pre + 3) limit)) value)
      | inr longest ↦
          let bytes : List ℕ =
            (192 + n % 16) ∷ n / 16 % 256 ∷ n / 2 ^ 12 % 256 ∷ n / 2 ^ 20 ∷ rest in
          let value : n / 2 ^ 20 * 2 ^ 20
                + (n / 2 ^ 12 % 256 * 2 ^ 12 + (n / 16 % 256 * 2 ^ 4 + (192 + n % 16) % 16))
              ≡ n =
            omega arith in
          rw (more, long, longest)
            (four_bytes (pre ++ bytes) (length pre) limit (192 + n % 16) (read-append pre bytes 0)
                (n / 16 % 256) (read-append pre bytes 1) (omega arith) (n / 2 ^ 12 % 256)
                (read-append pre bytes 2) (omega arith) (n / 2 ^ 20) (read-append pre bytes 3)
                (omega arith) (omega arith)
              ∙ ap (λ (t : ℕ). ok (limited t (length pre + 4) limit)) value)
    ]
  ]
]
