-- ===== src/AmlCode/Words.antt =====
-- core/exec.c: `lai_parse_u8`, `lai_parse_u16`, `lai_parse_u32` and `lai_parse_u64` against the bytes
-- of an integer.
use lai.Base.{
  ℕ, ◌+◌, ◌*◌, ◌^◌, ◌≤◌, ◌<◌, ◌≡◌, refl, sym, ap, ◌∙◌, Bool-cases, inl, inr, true, drop-append,
  take-append, List, ◌++◌, length, take, drop, length-append, le→leb, ltb, leb, ok, arith,
}
use lai.OpRegion.Values.{spread_bytes}
use lai.OpRegion.Integers.{spread_length}
use lai.OpRegion.Bytes.{gather_bytes-spread_bytes}
use lai.AmlCode.{read_bytes, parse_uint}
use lai.AmlCode.Lengths.{limited}

read_bytes-spread_bytes :
    (count n : ℕ) (pre rest : List ℕ)
    → count ≤ 8
    → n < 2 ^ (8 * count)
    → read_bytes (pre ++ (spread_bytes count 0 n ++ rest)) (length pre) count ≡ ok n
unfolding read_bytes
read_bytes-spread_bytes count n pre rest few lt =
    let bytes = spread_bytes count 0 n in
    let size : length bytes ≡ count = spread_length count 0 n in
    let inside : leb (length pre + count) (length (pre ++ (bytes ++ rest))) ≡ true =
      le→leb _ _
        (omega (arith, length-append pre (bytes ++ rest), length-append bytes rest, size)) in
    let whole : take count (drop (length pre) (pre ++ (bytes ++ rest))) ≡ bytes =
      ap (λ (t : List ℕ). take count t) (drop-append pre (bytes ++ rest))
      ∙ ap (λ (t : ℕ). take t (bytes ++ rest)) (sym size)
      ∙ take-append bytes rest in
    rw (inside, whole, gather_bytes-spread_bytes count n few lt) refl

-- An integer of at most 64 bits that stands in the code, least significant byte first, is parsed
-- to that integer by the function for its width (count bytes: lai_parse_u8, _u16, _u32 and _u64
-- are those of 1, 2, 4 and 8), and the program counter moves behind it, whatever follows; if the
-- limit cuts it off, parsing fails.
pub parse_uint-spread_bytes :
    (count n : ℕ) (pre rest : List ℕ) (limit : ℕ)
    → count ≤ 8
    → n < 2 ^ (8 * count)
    → parse_uint count (pre ++ (spread_bytes count 0 n ++ rest)) (length pre) limit
      ≡ ok (limited n (length pre + count) limit)
unfolding parse_uint
parse_uint-spread_bytes count n pre rest limit few lt =
    elim (Bool-cases (ltb limit (length pre + count))) [
      | inl cut ↦ rw cut refl
      | inr fits ↦ rw (fits, read_bytes-spread_bytes count n pre rest few lt) refl
    ]
