-- ===== src/AmlCode.antt =====
-- core/exec.c: the integers and names that the interpreter reads from AML code at a program counter
-- `pc`, up to `limit`; `none` is the error, after which the program counter is as before. A read
-- past the code is a fault.

pub mod Lengths
pub mod Words
use lai.Base.{
  ℕ, zero, suc, ◌+◌, ◌-◌, ◌%◌, ◌^◌, bit_and, bit_or, Bool, true, false, ◌==◌, leb, ltb,
  if◌then◌else◌, Option, none, some, List, [], ◌∷◌, length, take, drop, set, shl, shr, Run, ok,
  panic, fault, ensure, read, ◌>>=◌, ◌>>◌,
}
use lai.AmlName.{AmlName, amlname_parse}
use lai.OpRegion.Values.{gather_bytes}

-- The value that was read, and the program counter behind it.
abbrev pub Parsed : Type 0
Parsed = Run (Option (ℕ × ℕ))

-- `lai_parse_varint`
unfoldable pub parse_varint : (code : List ℕ) (pc limit : ℕ) → Parsed
parse_varint code pc limit =
    if ltb limit (pc + 1)
    then ok none
    else (read code pc >>= λ b0.
        let sz = bit_and (shr b0 6) 3 in
        if sz == 0
        then ok (some (bit_and b0 0x3F, pc + 1))
        else if sz == 1
        then (if ltb limit (pc + 2)
            then ok none
            else (read code (pc + 1) >>= λ b1.
                ok (some (bit_or (bit_and b0 0x0F) (shl b1 4), pc + 2))))
        else if sz == 2
        then (if ltb limit (pc + 3)
            then ok none
            else (read code (pc + 1) >>= λ b1. read code (pc + 2) >>= λ b2.
                ok (some (bit_or (bit_or (bit_and b0 0x0F) (shl b1 4)) (shl b2 12), pc + 3))))
        else (if ltb limit (pc + 4)
            then ok none
            else (read code (pc + 1) >>= λ b1. read code (pc + 2) >>= λ b2.
                read code (pc + 3) >>= λ b3. ok (
                  some (
                    bit_or (bit_or (bit_or (bit_and b0 0x0F) (shl b1 4)) (shl b2 12)) (shl b3 20),
                    pc + 4,
                  )))))

-- Bytes in a row, as an integer, the first the least significant.
unfoldable pub read_bytes : (code : List ℕ) (pc count : ℕ) → Run ℕ
unfolding gather_bytes
read_bytes code pc count =
    if leb (pc + count) (length code)
    then ok (gather_bytes (take count (drop pc code)) 0 0)
    else fault

-- `lai_parse_u8`, `lai_parse_u16`, `lai_parse_u32` and `lai_parse_u64`.
unfoldable pub parse_uint : (count : ℕ) (code : List ℕ) (pc limit : ℕ) → Parsed
unfolding read_bytes
parse_uint count code pc limit =
    if ltb limit (pc + count)
    then ok none
    else (read_bytes code pc count >>= λ n. ok (some (n, pc + count)))

unfoldable pub parse_u8 : (code : List ℕ) (pc limit : ℕ) → Parsed
unfolding parse_uint
parse_u8 code pc limit = parse_uint 1 code pc limit

unfoldable pub parse_u16 : (code : List ℕ) (pc limit : ℕ) → Parsed
unfolding parse_uint
parse_u16 code pc limit = parse_uint 2 code pc limit

unfoldable pub parse_u32 : (code : List ℕ) (pc limit : ℕ) → Parsed
unfolding parse_uint
parse_u32 code pc limit = parse_uint 4 code pc limit

unfoldable pub parse_u64 : (code : List ℕ) (pc limit : ℕ) → Parsed
unfolding parse_uint
parse_u64 code pc limit = parse_uint 8 code pc limit

-- `lai_parse_name`, which does not test the limit.
unfoldable pub parse_name : (code : List ℕ) (pc limit : ℕ) → Run (AmlName × ℕ)
unfolding amlname_parse
parse_name code pc limit = amlname_parse (drop pc code) >>= λ r. ok (r.0, pc + r.1)
