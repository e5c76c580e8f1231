-- ===== src/Tests/AmlCode.antt =====
-- Tests of the integers in AML code.
use lai.Base.{ℕ, ◌+◌, ◌≡◌, refl, none, some, List, [], ◌∷◌, ◌++◌, length, ok, arith}
use lai.OpRegion.Values.{spread_bytes}
use lai.AmlCode.{parse_varint, parse_u16, parse_uint}
use lai.AmlCode.Lengths.{encode_length, limited, parse_varint-encode_length}
use lai.AmlCode.Words.{parse_uint-spread_bytes}

abbrev before_it : List ℕ
before_it = 0x10 ∷ []

abbrev behind_it : List ℕ
behind_it = 0xA3 ∷ 0xA3 ∷ []

parse_varint_example :
    parse_varint (before_it ++ (encode_length 1000 ++ behind_it)) (length before_it) 5
    ≡ ok (limited 1000 (length before_it + length (encode_length 1000)) 5)
parse_varint_example = parse_varint-encode_length 1000 before_it behind_it 5 (omega arith)

parse_uint_example :
    parse_uint 4 (before_it ++ (spread_bytes 4 0 0x12345678 ++ behind_it)) (length before_it) 7
    ≡ ok (limited 0x12345678 (length before_it + 4) 7)
parse_uint_example =
    parse_uint-spread_bytes 4 0x12345678 before_it behind_it 7 (omega arith) (omega arith)

-- A length of two bytes.
two_bytes_long : parse_varint (0x10 ∷ 0x48 ∷ 0x3E ∷ []) 1 3 ≡ ok (some (0x3E8, 3))
unfolding parse_varint
two_bytes_long = refl

cut_off : parse_u16 (0x34 ∷ 0x12 ∷ []) 0 1 ≡ ok none
unfolding parse_u16
cut_off = refl

word : parse_u16 (0x34 ∷ 0x12 ∷ []) 0 2 ≡ ok (some (0x1234, 2))
unfolding parse_u16
word = refl
