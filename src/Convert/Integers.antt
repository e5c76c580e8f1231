-- ===== src/Convert/Integers.antt =====
-- core/object.c: `lai_obj_to_integer`, `lai_mutate_integer` and `lai_obj_get_integer`.
use lai.Base.{
  ℕ, zero, suc, ◌+◌, ◌-◌, ◌*◌, bit_or, min, Bool, false, ◌&&◌, ◌||◌, ◌==◌, leb, ltb, if◌then◌else◌,
  Option, none, some, List, [], ◌∷◌, length, take, drop, u64, shl, Run, ok, panic, fault, ◌>>=◌,
  ◌>>◌, ApiError, no_error, illegal_arguments, type_mismatch,
}
use lai.Objects.{Var, integer, string, buffer, Heap}
use lai.OpRegion.Values.{gather_bytes}
use lai.Convert.{Filled, string_access, buffer_access, strlen}
use lai.Convert.Clone.{assign_value}

-- The value of a hexadecimal digit, of either case.
unfoldable pub hex_digit : ℕ → Option ℕ
hex_digit c =
    if leb b'0' c && leb c b'9'
    then some (c - b'0')
    else if leb b'a' c && leb c b'f'
    then some (c - b'a' + 10)
    else if leb b'A' c && leb c b'F'
    then some (c - b'A' + 10)
    else none

unfoldable pub decimal_digit : ℕ → Option ℕ
decimal_digit c = if ltb c b'0' || ltb b'9' c then none else some (c - b'0')

-- The loops over the characters of a string; `none` is the error at a character that is no digit.
unfoldable pub parse_digits : (base : ℕ) (digit : ℕ → Option ℕ) → List ℕ → ℕ → Option ℕ
parse_digits base digit [] n = some n
parse_digits base digit (c ∷ s) n = elim (digit c) [
  | none ↦ none
  | some v ↦ parse_digits base digit s (u64 (n * base + v))
]

unfoldable pub is_hex : List ℕ → Bool
is_hex (a ∷ b ∷ s) = (a == b'0') && ((b == b'x') || (b == b'X'))
is_hex s = false

unfoldable pub parse_integer : List ℕ → Option ℕ
unfolding hex_digit decimal_digit parse_digits is_hex
parse_integer s =
    if is_hex s then parse_digits 16 hex_digit (drop 2 s) 0 else parse_digits 10 decimal_digit s 0

-- `lai_obj_to_integer` to a variable with the content `out`, which is not released; the clone of an
-- integer is an assignment. The bytes are those of a little-endian machine.
unfoldable pub to_integer : Heap → (out object : Var) → Run Filled
unfolding buffer_access string_access strlen parse_integer assign_value gather_bytes
to_integer h out object = elim object [
  | buffer p ↦ buffer_access h (buffer p) >>= λ content.
      if ltb (length content) 8
      then ok (illegal_arguments, out, h)
      else ok (no_error, integer (gather_bytes (take 8 content) 0 0), h)
  | string p ↦ string_access h (string p) >>= λ content. strlen content >>= λ n.
      elim (parse_integer (take n content)) [
        | none ↦ ok (illegal_arguments, out, h)
        | some value ↦ ok (no_error, integer value, h)
      ]
  | integer n ↦ assign_value h out (integer n) >>= λ r. ok (no_error, r.0, r.1)
  | other ↦ ok (illegal_arguments, out, h)
]

-- The loop of `lai_mutate_integer` over at most `left` hexadecimal digits.
unfoldable pub mutate_digits : (left : ℕ) → List ℕ → ℕ → Run ℕ
unfolding hex_digit
mutate_digits zero s n = ok n
mutate_digits (suc left) [] n = fault
mutate_digits (suc left) (c ∷ s) n = elim (hex_digit c) [
  | none ↦ ok n
  | some v ↦ mutate_digits left s (bit_or (u64 (shl n 4)) v)
]

-- `LAI_ENSURE(target->type == LAI_INTEGER)`
abbrev pub ensure_integer : Var → Run (Unit {0})
ensure_integer (integer n) = ok tt
ensure_integer other = panic

-- `lai_mutate_integer`
unfoldable pub mutate_integer : Heap → (target object : Var) → Run Filled
unfolding mutate_digits string_access buffer_access assign_value gather_bytes
mutate_integer h target object = elim object [
  | integer n ↦ assign_value h target (integer n) >>= λ r. ok (no_error, r.0, r.1)
  | string p ↦ string_access h (string p) >>= λ content.
      ensure_integer target >> mutate_digits 16 content 0 >>= λ n. ok (no_error, integer n, h)
  | buffer p ↦ ensure_integer target >> buffer_access h (buffer p) >>= λ content.
      ok (no_error, integer (gather_bytes (take (min (length content) 8) content) 0 0), h)
  | other ↦ ok (illegal_arguments, target, h)
]

-- `lai_obj_get_integer`; on an error the output is not written.
unfoldable pub obj_get_integer : (object : Var) → ApiError × Option ℕ
obj_get_integer (integer n) = (no_error, some n)
obj_get_integer other = (type_mismatch, none)
