-- ===== src/Printf.antt =====
-- core/vsnprintf.c: formatted output. A format and a text are lists without their terminator.
pub mod Decimal
use lai.Base.{
  ℕ, zero, suc, ◌+◌, ◌-◌, ◌*◌, ◌/◌, ◌%◌, ◌^◌, Bool, true, false, not, ◌&&◌, ◌||◌, ◌==◌, leb, ltb,
  if◌then◌else◌, Option, none, some, List, [], ◌∷◌, ◌++◌, length, take, drop, replicate, u8, Run,
  ok, panic, fault, read, ◌>>=◌,
}

abbrev pub digits_upper : List ℕ
digits_upper =
    b'0' ∷ b'1' ∷ b'2' ∷ b'3' ∷ b'4' ∷ b'5' ∷ b'6' ∷ b'7' ∷ b'8' ∷ b'9' ∷ b'A' ∷ b'B' ∷ b'C' ∷ b'D'
    ∷ b'E' ∷ b'F' ∷ []

abbrev pub digits_lower : List ℕ
digits_lower =
    b'0' ∷ b'1' ∷ b'2' ∷ b'3' ∷ b'4' ∷ b'5' ∷ b'6' ∷ b'7' ∷ b'8' ∷ b'9' ∷ b'a' ∷ b'b' ∷ b'c' ∷ b'd'
    ∷ b'e' ∷ b'f' ∷ []

-- `len` of `num_fmt`: the digits that may follow, or no bound.
abbrev pub next_len : Option ℕ → Option ℕ
next_len none = none
next_len (some n) = some (n - 1)

abbrev pub more_allowed : Option ℕ → Bool
more_allowed none = true
more_allowed (some n) = ltb 0 n

-- The first loop of `num_fmt`, before the digits `out`, and the padding that is left.
unfoldable pub num_digits :
    ℕ
    → (i base : ℕ) (digits : List ℕ) (padding : ℕ) (len : Option ℕ) (out : List ℕ)
    → Run (ℕ × List ℕ)
num_digits zero i base digits padding len out = panic
num_digits (suc fuel) i base digits padding len out = read digits (i % base) >>= λ d.
    elim (not (i / base == 0) && more_allowed (next_len len)) [
      | true ↦ num_digits fuel (i / base) base digits (padding - 1) (next_len len) (d ∷ out)
      | false ↦ ok (padding - 1, d ∷ out)
    ]

-- `(signed)i < 0`, where `int` has 32 bits.
unfoldable pub negative_int : ℕ → Bool
negative_int i = leb (2 ^ 31) (i % 2 ^ 32)

-- `num_fmt`; the text must fit into its array of 50 characters.
unfoldable pub num_fmt :
    (i base padding pad_with : ℕ) (handle_signed upper : Bool) (len : Option ℕ) → Run (List ℕ)
num_fmt i base padding pad_with handle_signed upper len =
    let neg = negative_int i && handle_signed in
    let magnitude = if neg then 2 ^ 32 - i % 2 ^ 32 else i in
    num_digits 64 magnitude base (if upper then digits_upper else digits_lower) padding len []
    >>= λ r.
        let text = (if neg then b'-' ∷ [] else []) ++ replicate r.0 pad_with ++ r.1 in
        if leb (length text) 49 then ok text else fault

-- The arguments of a call, 32-bit and 64-bit patterns and texts.
pub data Arg : Type 0 where
  int_arg long_arg : (value : ℕ) → Arg
  string_arg : (text : List ℕ) → Arg

-- `i = va_arg(arg, int)` (an `int` in place of a longer argument is its low half) and
-- `i = va_arg(arg, long int)`.
unfoldable pub next_int : List Arg → Run (ℕ × List Arg)
next_int (int_arg n ∷ args) = ok (if ltb n (2 ^ 31) then n else n + (2 ^ 64 - 2 ^ 32), args)
next_int (long_arg n ∷ args) =
    let low = n % 2 ^ 32 in ok (if ltb low (2 ^ 31) then low else low + (2 ^ 64 - 2 ^ 32), args)
next_int args = fault

unfoldable pub next_long : List Arg → Run (ℕ × List Arg)
next_long (long_arg n ∷ args) = ok (n, args)
next_long args = fault

unfoldable pub next_number : (wide : Bool) → List Arg → Run (ℕ × List Arg)
unfolding next_int next_long
next_number true args = next_long args
next_number false args = next_int args

unfoldable pub next_string : List Arg → Run (List ℕ × List Arg)
next_string (string_arg s ∷ args) = ok (s, args)
next_string args = fault

unfoldable pub is_digit : ℕ → Bool
is_digit c = leb b'0' c && leb c b'9'

unfoldable pub parse_padding : (fmt : List ℕ) (padding : ℕ) → ℕ × List ℕ
unfolding is_digit
parse_padding [] padding = (padding, [])
parse_padding (c ∷ fmt) padding = elim (is_digit c) [
  | true ↦ parse_padding fmt (padding * 10 + (c - b'0'))
  | false ↦ (padding, c ∷ fmt)
]

unfoldable pub parse_wide : (fmt : List ℕ) (wide : Bool) → Bool × List ℕ
parse_wide [] wide = (wide, [])
parse_wide (c ∷ fmt) wide = elim (c == b'l') [
  | true ↦ parse_wide fmt true
  | false ↦ (wide, c ∷ fmt)
]

-- The `0` after the percent sign.
unfoldable pub parse_pad_with : (fmt : List ℕ) → ℕ × List ℕ
parse_pad_with [] = (b' ', [])
parse_pad_with (c ∷ fmt) = if c == b'0' then (b'0', fmt) else (b' ', c ∷ fmt)

-- The text of one conversion, by its letter.
unfoldable pub convert : (c padding pad_with : ℕ) (wide : Bool) → List Arg → Run (List ℕ × List Arg)
unfolding next_number next_int next_long next_string num_fmt
convert c padding pad_with wide args =
    if c == b'c'
    then (next_int args >>= λ r. ok (u8 r.0 ∷ [], r.1))
    else if c == b'd'
    then (next_number wide args >>= λ r.
        num_fmt r.0 10 padding pad_with true false none >>= λ text. ok (text, r.1))
    else if c == b'u'
    then (next_number wide args >>= λ r.
        num_fmt r.0 10 padding pad_with false false none >>= λ text. ok (text, r.1))
    else if c == b'o'
    then (next_number wide args >>= λ r.
        num_fmt r.0 8 padding pad_with false false none >>= λ text. ok (text, r.1))
    else if (c == b'X') || (c == b'x')
    then (next_number wide args >>= λ r.
        num_fmt r.0 16 padding pad_with false (c == b'X') (some (if wide then 16 else 8))
        >>= λ text. ok (text, r.1))
    else if (c == b'P') || (c == b'p')
    then (next_long args >>= λ r.
        num_fmt r.0 16 padding pad_with false (c == b'P') (some 16) >>= λ text. ok (text, r.1))
    else if c == b's'
    then next_string args
    else if c == b'%'
    then ok (b'%' ∷ [], args)
    else ok ([], args)

-- What is written at `end`.
abbrev pub ending : (len : ℕ) → List ℕ
ending zero = b'.' ∷ b'.' ∷ b'.' ∷ 0 ∷ []
ending (suc len) = 0 ∷ []

-- The result is everything that is written to the buffer. A plain character does not count for
-- `len`; a text that `FMT_PUT` has no room for ends the output.
unfoldable pub vsnprintf : ℕ → (len : ℕ) (fmt : List ℕ) → List Arg → Run (List ℕ)
unfolding parse_pad_with parse_padding parse_wide convert
vsnprintf zero len fmt args = panic
vsnprintf (suc fuel) zero fmt args = ok (ending zero)
vsnprintf (suc fuel) (suc len) [] args = ok (ending (suc len))
vsnprintf (suc fuel) (suc len) (c ∷ fmt) args = elim (c == b'%') [
  | false ↦ vsnprintf fuel (suc len) fmt args >>= λ rest. ok (c ∷ rest)
  | true ↦
      let pad = parse_pad_with fmt in
      let width = parse_padding pad.1 0 in
      let long = parse_wide width.1 false in
      read long.1 0 >>= λ letter. convert letter width.0 pad.0 long.0 args >>= λ r.
      elim (leb (length r.0) (suc len)) [
        | false ↦ ok (take (suc len) r.0 ++ ending zero)
        | true ↦
            vsnprintf fuel (suc len - length r.0) (drop 1 long.1) r.1 >>= λ rest. ok (r.0 ++ rest)
      ]
]

-- `lai_snprintf`
unfoldable pub snprintf : (len : ℕ) (fmt : List ℕ) → List Arg → Run (List ℕ)
unfolding vsnprintf
snprintf len fmt args = vsnprintf (suc (length fmt)) len fmt args

-- The format of an unsigned 64-bit integer.
abbrev pub llu : List ℕ
llu = b'%' ∷ b'l' ∷ b'l' ∷ b'u' ∷ []
