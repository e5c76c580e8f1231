-- ===== src/Convert/Through.antt =====
-- core/object.c: integers that become buffers or decimal strings, and integers again.
use mathlib.Core.List.{append-nil, append_assoc}
use lai.Base.{
  ℕ, ◌+◌, ◌-◌, ◌*◌, ◌%◌, ◌^◌, ◌≤◌, ◌<◌, ◌≡◌, refl, sym, ap, ◌∙◌, true, false, none, some, List, [],
  ◌∷◌, ◌++◌, length, take, drop, replicate, length-replicate, length-append, take-append, ok, ◌>>=◌,
  no_error, arith,
}
use lai.Objects.{Var, integer, string, buffer, string_head, buffer_head, Cell, Heap, cell_at}
use lai.OpRegion.Values.{spread_bytes}
use lai.OpRegion.Integers.{spread_length}
use lai.OpRegion.Bytes.{gather_bytes-spread_bytes}
use lai.Convert.{create, create_buffer, create_string, string_access}
use lai.Convert.Buffers.{create_copy, to_buffer}
use lai.Convert.Integers.{decimal_digit, parse_digits, is_hex, parse_integer, to_integer}
use lai.Printf.Decimal.{number, AllDigits, Digits, snprintf-llu}
use lai.Convert.Strings.{write_at_start, create_filled, to_decimal_string}
use lai.Convert.Cells.{
  NoZero, strlen-text, set-append_self, get_or-append_self, buffer_access_at, string_access_at,
  write_buffer_at, write_string_at, memcpy_fits,
}
use lai.Convert.Fit.{take_whole}

-- A heap with one more object.
abbrev pub grown : Heap → Cell → Heap
grown h c = h ++ some c ∷ []

pub create_copy_lem :
    (h : Heap) (source : List ℕ) (size n : ℕ)
    → n ≤ size
    → n ≤ length source
    → create_copy true h source size n
      ≡ ok (
        no_error,
        buffer (length h),
        grown h
            (record { rc = 1; head = buffer_head (take n source ++ drop n (replicate size 0)) }),
      )
unfolding create_copy create_buffer create
create_copy_lem h source size n le le' =
    let zeros : List ℕ = replicate size 0 in
    let made : Cell = record { rc = 1; head = buffer_head zeros } in
    let at : cell_at (grown h made) (length h) ≡ some made =
      get_or-append_self h (some made) none in
    let content : List ℕ = take n source ++ drop n zeros in
    rw
      (
        buffer_access_at (grown h made) (length h) made at zeros refl,
        memcpy_fits zeros source n (omega (arith, length-replicate {A = ℕ} size 0)) le',
        write_buffer_at (grown h made) (length h) made at content,
        set-append_self h (some made) (some (record { rc = 1; head = buffer_head content })),
      )
      refl

-- An integer of 64 bits that lai_obj_to_buffer converts to a buffer, with room for it, and
-- lai_obj_to_integer back, is itself again; the buffer has its eight bytes, the least significant
-- first, and no other object changes.
pub to_integer-to_buffer :
    (fuel n : ℕ) (h : Heap) (out out' : Var)
    → n < 2 ^ 64
    → (to_buffer fuel true h out (integer n) >>= λ r. to_integer r.2 out' r.1)
      ≡ ok (
        no_error,
        integer n,
        grown h (record { rc = 1; head = buffer_head (spread_bytes 8 0 n) }),
      )
unfolding to_buffer to_integer
to_integer-to_buffer fuel n h out out' lt =
    let bytes = spread_bytes 8 0 n in
    let size : length bytes ≡ 8 = spread_length 8 0 n in
    let all_of : take 8 bytes ++ [] ≡ bytes =
      append-nil (take 8 bytes) ∙ take_whole 8 bytes (sym size) in
    let c : Cell = record { rc = 1; head = buffer_head bytes } in
    rw
      (
        create_copy_lem h bytes 8 8 (omega arith) (omega (arith, size)),
        all_of,
        buffer_access_at (grown h c) (length h) c (get_or-append_self h (some c) none) bytes refl,
        size,
        take_whole 8 bytes (sym size),
        gather_bytes-spread_bytes 8 n (omega arith) lt,
      )
      refl

-- The digits of a number are read as the number.
number-le : (s : List ℕ) (n : ℕ) → n ≤ number s n
number-le [] n = omega arith
number-le (c ∷ s) n = omega (arith, number-le s (n * 10 + (c - b'0')))

parse_digits_decimal :
    (s : List ℕ) (n : ℕ)
    → AllDigits s
    → number s n < 2 ^ 64
    → parse_digits 10 decimal_digit s n ≡ some (number s n)
unfolding parse_digits decimal_digit
parse_digits_decimal [] n a lt = refl
parse_digits_decimal (c ∷ s) n (lo, hi, a) lt =
    let step : decimal_digit c ≡ some (c - b'0') = ground arith in
    let small : (n * 10 + (c - b'0')) % 2 ^ 64 ≡ n * 10 + (c - b'0') =
      omega (arith, lt, number-le s (n * 10 + (c - b'0'))) in
    rw (parse_digits, step, small) (parse_digits_decimal s (n * 10 + (c - b'0')) a lt)

is_hex_digits : (s : List ℕ) → AllDigits s → is_hex s ≡ false
unfolding is_hex
is_hex_digits [] a = refl
is_hex_digits (c ∷ []) a = refl
is_hex_digits (c ∷ d ∷ s) (lo, hi, (lo', hi', a)) = ground arith

NoZero-AllDigits : (s : List ℕ) → AllDigits s → NoZero s
NoZero-AllDigits [] a = tt
NoZero-AllDigits (c ∷ s) (lo, hi, a) = ((λ e. omega (arith, e, lo)), NoZero-AllDigits s a)

parse_integer-Digits :
    (n : ℕ) (ds : List ℕ) → Digits n 20 ds → n < 2 ^ 64 → parse_integer ds ≡ some n
unfolding parse_integer
parse_integer-Digits n ds d lt =
    let value : number ds 0 ≡ n =
      ap (λ (t : List ℕ). number t 0) (sym (append-nil ds)) ∙ d.value [] in
    rw (is_hex_digits ds d.all)
      (parse_digits_decimal ds 0 d.all (omega (arith, value, lt)) ∙ ap (λ (t : ℕ). some t) value)

-- The content of a string of 20 characters that is filled with a text.
abbrev pub filled_string : List ℕ → Cell
filled_string text = record {
  rc = 1;
  head = string_head (take (length text) text ++ drop (length text) (replicate 21 0));
}

create_filled_lem :
    (h : Heap) (text : List ℕ)
    → length text ≤ 21
    → create_filled true h 20 text ≡ ok (no_error, string (length h), grown h (filled_string text))
unfolding create_filled create_string create write_at_start
create_filled_lem h text le =
    let zeros : List ℕ = replicate 21 0 in
    let made : Cell = record { rc = 1; head = string_head zeros } in
    let at : cell_at (grown h made) (length h) ≡ some made =
      get_or-append_self h (some made) none in
    rw
      (
        string_access_at (grown h made) (length h) made at zeros refl,
        memcpy_fits zeros text (length text) le (omega arith),
        write_string_at (grown h made) (length h) made at
            (take (length text) text ++ drop (length text) zeros),
        set-append_self h (some made) (some (filled_string text)),
      )
      refl

-- An integer of 64 bits that lai_obj_to_decimal_string converts to a string, with room for it,
-- and lai_obj_to_integer back, is itself again; one object is added and no other changes.
pub to_integer-to_decimal_string :
    (fuel n : ℕ) (h : Heap) (out out' : Var)
    → n < 2 ^ 64
    → (c : Cell) × ((to_decimal_string fuel true h out (integer n) >>= λ r. to_integer r.2 out' r.1)
        ≡ ok (no_error, integer n, grown h c))
unfolding to_decimal_string to_integer
to_integer-to_decimal_string fuel n h out out' lt =
    let (ds, printed, d) = snprintf-llu n lt in
    let text : List ℕ = ds ++ 0 ∷ [] in
    let size : length text ≡ length ds + 1 = length-append ds (0 ∷ []) in
    let rest : List ℕ = drop (length text) (replicate 21 0) in
    let c = filled_string text in
    let shape : take (length text) text ++ rest ≡ ds ++ 0 ∷ rest =
      ap (λ (t : List ℕ). t ++ rest) (take_whole (length text) text refl)
      ∙ append_assoc ds (0 ∷ []) rest in
    let at : string_access (grown h c) (string (length h)) ≡ ok (ds ++ 0 ∷ rest) =
      string_access_at (grown h c) (length h) c (get_or-append_self h (some c) none)
        (ds ++ 0 ∷ rest) (ap string_head shape) in
    (
      c,
      rw
          (
            printed,
            create_filled_lem h text (omega (arith, size, d.few)),
            at,
            strlen-text ds rest (NoZero-AllDigits ds d.all),
            ◌>>=◌,
            take-append ds (0 ∷ rest),
            parse_integer-Digits n ds d lt,
          )
          refl,
    )
