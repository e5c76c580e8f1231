-- ===== src/Printf/Decimal.antt =====
-- core/vsnprintf.c: the decimal digits of an integer, and the number that they are.
use native.Mathlib.Nat.{pow-suc}
use mathlib.Core.List.{append_assoc, append-nil}
use lai.Base.{
  ℕ, zero, suc, ◌+◌, ◌-◌, ◌*◌, ◌/◌, ◌%◌, ◌^◌, ◌≤◌, ◌<◌, ◌≡◌, refl, sym, ap, ◌∙◌, Bool, Bool-cases,
  inl, inr, true, false, ◌==◌, ==_true, none, List, [], ◌∷◌, ◌++◌, length, length-append, leb,
  le→leb, ◌&&◌, read, ok, ◌>>=◌, arith,
}
use lai.Printf.{
  digits_lower, num_digits, num_fmt, negative_int, long_arg, next_number, next_long, convert,
  vsnprintf, snprintf, llu, is_digit, parse_padding, parse_wide, parse_pad_with,
}

-- The number that decimal digits are, after `n`.
abbrev pub number : List ℕ → ℕ → ℕ
number [] n = n
number (c ∷ s) n = number s (n * 10 + (c - b'0'))

abbrev pub AllDigits : List ℕ → Type 0
AllDigits [] = Unit
AllDigits (c ∷ s) = (b'0' ≤ c) × (c ≤ b'9') × AllDigits s

digit_char : (d : ℕ) → d < 10 → read digits_lower d ≡ ok (b'0' + d)
digit_char zero lt = refl
digit_char (suc zero) lt = refl
digit_char (suc (suc zero)) lt = refl
digit_char (suc (suc (suc zero))) lt = refl
digit_char (suc (suc (suc (suc zero)))) lt = refl
digit_char (suc (suc (suc (suc (suc zero))))) lt = refl
digit_char (suc (suc (suc (suc (suc (suc zero)))))) lt = refl
digit_char (suc (suc (suc (suc (suc (suc (suc zero))))))) lt = refl
digit_char (suc (suc (suc (suc (suc (suc (suc (suc zero)))))))) lt = refl
digit_char (suc (suc (suc (suc (suc (suc (suc (suc (suc zero))))))))) lt = refl
digit_char (suc (suc (suc (suc (suc (suc (suc (suc (suc (suc d)))))))))) lt = absurd (omega arith)

-- The digits of `i`, in front of the text `out`.
pub record Digits (i bound : ℕ) (ds : List ℕ) : Type 0 where
  pub all : AllDigits ds
  pub value : (out : List ℕ) → number (ds ++ out) 0 ≡ number out i
  pub some_digit : 0 < length ds
  pub few : length ds ≤ bound

AllDigits-append : (xs ys : List ℕ) → AllDigits xs → AllDigits ys → AllDigits (xs ++ ys)
AllDigits-append [] ys a b = b
AllDigits-append (x ∷ xs) ys (lo, hi, a) b = (lo, hi, AllDigits-append xs ys a b)

-- One digit is put behind those of `i / 10`.
Digits-snoc :
    (i bound : ℕ) (ds : List ℕ)
    → Digits (i / 10) bound ds
    → Digits i (suc bound) (ds ++ (b'0' + i % 10) ∷ [])
Digits-snoc i bound ds d = record {
  all = AllDigits-append ds ((b'0' + i % 10) ∷ []) d.all (omega arith);
  value = λ out.
      rw (append_assoc ds ((b'0' + i % 10) ∷ []) out)
        (d.value ((b'0' + i % 10) ∷ out) ∙ ap (λ (t : ℕ). number out t) (omega arith));
  some_digit = omega (arith, length-append ds ((b'0' + i % 10) ∷ []));
  few = omega (arith, length-append ds ((b'0' + i % 10) ∷ []), d.few);
}

-- The digits that the loop puts in front of `out`, when it has `fuel` rounds.
abbrev pub Prints : (fuel bound i : ℕ) (out : List ℕ) → Type 0
Prints fuel bound i out =
    (ds : List ℕ) × (num_digits fuel i 10 digits_lower 0 none out ≡ ok (0, ds ++ out))
    × Digits i (suc bound) ds

last_digit : (fuel bound i : ℕ) (out : List ℕ) → i / 10 ≡ 0 → Prints (suc fuel) bound i out
unfolding num_digits
last_digit fuel bound i out small = (
  (b'0' + i % 10) ∷ [],
  rw (num_digits, digit_char (i % 10) (omega arith), small) refl,
  record {
    all = omega arith;
    value = λ out'. ap (λ (t : ℕ). number out' t) (omega (arith, small));
    some_digit = omega arith;
    few = omega arith;
  },
)

more_digits :
    (fuel bound i : ℕ) (out : List ℕ)
    → (i / 10 == 0) ≡ false
    → Prints fuel bound (i / 10) ((b'0' + i % 10) ∷ out)
    → Prints (suc fuel) (suc bound) i out
unfolding num_digits
more_digits fuel bound i out more (ds, run, d) = (
  ds ++ (b'0' + i % 10) ∷ [],
  rw (num_digits, digit_char (i % 10) (omega arith), more)
      (run ∙ ap (λ (t : List ℕ). ok (0, t)) (sym (append_assoc ds ((b'0' + i % 10) ∷ []) out))),
  Digits-snoc i (suc bound) ds d,
)

pub num_digits-Digits :
    (bound fuel i : ℕ) (out : List ℕ) → i < 10 ^ suc bound → bound < fuel → Prints fuel bound i out
num_digits-Digits bound zero i out lt less = absurd (omega arith)
num_digits-Digits zero (suc fuel) i out lt less = last_digit fuel 0 i out (omega arith)
num_digits-Digits (suc bound) (suc fuel) i out lt less = elim (Bool-cases (i / 10 == 0)) [
  | inl last ↦ last_digit fuel (suc bound) i out (==_true (i / 10) 0 last)
  | inr more ↦
      let below : i / 10 < 10 ^ suc bound = omega (arith, pow-suc 10 (suc bound)) in
      more_digits fuel bound i out more
        (num_digits-Digits bound fuel (i / 10) ((b'0' + i % 10) ∷ out) below (omega arith))
]

and_false : (b : Bool) → (b && false) ≡ false
and_false true = refl
and_false false = refl

num_fmt-Digits :
    (n : ℕ)
    → n < 2 ^ 64
    → (ds : List ℕ) × (num_fmt n 10 0 b' ' false false none ≡ ok ds) × Digits n 20 ds
unfolding num_fmt
num_fmt-Digits n lt =
    let (ds, run, d) = num_digits-Digits 19 64 n [] (omega arith) (omega arith) in
    let short : leb (length ds) 49 ≡ true = le→leb (length ds) 49 (omega (arith, d.few)) in
    (ds, rw (num_fmt, and_false (negative_int n), run, append-nil ds, short) refl, d)

-- `lai_snprintf(s, 21, "%llu", n)`.
pub snprintf-llu :
    (n : ℕ)
    → n < 2 ^ 64
    → (ds : List ℕ) × (snprintf 21 llu (long_arg n ∷ []) ≡ ok (ds ++ 0 ∷ [])) × Digits n 20 ds
unfolding snprintf vsnprintf convert parse_pad_with parse_padding is_digit parse_wide next_number
    next_long
snprintf-llu n lt =
    let (ds, run, d) = num_fmt-Digits n lt in
    let room : leb (length ds) 21 ≡ true = le→leb (length ds) 21 (omega (arith, d.few)) in
    let left : 21 - length ds ≡ suc (20 - length ds) = omega (arith, d.few) in
    (ds, rw (run, ◌>>=◌, room, left, ◌>>=◌) refl, d)
