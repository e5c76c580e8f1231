-- ===== src/Convert/Cells.antt =====
-- Accesses to cells that are there, cells that are new, and texts in an array.
use lai.Base.{
  ℕ, zero, suc, ◌+◌, ◌-◌, ◌≤◌, ◌<◌, min, ◌≡◌, ◌≢◌, refl, ap, ==_ne, le→leb, some, List, [], ◌∷◌,
  ◌++◌, length, take, drop, replicate, set, get_or, ok, arith,
}
use lai.Objects.{string, buffer, string_head, buffer_head, Cell, Heap, cell_at, deref}
use lai.Convert.{string_access, buffer_access, strlen, put_head, write_string, write_buffer, memcpy}

-- No character of a text is the terminator.
abbrev pub NoZero : List ℕ → Type 0
NoZero [] = Unit
NoZero (c ∷ s) = (c ≢ 0) × NoZero s

pub strlen-text : (text rest : List ℕ) → NoZero text → strlen (text ++ 0 ∷ rest) ≡ ok (length text)
unfolding strlen
strlen-text [] rest n = refl
strlen-text (c ∷ text) rest (ne, n) =
    let more : length text + 1 ≡ suc (length text) = omega arith in
    rw (strlen, ==_ne c 0 ne, strlen-text text rest n, more) refl

pub set-append_self {ℓ} :
    {A : Type ℓ} (xs : List A) (a b : A) → set (xs ++ a ∷ []) (length xs) b ≡ xs ++ b ∷ []
set-append_self [] a b = refl
set-append_self (x ∷ xs) a b = ap (λ t. x ∷ t) (set-append_self xs a b)

pub get_or-append_self {ℓ} :
    {A : Type ℓ} (xs : List A) (a d : A) → get_or (xs ++ a ∷ []) (length xs) d ≡ a
get_or-append_self [] a d = refl
get_or-append_self (x ∷ xs) a d = get_or-append_self xs a d

pub get_or-append_low {ℓ} :
    {A : Type ℓ} (xs ys : List A) (i : ℕ) (d : A)
    → i < length xs
    → get_or (xs ++ ys) i d ≡ get_or xs i d
get_or-append_low [] ys i d lt = elim lt [ ]
get_or-append_low (x ∷ xs) ys zero d lt = refl
get_or-append_low (x ∷ xs) ys (suc i) d lt = get_or-append_low xs ys i d (omega arith)

pub drop-replicate {ℓ} :
    {A : Type ℓ} (k n : ℕ) (a : A) → drop k (replicate n a) ≡ replicate (n - k) a
drop-replicate zero n a = let e : n - 0 ≡ n = omega arith in rw e refl
drop-replicate (suc k) zero a = let e : 0 - suc k ≡ 0 = omega arith in rw e refl
drop-replicate (suc k) (suc n) a =
    let e : suc n - suc k ≡ n - k = omega arith in rw e (drop-replicate k n a)

pub take-take {ℓ} : {A : Type ℓ} (m n : ℕ) (xs : List A) → take m (take n xs) ≡ take (min n m) xs
take-take zero n xs = let e : min n 0 ≡ 0 = omega arith in rw e refl
take-take (suc m) zero xs = let e : min 0 (suc m) ≡ 0 = omega arith in rw e refl
take-take (suc m) (suc n) [] =
    let e : min (suc n) (suc m) ≡ suc (min n m) = omega arith in rw e refl
take-take (suc m) (suc n) (x ∷ xs) =
    let e : min (suc n) (suc m) ≡ suc (min n m) = omega arith in
    rw e (ap (λ t. x ∷ t) (take-take m n xs))

-- A cell that is there.
module _ (h : Heap) (p : ℕ) (c : Cell) (here : cell_at h p ≡ some c) where
  pub buffer_access_at :
      (content : List ℕ) → c.head ≡ buffer_head content → buffer_access h (buffer p) ≡ ok content
  unfolding buffer_access deref
  buffer_access_at content e = rw (buffer_access, deref, here, e) refl

  pub string_access_at :
      (content : List ℕ) → c.head ≡ string_head content → string_access h (string p) ≡ ok content
  unfolding string_access deref
  string_access_at content e = rw (string_access, deref, here, e) refl

  pub write_buffer_at :
      (content : List ℕ)
      → write_buffer h (buffer p) content
        ≡ ok (set h p (some (record { rc = c.rc; head = buffer_head content })))
  unfolding write_buffer put_head deref
  write_buffer_at content = rw (write_buffer, put_head, deref, here) refl

  pub write_string_at :
      (content : List ℕ)
      → write_string h (string p) content
        ≡ ok (set h p (some (record { rc = c.rc; head = string_head content })))
  unfolding write_string put_head deref
  write_string_at content = rw (write_string, put_head, deref, here) refl

pub memcpy_fits :
    (destination source : List ℕ) (n : ℕ)
    → n ≤ length destination
    → n ≤ length source
    → memcpy destination source n ≡ ok (take n source ++ drop n destination)
unfolding memcpy
memcpy_fits destination source n le le' =
    rw (le→leb n (length destination) le, le→leb n (length source) le') refl
