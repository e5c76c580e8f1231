-- ===== src/ExecStack/Items.antt =====
-- core/exec_impl.h: the stacks hold a list of items, the last one on top.
use native.Mathlib.Decide.{dec_lt}
use lai.Base.{
  fault, true, ltb, le→ltb, ◌^◌, lt→leb, le→leb, read-eq-ok, ℕ, zero, suc, ◌+◌, ◌-◌, ◌*◌, ◌≤◌, ◌<◌,
  ◌≡◌, ◌⊎◌, inl, inr, refl, sym, ap, ap₂, ◌∙◌, Bool, false, ◌==◌, lt→ltb, Bool-cases, ==_true,
  ==_false, none, some, List, [], ◌∷◌, ◌++◌, length, take, set, replicate, get_or, length-append,
  length-take, length-set, length-replicate, ok, arith,
}
use lai.ExecStack.{Stack, capacity, reserve, push, fill, pop, peek}

module _ {ℓ} {A : Type ℓ} where
  abbrev pub items : Stack A → List A
  items s = take s.ptr s.base

  -- The pointer is within the array, which is not empty.
  abbrev pub IsStack : Stack A → Type 0
  IsStack s = (s.ptr ≤ capacity s) × (0 < capacity s)

  take-append_self : (n : ℕ) (xs ys : List A) → n ≡ length xs → take n (xs ++ ys) ≡ xs
  take-append_self n [] ys e = rw e refl
  take-append_self zero (x ∷ xs) ys e = absurd (omega (arith, e))
  take-append_self (suc n) (x ∷ xs) ys e =
      ap (λ (r : List A). x ∷ r) (take-append_self n xs ys (omega (arith, e)))

  take_all : (n : ℕ) (xs : List A) → n ≡ length xs → take n xs ≡ xs
  take_all n [] e = rw e refl
  take_all zero (x ∷ xs) e = absurd (omega (arith, e))
  take_all (suc n) (x ∷ xs) e = ap (λ (r : List A). x ∷ r) (take_all n xs (omega (arith, e)))

  take-set_last :
      (n : ℕ) (xs : List A) (v : A)
      → n < length xs
      → take (n + 1) (set xs n v) ≡ take n xs ++ v ∷ []
  take-set_last n [] v lt = absurd (omega (arith, lt))
  take-set_last zero (x ∷ xs) v lt = refl
  take-set_last (suc n) (x ∷ xs) v lt =
      let e : suc n + 1 ≡ suc (n + 1) = omega arith in
      rw e (ap (λ (r : List A). x ∷ r) (take-set_last n xs v (omega (arith, lt))))

  take-set_past : (n i : ℕ) (xs : List A) (v : A) → n ≤ i → take n (set xs i v) ≡ take n xs
  take-set_past zero i xs v le = refl
  take-set_past (suc n) i [] v le = refl
  take-set_past (suc n) zero (x ∷ xs) v le = absurd (omega (arith, le))
  take-set_past (suc n) (suc i) (x ∷ xs) v le =
      ap (λ (r : List A). x ∷ r) (take-set_past n i xs v (omega (arith, le)))

  take-take : (n k : ℕ) (xs : List A) → n ≤ k → take n (take k xs) ≡ take n xs
  take-take zero k xs le = refl
  take-take (suc n) zero xs le = absurd (omega (arith, le))
  take-take (suc n) (suc k) [] le = refl
  take-take (suc n) (suc k) (x ∷ xs) le =
      ap (λ (r : List A). x ∷ r) (take-take n k xs (omega (arith, le)))

  get_or-take : (n i : ℕ) (xs : List A) (d : A) → i < n → get_or (take n xs) i d ≡ get_or xs i d
  get_or-take zero i xs d lt = absurd (omega (arith, lt))
  get_or-take (suc n) i [] d lt = refl
  get_or-take (suc n) zero (x ∷ xs) d lt = refl
  get_or-take (suc n) (suc i) (x ∷ xs) d lt = get_or-take n i xs d (omega (arith, lt))

  get_or-middle :
      (xs : List A) (y : A) (ys : List A) (d : A) → get_or (xs ++ y ∷ ys) (length xs) d ≡ y
  get_or-middle [] y ys d = refl
  get_or-middle (x ∷ xs) y ys d = get_or-middle xs y ys d

  length-items : (s : Stack A) → IsStack s → length (items s) ≡ s.ptr
  length-items s v = omega (arith, length-take s.ptr s.base, v)

  -- A full array is doubled, another stays as it is.
  abbrev pub Grown : Bool → Stack A → Stack A → Type ℓ
  Grown room s t =
      (s.ptr ≡ capacity s) × (room ≡ true) × (capacity t ≡ 2 * capacity s)
      ⊎ (s.ptr < capacity s) × (t ≡ s)

  -- What `reserve` returns: room for one more item, or the stack as it is.
  abbrev pub Reserved : Bool → Stack A → ℕ × Stack A → Type ℓ
  Reserved room s r =
      ((r.0 ≡ 0)
        × IsStack r.1
        × (items r.1 ≡ items s)
        × (r.1.ptr ≡ s.ptr)
        × (s.ptr < capacity r.1)
        × Grown room s r.1)
      ⊎ ((r.0 ≡ 1) × (r.1 ≡ s) × (s.ptr ≡ capacity s) × (room ≡ false))

  -- What is on a stack after an item has been reserved, pushed and written.
  abbrev pub Pushed : Stack A → A → Stack A → Type ℓ
  Pushed s v out = (items out ≡ items s ++ v ∷ []) × IsStack out × (out.ptr ≡ s.ptr + 1)

  module _ (blank : A) where
    grown_capacity :
        (s : Stack A)
        → s.ptr ≡ capacity s
        → length (take s.ptr s.base ++ replicate (2 * capacity s - s.ptr) blank) ≡ 2 * capacity s
    grown_capacity s full =
        length-append (take s.ptr s.base) (replicate (2 * capacity s - s.ptr) blank)
        ∙ omega
            (arith, length-take s.ptr s.base, length-replicate (2 * capacity s - s.ptr) blank, full)

    granted :
        (room : Bool) (s : Stack A)
        → IsStack s
        → (s.ptr == capacity s) ≡ true
        → s.ptr ≡ capacity s
        → ltb (2 * capacity s) (2 ^ 31) ≡ true
        → (r : ℕ × Stack A) × (reserve blank room s ≡ ok r) × Reserved room s r
    unfolding reserve
    granted false s v full e fits = ((1, s), rw (full, fits) refl, inr (refl, refl, e, refl))
    granted true s v full e fits = (
      (0, record s { base = take s.ptr s.base ++ replicate (2 * capacity s - s.ptr) blank }),
      rw (full, fits) refl,
      inl (
        refl,
        (omega (arith, grown_capacity s e, e), omega (arith, grown_capacity s e, v)),
        take-append_self s.ptr (take s.ptr s.base) (replicate (2 * capacity s - s.ptr) blank)
            (omega (arith, length-take s.ptr s.base, e)),
        refl,
        omega (arith, grown_capacity s e, v, e),
        inl (e, refl, grown_capacity s e),
      ),
    )

    -- The growth of a capacity past the int is the one fault.
    pub reserve-Reserved :
        (room : Bool) (s : Stack A)
        → IsStack s
        → ((reserve blank room s ≡ fault) × (2 ^ 31 ≤ 2 * capacity s) × (s.ptr ≡ capacity s))
          ⊎ ((r : ℕ × Stack A) × (reserve blank room s ≡ ok r) × Reserved room s r)
    unfolding reserve
    reserve-Reserved room s v = elim (Bool-cases (s.ptr == capacity s)) [
      | inr free ↦ inr (
        (0, s),
        rw free refl,
        (let lt : s.ptr < capacity s = omega (arith, v, ==_false s.ptr (capacity s) free) in
            inl (refl, v, refl, refl, lt, inr (lt, refl))),
      )
      | inl full ↦
          let e = ==_true s.ptr (capacity s) full in
          elim (dec_lt (2 * capacity s) (2 ^ 31)) [
            | no large ↦ inl (
              rw (full, le→ltb (2 * capacity s) (2 ^ 31) (omega (arith, large))) refl,
              omega (arith, large),
              e,
            )
            | yes fits ↦ inr (granted room s v full e (lt→ltb (2 * capacity s) (2 ^ 31) fits))
          ]
    ]

    push-fill :
        (s : Stack A) (v : A)
        → s.ptr < capacity s
        → (out : Stack A) × (push blank s ≡ ok out) × Pushed s v (fill out v)
    unfolding push fill
    push-fill s v lt =
        let cleared = set s.base s.ptr blank in
        let same : s.ptr + 1 - 1 ≡ s.ptr = omega arith in
        (
          record { base = cleared; ptr = s.ptr + 1 },
          rw (lt→ltb s.ptr (capacity s) lt) refl,
          (
            ap (λ (t : ℕ). take (s.ptr + 1) (set cleared t v)) same
                ∙ take-set_last s.ptr cleared v (omega (arith, length-set s.base s.ptr blank, lt))
                ∙ ap (λ (r : List A). r ++ v ∷ [])
                    (take-set_past s.ptr s.ptr s.base blank (omega arith)),
            (
              omega
                  (arith, length-set cleared (s.ptr + 1 - 1) v, length-set s.base s.ptr blank, lt),
              omega
                  (arith, length-set cleared (s.ptr + 1 - 1) v, length-set s.base s.ptr blank, lt),
            ),
            refl,
          ),
        )

    -- For a stack within an array that is not empty and whose capacity can double within an int:
    -- reserve returns 0, and push and the write of an item after it end in no panic and add the
    -- item on top of the list that the stack stands for, where a full array has been doubled and
    -- any other is as it was; or the array is full and the allocation fails, and reserve returns
    -- 1 and leaves the stack as it is.
    pub reserve-push :
        (room : Bool) (s : Stack A) (v : A)
        → IsStack s
        → 2 * capacity s < 2 ^ 31
        → ((s' : Stack A) × (out : Stack A) × (reserve blank room s ≡ ok (0, s'))
            × (push blank s' ≡ ok out)
            × Pushed s v (fill out v)
            × Grown room s s')
          ⊎ (reserve blank room s ≡ ok (1, s)) × (room ≡ false) × (s.ptr ≡ capacity s)
    reserve-push room s v w int = elim (reserve-Reserved room s w) [
      | inl (fails, large, full) ↦ absurd (omega (arith, large, int))
      | inr (r, run, inl (zero_, st, same, at, lt, grown)) ↦
          let (out, pushed, (all, st', next)) = push-fill r.1 v (omega (arith, at, lt)) in
          inl (
            r.1,
            out,
            run ∙ ap (λ (e : ℕ). ok (e, r.1)) zero_,
            pushed,
            (all ∙ ap (λ (t : List A). t ++ v ∷ []) same, st', omega (arith, next, at)),
            grown,
          )
      | inr (r, run, inr (one, same, full, refused)) ↦
          inr (run ∙ ap₂ (λ (a : ℕ) (b : Stack A). ok (a, b)) one same, refused, full)
    ]

  pub pop-items :
      (s : Stack A) (xs : List A) (v : A)
      → IsStack s
      → items s ≡ xs ++ v ∷ []
      → (out : Stack A) × (pop s ≡ ok out) × (items out ≡ xs) × IsStack out
  unfolding pop
  pop-items s xs v w e =
      let n : s.ptr ≡ length xs + 1 =
        omega (arith, ap length e, length-items s w, length-append xs (v ∷ [])) in
      (
        record s { ptr = s.ptr - 1 },
        rw (lt→ltb 0 s.ptr (omega (arith, n))) refl,
        (let back : s.ptr - 1 ≡ length xs = omega (arith, n) in
            ap (λ (t : ℕ). take t s.base) back
            ∙ sym (take-take (length xs) s.ptr s.base (omega (arith, n)))
            ∙ ap (λ (r : List A). take (length xs) r) e
            ∙ take-append_self (length xs) xs (v ∷ []) refl),
        (omega (arith, w), w.1),
      )

  pub peek-items :
      (s : Stack A) (xs : List A) (v : A) (ys : List A)
      → IsStack s
      → items s ≡ xs ++ v ∷ ys
      → (peek s (length ys) ≡ ok (some v)) × ((n : ℕ) → length (items s) ≤ n → peek s n ≡ ok none)
  unfolding peek
  peek-items s xs v ys w e =
      let n : s.ptr ≡ length xs + suc (length ys) =
        omega (arith, ap length e, length-items s w, length-append xs (v ∷ ys)) in
      let at : s.ptr - 1 - length ys ≡ length xs = omega (arith, n) in
      let found : get_or s.base (length xs) v ≡ v =
        sym (get_or-take s.ptr (length xs) s.base v (omega (arith, n)))
        ∙ ap (λ (r : List A). get_or r (length xs) v) e
        ∙ get_or-middle xs v ys v in
      (
        rw
            (
              lt→leb s.ptr (length ys) (omega (arith, n)),
              at,
              read-eq-ok s.base (length xs) v (omega (arith, n, w)),
              found,
            )
            refl,
        λ k le. rw (le→leb s.ptr k (omega (arith, le, length-items s w))) refl,
      )
