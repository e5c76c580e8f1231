-- ===== src/HashTable/Search.antt =====
-- The loop that walks a chain until an element passes a test: the body of `lai_ns_get_child` and of
-- the search for duplicates in `lai_install_nsnode`.
use mathlib.Core.Bool.{false≢true}
use lai.Base.{
  ℕ, zero, suc, ◌+◌, ◌≤◌, ◌<◌, ◌≡◌, refl, Bool, true, false, Option, none, some, arith, Run, ok,
  panic, inl, inr, ◌>>=◌, sym, ap, ◌∙◌, Bool-cases,
}
use native.Mathlib.Decide.{dec_lt}
use lai.HashTable.{HashTable, advance, chain_get}
use lai.HashTable.Invariant.{IsValid, slot}
use lai.HashTable.Chain.{
  IsNext, NoneFrom, advance_lem, Standing, matches-Standing, Standing-slot, Standing-matches,
  Standing-unique, slot-Standing_valid, chain_get_lem,
}

module _ {ℓ} {E : Type ℓ} (ht : HashTable E) (h : ℕ) (test : E → Run Bool) where
  unfoldable pub search_chain : (fuel seen : ℕ) → Run (Option E)
  search_chain zero seen = panic
  search_chain (suc fuel) seen = advance ht h seen >>= λ step. elim step.0 [
    | true ↦ ok none
    | false ↦ chain_get ht h step.1 >>= λ e.
        test e >>= λ hit. elim hit [ true ↦ ok (some e) | false ↦ search_chain fuel step.1 ]
  ]

  module _ (passes : E → Bool)
      (tests : (k : ℕ) (e : E) → slot ht k ≡ some (h, e) → test e ≡ ok (passes e)) where
    -- What the search returns: an element of the hash that passes, or the news that none does.
    abbrev pub Outcome : Option E → Type ℓ
    Outcome (some e) = (k : ℕ) × (slot ht k ≡ some (h, e)) × (passes e ≡ true)
    Outcome none = (k : ℕ) (e : E) → slot ht k ≡ some (h, e) → passes e ≡ false

    -- The elements before position `seen` have failed the test.
    abbrev Tried : ℕ → Type ℓ
    Tried seen = (i k : ℕ) (e : E) → i < seen → Standing ht h i k e → passes e ≡ false

    Tried-next :
        (seen i k : ℕ) (e : E)
        → Tried seen
        → IsNext ht h seen i
        → Standing ht h i k e
        → passes e ≡ false
        → Tried (i + 1)
    Tried-next seen i k e t n st fails j l x lt other = elim (dec_lt j seen) [
      | yes before ↦ t j l x before other
      | no after ↦ elim (dec_lt j i) [
        | yes between ↦ absurd (
            false≢true (sym (n.misses j (omega arith) between) ∙ Standing-matches ht h j l x other))
        | no last ↦
            let here : j ≡ i = omega arith in
            let same = Standing-unique ht h i l k x e (rw here at other) st in
            ap passes same ∙ fails
      ]
    ]

    -- At the end of the chain every element of the hash has failed.
    all-Tried :
        (seen : ℕ)
        → IsValid ht
        → Tried seen
        → NoneFrom ht h seen
        → (k : ℕ) (e : E) → slot ht k ≡ some (h, e)
        → passes e ≡ false
    all-Tried seen v t nothing k e at =
        let (i, lt, hit, st) = slot-Standing_valid ht h k e v at in
        elim (dec_lt i seen) [
          | yes before ↦ t i k e before st
          | no after ↦ absurd (false≢true (sym (nothing i (omega arith) lt) ∙ hit))
        ]

    search_loop :
        (fuel seen : ℕ)
        → IsValid ht
        → seen ≤ ht.bucket_capacity
        → ht.bucket_capacity < seen + fuel
        → Tried seen
        → (r : Option E) × (search_chain fuel seen ≡ ok r) × Outcome r
    unfolding search_chain
    search_loop zero seen v le room t = absurd (omega arith)
    search_loop (suc fuel) seen v le room t = elim (advance_lem ht h seen le) [
      | inr (nothing, run) ↦ (none, rw (search_chain, run) refl, all-Tried seen v t nothing)
      | inl (i, n, run) ↦
          let (k, e, st) = matches-Standing ht h i v.sized n.hit in
          let got = chain_get_lem ht h i k e st n.below in
          let at = Standing-slot ht h i k e st in
          elim (Bool-cases (passes e)) [
            | inl yes_ ↦ (
              some e,
              rw (search_chain, run, ◌>>=◌, got, ◌>>=◌, tests k e at, ◌>>=◌, yes_) refl,
              (k, at, yes_),
            )
            | inr no_ ↦
                let (r, rest, out) =
                  search_loop fuel (i + 1) v (omega (arith, n.below)) (omega (arith, n.from))
                    (Tried-next seen i k e t n st no_) in
                (r, rw (search_chain, run, ◌>>=◌, got, ◌>>=◌, tests k e at, ◌>>=◌, no_) rest, out)
          ]
    ]

    -- In a well-formed table, with a test that answers on the elements of the hash, the search
    -- loop along a chain ends within one round more than there are buckets, in no panic, and
    -- returns an element of the hash that passes the test, or null only if no element of the hash
    -- passes it.
    pub search_chain_lem :
        IsValid ht → (r : Option E) × (search_chain (ht.bucket_capacity + 1) 0 ≡ ok r) × Outcome r
    search_chain_lem v =
        search_loop (ht.bucket_capacity + 1) 0 v (omega arith) (omega arith)
          (λ i k e lt st. absurd (omega arith))
