-- ===== src/HashTable/Probe.antt =====
-- Where a chain runs: over every bucket, so that a free one is found.
use native.Mathlib.Nat.{mod-eq_of_lt, mod-lt, one-le-pow, div-add-mod', add-mul-mod_self_right}
use native.Mathlib.Decide.{dec_lt}
use lai.Base.{
  ℕ, zero, suc, ◌+◌, ◌-◌, ◌*◌, ◌/◌, ◌%◌, ◌^◌, ◌≤◌, ◌<◌, ◌≡◌, Option, none, some, List, get_or, set,
  arith, u32, ok, ap, Option-cases, inl, inr, ◌∙◌, leb, leb→le, Bool-cases,
}
use lai.Bits.{bit_and-ones, bit_ext, bit-mod}
use lai.HashTable.{bucket_of, probe}

-- `bucket_capacity` "must be a power of 2", and is an `int`.
abbrev pub IsPower : ℕ → Type 0
IsPower m = (p : ℕ) × (p ≤ 30) × (m ≡ 2 ^ p)

mod-two-pow_le : (x p q : ℕ) → p ≤ q → x % 2 ^ q % 2 ^ p ≡ x % 2 ^ p
mod-two-pow_le x p q h =
    bit_ext p (x % 2 ^ q % 2 ^ p) (x % 2 ^ p) (mod-lt _ (one-le-pow p 2 (omega arith)))
      (mod-lt _ (one-le-pow p 2 (omega arith)))
      λ i lt. rw (bit-mod (x % 2 ^ q) p i lt, bit-mod x q i (omega arith), bit-mod x p i lt)

pub bucket_of_lem : (m h i : ℕ) → IsPower m → bucket_of m h i ≡ (h + i) % m
unfolding bucket_of
bucket_of_lem m h i (p, small, e) =
    rw (e, bit_and-ones p (u32 (h + i))) (mod-two-pow_le (h + i) p 32 (omega arith))

pub bucket_of-lt : (m h i : ℕ) → IsPower m → bucket_of m h i < m
bucket_of-lt m h i w =
    let (p, small, e) = w in
    rw (bucket_of_lem m h i w) (mod-lt (h + i) (rw e (one-le-pow p 2 (omega arith))))

-- Every bucket is on the chain of every hash.
pub bucket_of_onto : (m h b : ℕ) → IsPower m → b < m → (i : ℕ) × (i < m) × (bucket_of m h i ≡ b)
bucket_of_onto m h b w below = elim (Bool-cases (leb (h % m) b)) [
  | inl ahead ↦ (
    b - h % m,
    omega arith,
    bucket_of_lem m h (b - h % m) w
        ∙ lands (h / m) (b - h % m) (omega (arith, div-add-mod' h m, leb→le (h % m) b ahead)),
  )
  | inr behind ↦ (
    b + m - h % m,
    ground arith,
    bucket_of_lem m h (b + m - h % m) w
        ∙ lands (h / m + 1) (b + m - h % m) (ground (arith, div-add-mod' h m, mod-lt h)),
  )
]
  where
    lands : (q i : ℕ) → h + i ≡ b + q * m → (h + i) % m ≡ b
    lands q i e = rw (e, add-mul-mod_self_right b q m) (mod-eq_of_lt below)

lt_of_differ : (f : ℕ → Option ℕ) (i j b : ℕ) → i ≤ j → f i ≡ some b → f j ≡ none → i + 1 ≤ j
lt_of_differ f i j b p e free = elim (dec_lt i j) [
  | yes below ↦ omega arith
  | no above ↦ let same : i ≡ j = omega arith in cc (ap f same)
]

module _ (m h k : ℕ) (tab : List (Option ℕ)) where
  -- If some bucket ahead on the chain is free, the loop ends by writing to a free bucket.
  pub probe_free :
      (left i j : ℕ)
      → i ≤ j
      → j < i + left
      → get_or tab (bucket_of m h j) none ≡ none
      → (r : ℕ) × (probe m h k left i tab ≡ ok (set tab (bucket_of m h r) (some k)))
        × (get_or tab (bucket_of m h r) none ≡ none)
  unfolding probe
  probe_free zero i j p q free = absurd (omega arith)
  probe_free (suc left) i j p q free = elim (Option-cases (get_or tab (bucket_of m h i) none)) [
    | inl e ↦ (i, rw (probe, e), e)
    | inr (b, e) ↦
        let (r, run, at) =
          probe_free left (i + 1) j
            (lt_of_differ (λ t. get_or tab (bucket_of m h t) none) i j b p e free) (omega arith)
            free in
        (r, rw (probe, e) run, at)
  ]
