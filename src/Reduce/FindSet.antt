-- ===== src/Reduce/FindSet.antt =====
-- core/exec.c: the positions of the outermost bits that are set.
use native.Mathlib.Nat.{pow-suc}
use native.Mathlib.Decide.{ℕ_discrete}
use lai.Base.{
  ℕ, zero, suc, ◌+◌, ◌-◌, ◌/◌, ◌^◌, ◌≤◌, ◌<◌, ◌≡◌, ◌≢◌, refl, sym, ap, ◌∙◌, ==_ne, u64, shl, ok,
  ◌>>=◌, arith,
}
use lai.Bits.{bit, bit-zero, bit-shl, bit-shl_low, bit-mod, bit_ext}
use lai.Reduce.{count_right_shifts, count_left_shifts, find_set_left_bit, find_set_right_bit}

-- The highest bit of `x` that is set is the one below `k`; `k` is 0 when there is none.
pub record Highest (x k : ℕ) : Type 0 where
  pub above : (i : ℕ) → k ≤ i → bit x i ≡ 0
  pub top : (j : ℕ) → k ≡ suc j → bit x j ≡ 1
  pub empty_ : k ≡ 0 → x ≡ 0

-- The lowest bit of the 64-bit `x` that is set is at 64 less `c`; `c` is 0 when there is none.
pub record Lowest (x c : ℕ) : Type 0 where
  pub below : (i : ℕ) → i + c < 64 → bit x i ≡ 0
  pub at : (i : ℕ) → i + c ≡ 64 → 0 < c → bit x i ≡ 1
  pub empty_ : c ≡ 0 → x ≡ 0

Highest-next-top : (x k j : ℕ) → x ≢ 0 → Highest (x / 2) k → suc k ≡ suc j → bit x j ≡ 1
unfolding bit
Highest-next-top x zero j ne h e =
    let low : j ≡ 0 = omega arith in rw low (omega (arith, h.empty_ refl, ne))
Highest-next-top x (suc k) j ne h e = let next : j ≡ suc k = omega arith in rw next (h.top k refl)

Highest-next-above : (x k i : ℕ) → Highest (x / 2) k → suc k ≤ i → bit x i ≡ 0
unfolding bit
Highest-next-above x k zero h le = absurd (omega arith)
Highest-next-above x k (suc i) h le = h.above i (omega arith)

-- Nothing is left to shift.
right_done :
    (fuel x msb : ℕ)
    → x ≡ 0
    → (k : ℕ) × (count_right_shifts (suc fuel) x msb ≡ ok (msb + k)) × Highest x k
unfolding count_right_shifts
right_done fuel x msb e = (
  0,
  rw (count_right_shifts, e) (ap (λ (t : ℕ). ok t) (omega arith)),
  record { above = λ i le. rw e (bit-zero i); top = λ j q. absurd (omega arith); empty_ = λ _. e },
)

right_shifts :
    (fuel x msb : ℕ)
    → x < 2 ^ fuel
    → (k : ℕ) × (count_right_shifts (suc fuel) x msb ≡ ok (msb + k)) × Highest x k
unfolding count_right_shifts
right_shifts zero x msb lt = right_done zero x msb (omega arith)
right_shifts (suc fuel) x msb lt = elim (ℕ_discrete x 0) [
  | yes e ↦ right_done (suc fuel) x msb e
  | no ne ↦
      let (k, run, h) = right_shifts fuel (x / 2) (msb + 1) (omega (arith, pow-suc 2 fuel)) in
      (
        suc k,
        rw (count_right_shifts, ==_ne x 0 ne) (run ∙ ap (λ (t : ℕ). ok t) (omega arith)),
        record {
          above = λ i le. Highest-next-above x k i h le;
          top = λ j q. Highest-next-top x k j ne h q;
          empty_ = λ q. absurd (omega arith);
        },
      )
]

-- FINDSETLEFTBIT_OP on a 64-bit integer ends, with the number, counted from 1, of its highest bit
-- that is set: that bit is 1 and all above are 0; the number is 0 only for the integer 0.
pub find_set_left_bit-Highest :
    (x : ℕ) → x < 2 ^ 64 → (k : ℕ) × (find_set_left_bit x ≡ ok k) × Highest x k
unfolding find_set_left_bit
find_set_left_bit-Highest x lt =
    let (k, run, h) = right_shifts 64 x 0 lt in (k, run ∙ ap (λ (t : ℕ). ok t) (omega arith), h)

-- The digits after a shift to the left by one.
doubled_low : (x : ℕ) → bit (u64 (shl x 1)) 0 ≡ 0
doubled_low x = bit-mod (shl x 1) 64 0 (omega arith) ∙ bit-shl_low x 1 0 (omega arith)

doubled_next : (x i : ℕ) → i < 63 → bit (u64 (shl x 1)) (1 + i) ≡ bit x i
doubled_next x i lt = bit-mod (shl x 1) 64 (1 + i) (omega arith) ∙ bit-shl x 1 i

left_done :
    (fuel x lsb : ℕ)
    → x ≡ 0
    → (c : ℕ) × (c ≤ fuel) × (count_left_shifts (suc fuel) x lsb ≡ ok (lsb + c)) × Lowest x c
unfolding count_left_shifts
left_done fuel x lsb e = (
  0,
  omega arith,
  rw (count_left_shifts, e) (ap (λ (t : ℕ). ok t) (omega arith)),
  record {
    below = λ i lt. rw e (bit-zero i);
    at = λ i q some_. absurd (omega arith);
    empty_ = λ _. e;
  },
)

-- A number that is not zero and is shifted to zero has bit 63 only.
last_bit : (x : ℕ) → x < 2 ^ 64 → x ≢ 0 → u64 (shl x 1) ≡ 0 → bit x 63 ≡ 1
unfolding bit
last_bit x lt ne e = let half : x ≡ 2 ^ 63 = omega arith in rw half refl

left_shifts :
    (fuel x lsb : ℕ)
    → x < 2 ^ 64
    → ((i : ℕ) → i + fuel < 64 → bit x i ≡ 0)
    → (c : ℕ) × (c ≤ fuel) × (count_left_shifts (suc fuel) x lsb ≡ ok (lsb + c)) × Lowest x c
unfolding count_left_shifts
left_shifts zero x lsb lt low =
    left_done zero x lsb
      (bit_ext 64 x 0 lt (omega arith) λ i small. low i (omega arith) ∙ sym (bit-zero i))
left_shifts (suc fuel) x lsb lt low = elim (ℕ_discrete x 0) [
  | yes e ↦ left_done (suc fuel) x lsb e
  | no ne ↦
      let y = u64 (shl x 1) in
      let (c, small, run, l) = left_shifts fuel y (lsb + 1) (omega arith) (λ i near.
        elim (ℕ_discrete i 0) [
          | yes first ↦ rw first (doubled_low x)
          | no later ↦
              let step : i ≡ 1 + (i - 1) = omega arith in
              ap (bit y) step ∙ doubled_next x (i - 1) (omega arith) ∙ low (i - 1) (omega arith)
        ]) in
      (
        suc c,
        omega arith,
        rw (count_left_shifts, ==_ne x 0 ne) (run ∙ ap (λ (t : ℕ). ok t) (omega arith)),
        record {
          below = λ i near. sym (doubled_next x i (omega arith)) ∙ l.below (1 + i) (omega arith);
          at = λ i q _. elim (ℕ_discrete c 0) [
            | yes none_left ↦
                let last : i ≡ 63 = omega arith in rw last (last_bit x lt ne (l.empty_ none_left))
            | no more ↦
                sym (doubled_next x i (omega arith)) ∙ l.at (1 + i) (omega arith) (omega arith)
          ];
          empty_ = λ q. absurd (omega arith);
        },
      )
]

-- `r` is the number of the lowest bit of `x` that is set, counted from 1; it is 0 when there is none.
pub record LowestBit (x r : ℕ) : Type 0 where
  pub first : (j : ℕ) → r ≡ suc j → (bit x j ≡ 1) × ((i : ℕ) → i < j → bit x i ≡ 0)
  pub nothing : r ≡ 0 → x ≡ 0

-- FINDSETRIGHTBIT_OP on a 64-bit integer ends, with the number, counted from 1, of its lowest bit
-- that is set: that bit is 1 and all below are 0; the number is 0 only for the integer 0.
pub find_set_right_bit-LowestBit :
    (x : ℕ) → x < 2 ^ 64 → (r : ℕ) × (find_set_right_bit x ≡ ok r) × LowestBit x r
unfolding find_set_right_bit
find_set_right_bit-LowestBit x lt =
    let (c, small, run, l) = left_shifts 64 x 0 lt (λ i near. absurd (omega arith)) in
    let count : 0 + c ≡ c = omega arith in
    elim (ℕ_discrete c 0) [
      | yes none_left ↦ (
        0,
        rw (find_set_right_bit, run, ◌>>=◌, count, none_left) refl,
        record { first = λ j q. absurd (omega arith); nothing = λ _. l.empty_ none_left },
      )
      | no more ↦ (
        65 - c,
        rw (find_set_right_bit, run, ◌>>=◌, count, ==_ne c 0 more) refl,
        record {
          first = λ j q. (l.at j (omega arith) (omega arith), (λ i near. l.below i (omega arith)));
          nothing = λ q. absurd (omega arith);
        },
      )
    ]
