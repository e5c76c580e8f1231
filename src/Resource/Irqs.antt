-- ===== src/Resource/Irqs.antt =====
-- helpers/resource.c: which IRQ `lai_resource_next_irq` returns.
use native.Mathlib.Nat.{one-le-pow, pow-suc}
use lai.Base.{
  bit_or, shl, shr, read, ◌⊎◌, ApiError, no_error, end_reached, ℕ, zero, suc, ◌+◌, ◌-◌, ◌*◌, ◌/◌,
  ◌^◌, ◌≤◌, ◌<◌, ◌≡◌, inl, inr, refl, sym, ap, ◌∙◌, bit_and, Bool, Bool-cases, true, false, ◌==◌,
  ==_ne, if◌then◌else◌, Option, none, some, List, u8, ok, ◌>>=◌, arith,
}
use native.Mathlib.Decide.{ℕ_discrete, dec_lt}
use lai.Bits.{
  bit, bit-lt, bit-mod, bit-past, bit_and-ones, bit_and-step, bit_ext, bit-bit_or, bit-shl_low,
}
use lai.Resource.{
  View, HeaderInfo, small_irq, get_header_info, read_two, next_set, small_answer, resource_next_irq,
}

-- A mask of one bit.
bit_and-two_pow : (x i : ℕ) → bit_and x (2 ^ i) ≡ bit x i * 2 ^ i
unfolding bit
bit_and-two_pow x zero = bit_and-ones 1 x ∙ (omega arith)
bit_and-two_pow x (suc i) =
    let halves : 2 ^ suc i / 2 ≡ 2 ^ i = omega (arith, pow-suc 2 i) in
    rw (bit_and-step x (2 ^ suc i), halves, bit_and-two_pow (x / 2) i)
      (omega (arith, pow-suc 2 i, ap (λ (t : ℕ). bit (x / 2) i * t) (pow-suc 2 i)))

test_bit : (x i : ℕ) (b : Bool) → (bit_and x (2 ^ i) == 0) ≡ b → bit x i ≡ (if b then 0 else 1)
test_bit x i b e = elim (ℕ_discrete (bit x i) 1) [
  | yes one ↦
      let there : bit_and x (2 ^ i) ≡ 2 ^ i =
        bit_and-two_pow x i ∙ ap (λ (t : ℕ). t * 2 ^ i) one ∙ (omega arith) in
      let test : (bit_and x (2 ^ i) == 0) ≡ false =
        ==_ne (bit_and x (2 ^ i)) 0 (λ z. omega (arith, there, z, one-le-pow i 2)) in
      rw (sym e ∙ test) one
  | no other ↦
      let none_there : bit x i ≡ 0 = omega (arith, other, bit-lt x i) in
      let gone : bit_and x (2 ^ i) ≡ 0 =
        bit_and-two_pow x i ∙ ap (λ (t : ℕ). t * 2 ^ i) none_there ∙ (omega arith) in
      let test : (bit_and x (2 ^ i) == 0) ≡ true = (rw gone refl) in rw (sym e ∙ test) none_there
]

-- The lowest place from `i` up to `i + left` at which the mask is set, or that there is none.
abbrev pub NextSet : (left mask i : ℕ) → Option ℕ × ℕ → Type 0
NextSet left mask i (some j, k) =
    (i ≤ j)
    × (j < i + left)
    × (k ≡ j + 1)
    × (bit mask j ≡ 1)
    × ((m : ℕ) → i ≤ m → m < j → bit mask m ≡ 0)
NextSet left mask i (none, k) = (k ≡ i + left) × ((m : ℕ) → i ≤ m → m < i + left → bit mask m ≡ 0)

NextSet-suc :
    (left mask i : ℕ) (r : Option ℕ × ℕ)
    → bit mask i ≡ 0
    → NextSet left mask (i + 1) r
    → NextSet (suc left) mask i r
NextSet-suc left mask i (some j, k) z (lo, hi, next, set_there, below) = (
  omega (arith, lo),
  omega (arith, hi),
  next,
  set_there,
  λ m from to. elim (ℕ_discrete i m) [
    | yes e ↦ ap (bit mask) (sym e) ∙ z
    | no ne ↦ below m (omega (arith, ne)) to
  ],
)
NextSet-suc left mask i (none, k) z (last, clear) = (
  omega (arith, last),
  λ m from to. elim (ℕ_discrete i m) [
    | yes e ↦ ap (bit mask) (sym e) ∙ z
    | no ne ↦ clear m (omega (arith, ne)) (omega (arith, to))
  ],
)

next_set-NextSet : (left mask i : ℕ) → NextSet left mask i (next_set left mask i)
unfolding next_set
next_set-NextSet zero mask i = ((omega arith), (λ m from to. absurd (omega (arith, from, to))))
next_set-NextSet (suc left) mask i = elim (Bool-cases (bit_and mask (2 ^ i) == 0)) [
  | inl clear ↦
      rw (next_set, clear)
        (NextSet-suc left mask i (next_set left mask (i + 1)) (test_bit mask i true clear)
          (next_set-NextSet left mask (i + 1)))
  | inr set_there ↦
      rw (next_set, set_there)
        ((
          omega arith,
          omega arith,
          refl,
          test_bit mask i false set_there,
          (λ m from to. absurd (omega (arith, from, to))),
        ))
]

-- What is returned for the low byte of a mask: the next IRQ that is set in it, or the end.
abbrev pub NextIrq : View → (low : ℕ) → ApiError × View → Type 0
NextIrq v low out =
    ((j : ℕ) × (out ≡ (no_error, record v { gsi = j; entry_idx = j + 1 }))
      × (v.entry_idx ≤ j)
      × (j < 8)
      × (bit low j ≡ 1)
      × ((m : ℕ) → v.entry_idx ≤ m → m < j → bit low m ≡ 0))
    ⊎ ((out ≡ (end_reached, record v { entry_idx = 16 }))
        × ((m : ℕ) → v.entry_idx ≤ m → m < 8 → bit low m ≡ 0))

NextSet-NextIrq :
    (v : View) (low : ℕ) (r : Option ℕ × ℕ)
    → v.entry_idx ≤ 16
    → low < 2 ^ 8
    → NextSet (16 - v.entry_idx) low v.entry_idx r
    → NextIrq v low (small_answer v r)
NextSet-NextIrq v low (some j, k) le byte (lo, hi, next, set_there, below) = elim (dec_lt j 8) [
  | yes small ↦ inl (
    j,
    ap (λ (t : ℕ). (no_error, record v { gsi = j; entry_idx = t })) next,
    lo,
    small,
    set_there,
    below,
  )
  | no high ↦ absurd (omega (arith, set_there, bit-past low 8 j byte (omega (arith, high))))
]
NextSet-NextIrq v low (none, k) le byte (last, clear) = inr (
  ap (λ (t : ℕ). (end_reached, record v { entry_idx = t })) (omega (arith, last, le)),
  λ m from to. clear m from (omega (arith, le, to)),
)

-- The header of a small IRQ descriptor, whose tag is in the bits 3 to 6 of its first byte.
small_header :
    (crs : List ℕ) (at b : ℕ)
    → read crs at ≡ ok b
    → b / 8 ≡ 4
    → (info : HeaderInfo) × (get_header_info crs at ≡ ok info) × (info.type ≡ small_irq)
unfolding get_header_info bit
small_header crs at b found tag =
    let clear : bit_and b (2 ^ 7) ≡ 0 = omega (arith, bit_and-two_pow b 7, tag) in
    (
      record { type = bit_and (shr b 3) 0xF; size = bit_and b 0x7; skip_size = bit_and b 0x7 + 1 },
      rw (found, ◌>>=◌, clear) refl,
      ap (λ (t : ℕ). bit_and t 0xF) tag,
    )

-- The variable for the mask keeps its low byte.
low_byte : (low high : ℕ) → low < 2 ^ 8 → u8 (bit_or low (shl high 8)) ≡ low
low_byte low high byte = bit_ext 8 (u8 (bit_or low (shl high 8))) low (omega arith) byte λ i lt.
    bit-mod (bit_or low (shl high 8)) 8 i lt
    ∙ bit-bit_or low (shl high 8) i
    ∙ (omega (arith, bit-shl_low high 8 i lt))

-- At a small IRQ descriptor (its tag is 4) and with an index of at most 16 in the view,
-- lai_resource_next_irq reports no error, the lowest IRQ from the index on that is set in the low
-- byte of the mask, and the index behind it; if none of these is set, it reports the end with the
-- index at 16. Nothing else of the view changes. IRQs 8 to 15, which the high byte of the mask is
-- for, are never returned.
pub resource_next_irq-NextIrq :
    (crs : List ℕ) (v : View) (b low high : ℕ)
    → read crs v.entry ≡ ok b
    → b / 8 ≡ 4
    → read crs (v.entry + 1) ≡ ok low
    → low < 2 ^ 8
    → read crs (v.entry + 2) ≡ ok high
    → v.entry_idx ≤ 16
    → (out : ApiError × View) × (resource_next_irq crs v ≡ ok out) × NextIrq v low out
unfolding resource_next_irq read_two
resource_next_irq-NextIrq crs v b low high first tag second byte third le =
    let (info, header, kind) = small_header crs v.entry b first tag in
    let next : v.entry + 1 + 1 ≡ v.entry + 2 = omega arith in
    let found = next_set (16 - v.entry_idx) low v.entry_idx in
    (
      small_answer v found,
      rw (header, ◌>>=◌, kind, second, ◌>>=◌, next, third, ◌>>=◌, low_byte low high byte) refl,
      NextSet-NextIrq v low found le byte (next_set-NextSet (16 - v.entry_idx) low v.entry_idx),
    )
