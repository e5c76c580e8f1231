-- ===== src/BufferField/Field.antt =====
-- core/exec-operand.c: `lai_write_buffer` writes the field and nothing else.
use native.Mathlib.Decide.{dec_lt}
use lai.Base.{
  ℕ, zero, suc, ◌+◌, ◌*◌, ◌/◌, ◌≤◌, ◌<◌, ◌≡◌, inl, inr, refl, ◌∙◌, List, length, set, get_or,
  read-eq-ok, arith, lt→ltb, le→ltb, lt→leb, ok, ◌>>=◌,
}
use lai.OpRegion.Buffer.{chunk, put_byte}
use lai.BufferField.{clear_byte, write_rounds, write_buffer_field}
use lai.BufferField.Wrote.{Wrote, Wrote-step}

Wrote-append :
    (buffer mid out : List ℕ) (value off p q e : ℕ)
    → p ≤ q
    → q ≤ e
    → Wrote buffer mid value off p q
    → Wrote mid out value off q e
    → Wrote buffer out value off p e
Wrote-append buffer mid out value off p q e pq qe f g = record {
  size = g.size ∙ f.size;
  inside = λ i from below. elim (dec_lt i q) [
    | yes early ↦ g.outside (off + i) (inl (omega arith)) ∙ f.inside i from early
    | no late ↦ g.inside i (omega arith) below
  ];
  outside = λ j away. elim away [
    | inl low ↦ g.outside j (inl (omega arith)) ∙ f.outside j (inl low)
    | inr high ↦ g.outside j (inr high) ∙ f.outside j (inr (omega arith))
  ];
}

write_rounds-Wrote :
    (fuel : ℕ) (buffer : List ℕ) (value off n p : ℕ)
    → p ≤ n
    → n ≤ 64
    → n < p + fuel
    → off + n ≤ 8 * length buffer
    → (out : List ℕ) × (write_rounds fuel buffer value off n p ≡ ok out)
      × Wrote buffer out value off p n
unfolding write_rounds
write_rounds-Wrote zero buffer value off n p le word room fits = absurd (omega arith)
write_rounds-Wrote (suc fuel) buffer value off n p le word room fits = elim (dec_lt p n) [
  | no done ↦
      let all : p ≡ n = omega arith in
      (
        buffer,
        rw (write_rounds, le→ltb p n (omega arith)) refl,
        record {
          size = refl;
          inside = λ i from below. absurd (omega arith);
          outside = λ j away. refl;
        },
      )
  | yes more ↦
      let q = (off + p) / 8 in
      let inside : q < length buffer = omega arith in
      let step = Wrote-step value off n p more buffer inside in
      let mid = set buffer q (put_byte (clear_byte (get_or buffer q 0) off n p) value off n p) in
      let a = chunk off n p in
      let (out, run, rest) =
        write_rounds-Wrote fuel mid value off n (p + a) (omega arith) word (omega arith)
          (omega (arith, step.size)) in
      (
        out,
        rw
            (
              write_rounds,
              lt→ltb p n more,
              lt→leb 64 p (omega arith),
              read-eq-ok buffer q 0 inside,
              ◌>>=◌,
            )
            run,
        Wrote-append buffer mid out value off p (p + a) n (omega arith) (omega arith) step rest,
      )
]

-- For a buffer field of at most 64 bits that lies within its buffer, at any bit offset,
-- lai_write_buffer ends without a fault; the bits of the field become those of the value, and no
-- other bit and not the size of the buffer changes.
pub write_buffer_field-Wrote :
    (buffer : List ℕ) (value off n : ℕ)
    → n ≤ 64
    → off + n ≤ 8 * length buffer
    → (out : List ℕ) × (write_buffer_field buffer value off n ≡ ok out)
      × Wrote buffer out value off 0 n
unfolding write_buffer_field
write_buffer_field-Wrote buffer value off n word fits =
    write_rounds-Wrote (n + 1) buffer value off n 0 (omega arith) word (omega arith) fits
