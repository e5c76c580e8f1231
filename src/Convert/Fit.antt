-- ===== src/Convert/Fit.antt =====
-- core/object.c: what `lai_mutate_buffer` leaves in the target.
use lai.Base.{
  set-set, ℕ, zero, suc, ◌+◌, ◌-◌, ◌≤◌, min, ◌≡◌, ◌≢◌, refl, sym, ap, ap₂, ◌∙◌, some, List, [], ◌∷◌,
  ◌++◌, length, take, drop, replicate, set, length-replicate, length-take, length-append, Run, ok,
  no_error, arith,
}
use lai.Objects.{
  Var, empty_var, integer, string, buffer, pkg, handle, lazy_handle, arg_ref, local_ref, node_ref,
  string_index, buffer_index, pkg_index, string_head, buffer_head, Cell, Heap, cell_at,
}
use lai.Objects.Counts.{cell_at-set_self, cell_at-set_ne}
use lai.OpRegion.Values.{spread_bytes}
use lai.OpRegion.Integers.{spread_length}
use lai.Convert.{string_access, buffer_access}
use lai.Convert.Buffers.{overwrite, mutate_buffer}
use lai.Convert.Cells.{
  NoZero, strlen-text, drop-replicate, take-take, buffer_access_at, string_access_at,
  write_buffer_at, memcpy_fits,
}

-- Bytes that are cut or padded with zeros to a size.
unfoldable pub fit : (size : ℕ) → List ℕ → List ℕ
fit size bytes = take size bytes ++ replicate (size - length bytes) 0

pub length-fit : (size : ℕ) (bytes : List ℕ) → length (fit size bytes) ≡ size
unfolding fit
length-fit size bytes = omega (
  arith,
  length-append (take size bytes) (replicate (size - length bytes) 0),
  length-take size bytes,
  length-replicate {A = ℕ} (size - length bytes) 0,
)

copied :
    (size n : ℕ) (from : List ℕ)
    → n ≤ length from
    → take (min n size) from ++ drop (min n size) (replicate size 0) ≡ fit size (take n from)
unfolding fit
copied size n from le =
    ap₂ (λ (a b : List ℕ). a ++ b) (sym (take-take size n from))
      (drop-replicate (min n size) size 0
        ∙ ap (λ (t : ℕ). replicate t 0) (omega (arith, length-take n from)))

-- A cell with other content and the same count.
abbrev pub refill : Heap → ℕ → Cell → List ℕ → Heap
refill h p c content = set h p (some (record { rc = c.rc; head = buffer_head content }))

module _ (h : Heap) (p : ℕ) (c : Cell) (old : List ℕ) (here : cell_at h p ≡ some c)
    (is_buffer : c.head ≡ buffer_head old) where
  overwrite_lem :
      (source : Heap → Run (List ℕ)) (n : ℕ) (from : List ℕ)
      → source (refill h p c (replicate (length old) 0)) ≡ ok from
      → n ≤ length from
      → overwrite h (buffer p) source n
        ≡ ok (no_error, refill h p c (fit (length old) (take n from)))
  unfolding overwrite
  overwrite_lem source n from read le =
      let zeros : List ℕ = replicate (length old) 0 in
      let cleared : Cell = record { rc = c.rc; head = buffer_head zeros } in
      let h1 = set h p (some cleared) in
      let at : cell_at h1 p ≡ some cleared = cell_at-set_self h p c here (some cleared) in
      let size : length zeros ≡ length old = length-replicate {A = ℕ} (length old) 0 in
      rw
        (
          buffer_access_at h p c here old is_buffer,
          write_buffer_at h p c here zeros,
          buffer_access_at h1 p cleared at zeros refl,
          read,
          memcpy_fits zeros from (min n (length old)) (omega (arith, size)) (omega (arith, le)),
          write_buffer_at h1 p cleared at
              (take (min n (length old)) from ++ drop (min n (length old)) zeros),
          copied (length old) n from le,
          set-set h p (some cleared)
              (some (record { rc = c.rc; head = buffer_head (fit (length old) (take n from)) })),
        )
        refl

-- The bytes that an object gives: an integer its eight bytes, a buffer other than the one at `p` its
-- content, a string its text with the terminator.
abbrev pub Gives : Heap → (p : ℕ) → Var → List ℕ → Type 0
Gives h p (integer n) bytes = bytes ≡ spread_bytes 8 0 n
Gives h p (buffer q) bytes =
    (q ≢ p) × (c : Cell) × (cell_at h q ≡ some c) × (c.head ≡ buffer_head bytes)
Gives h p (string q) bytes =
    (c : Cell) × (text : List ℕ) × (rest : List ℕ) × (cell_at h q ≡ some c)
    × (c.head ≡ string_head (text ++ 0 ∷ rest))
    × NoZero text
    × (bytes ≡ text ++ 0 ∷ [])
Gives h p empty_var bytes = ⊥
Gives h p (pkg q) bytes = ⊥
Gives h p (handle q) bytes = ⊥
Gives h p (lazy_handle q a) bytes = ⊥
Gives h p (arg_ref q i) bytes = ⊥
Gives h p (local_ref q i) bytes = ⊥
Gives h p (node_ref q) bytes = ⊥
Gives h p (string_index q i) bytes = ⊥
Gives h p (buffer_index q i) bytes = ⊥
Gives h p (pkg_index q i) bytes = ⊥

pub take_whole : (n : ℕ) (bytes : List ℕ) → n ≡ length bytes → take n bytes ≡ bytes
take_whole zero [] e = refl
take_whole (suc n) [] e = refl
take_whole zero (b ∷ bytes) e = absurd (omega (arith, e))
take_whole (suc n) (b ∷ bytes) e =
    ap (λ (t : List ℕ). b ∷ t) (take_whole n bytes (omega (arith, e)))

take_text : (text rest : List ℕ) → take (length text + 1) (text ++ 0 ∷ rest) ≡ text ++ 0 ∷ []
take_text [] rest = refl
take_text (c ∷ text) rest =
    let e : suc (length text) + 1 ≡ suc (length text + 1) = omega arith in
    rw e (ap (λ (t : List ℕ). c ∷ t) (take_text text rest))

-- A string is not the buffer.
string_elsewhere :
    (h : Heap) (p q : ℕ) (c d : Cell) (a b : List ℕ)
    → cell_at h p ≡ some c
    → c.head ≡ buffer_head a
    → cell_at h q ≡ some d
    → d.head ≡ string_head b
    → q ≢ p
string_elsewhere h p q c d a b at kind at' kind' e =
    let same : some c ≡ some d = sym at ∙ ap (λ (t : ℕ). cell_at h t) (sym e) ∙ at' in cc

-- When lai_mutate_buffer stores an integer, a string or another buffer to a buffer, the target
-- keeps its size: the bytes that the source gives (eight of an integer, the text of a string with
-- its terminator) are cut off where the target ends, and the rest of the target is filled with
-- zeros. The target keeps its reference count, and no other object changes.
pub mutate_buffer_lem :
    (h : Heap) (p : ℕ) (c : Cell) (old : List ℕ) (object : Var) (bytes : List ℕ)
    → cell_at h p ≡ some c
    → c.head ≡ buffer_head old
    → Gives h p object bytes
    → mutate_buffer h (buffer p) object
      ≡ ok (
        no_error,
        set h p (some (record { rc = c.rc; head = buffer_head (fit (length old) bytes) })),
      )
unfolding mutate_buffer
mutate_buffer_lem h p c old (integer n) bytes here kind e =
    let size : length (spread_bytes 8 0 n) ≡ 8 = spread_length 8 0 n in
    overwrite_lem h p c old here kind (λ h'. ok (spread_bytes 8 0 n)) 8 (spread_bytes 8 0 n) refl
      (omega (arith, size))
    ∙ ap (λ (t : List ℕ). ok (no_error, refill h p c (fit (length old) t)))
        (take_whole 8 (spread_bytes 8 0 n) (sym size) ∙ sym e)
mutate_buffer_lem h p c old (buffer q) bytes here kind (ne, d, there, kind') =
    let cleared : Cell = record { rc = c.rc; head = buffer_head (replicate (length old) 0) } in
    rw (buffer_access_at h q d there bytes kind') (
      overwrite_lem h p c old here kind (λ h'. buffer_access h' (buffer q)) (length bytes) bytes
        (buffer_access_at (refill h p c (replicate (length old) 0)) q d
          (cell_at-set_ne h p c here (some cleared) q ne ∙ there) bytes kind')
        (omega arith)
      ∙ ap (λ (t : List ℕ). ok (no_error, refill h p c (fit (length old) t)))
          (take_whole (length bytes) bytes refl))
mutate_buffer_lem h p c old (string q) bytes here kind (d, text, rest, there, kind', plain, e) =
    let cleared : Cell = record { rc = c.rc; head = buffer_head (replicate (length old) 0) } in
    let ne = string_elsewhere h p q c d old (text ++ 0 ∷ rest) here kind there kind' in
    rw (string_access_at h q d there (text ++ 0 ∷ rest) kind', strlen-text text rest plain)
      (overwrite_lem h p c old here kind (λ h'. string_access h' (string q)) (length text + 1)
          (text ++ 0 ∷ rest)
          (string_access_at (refill h p c (replicate (length old) 0)) q d
            (cell_at-set_ne h p c here (some cleared) q ne ∙ there) (text ++ 0 ∷ rest) kind')
          (omega (arith, length-append text (0 ∷ rest)))
        ∙ ap (λ (t : List ℕ). ok (no_error, refill h p c (fit (length old) t)))
            (take_text text rest ∙ sym e))
mutate_buffer_lem h p c old empty_var bytes here kind e = elim e [ ]
mutate_buffer_lem h p c old (pkg q) bytes here kind e = elim e [ ]
mutate_buffer_lem h p c old (handle q) bytes here kind e = elim e [ ]
mutate_buffer_lem h p c old (lazy_handle q a) bytes here kind e = elim e [ ]
mutate_buffer_lem h p c old (arg_ref q i) bytes here kind e = elim e [ ]
mutate_buffer_lem h p c old (local_ref q i) bytes here kind e = elim e [ ]
mutate_buffer_lem h p c old (node_ref q) bytes here kind e = elim e [ ]
mutate_buffer_lem h p c old (string_index q i) bytes here kind e = elim e [ ]
mutate_buffer_lem h p c old (buffer_index q i) bytes here kind e = elim e [ ]
mutate_buffer_lem h p c old (pkg_index q i) bytes here kind e = elim e [ ]
