-- ===== src/AmlName/Print.antt =====
-- Walking over the segments of a parsed name, and its printed form.
use lai.Base.{
  Bool-cases, inl, inr, ℕ, suc, ◌+◌, ◌*◌, ◌/◌, ◌≤◌, ◌≡◌, refl, true, List, [], ◌∷◌, ◌++◌, length,
  replicate, if◌then◌else◌, ok, arith, length-append, ==_ne, le→leb, length-replicate,
}
use mathlib.Core.List.{append_assoc}
use lai.AmlName.{
  AmlName, stringify_segs, root_char, parent_char, amlname_iterate, amlname_done, stringify_segs,
  stringify_amlname,
}
use lai.AmlName.Path.{NamePath, flatten, IsSeg, AllSegs, IsNamePath}
use lai.AmlName.Parse.{parsed}

-- A name at its segments `ss`.
abbrev pub at_segs : AmlName → List (List ℕ) → List ℕ → AmlName
at_segs amln ss rest = record amln { it = flatten ss ++ rest; left = 4 * length ss }

iterate_four :
    (amln : AmlName) (a b c d : ℕ) (rest : List ℕ) (n : ℕ)
    → amlname_iterate (record amln { it = a ∷ b ∷ c ∷ d ∷ rest; left = 4 * suc n })
      ≡ ok (a ∷ b ∷ c ∷ d ∷ [], record amln { it = rest; left = 4 * n })
unfolding amlname_iterate
iterate_four amln a b c d rest n = ground arith

-- `lai_amlname_iterate` takes the next segment off.
pub amlname_iterate-seg :
    (amln : AmlName) (s : List ℕ) (ss : List (List ℕ)) (rest : List ℕ)
    → IsSeg s
    → amlname_iterate (at_segs amln (s ∷ ss) rest) ≡ ok (s, at_segs amln ss rest)
amlname_iterate-seg amln [] ss rest h = absurd h
amlname_iterate-seg amln (a ∷ []) ss rest h = absurd (omega (arith, h.0))
amlname_iterate-seg amln (a ∷ b ∷ []) ss rest h = absurd (omega (arith, h.0))
amlname_iterate-seg amln (a ∷ b ∷ c ∷ []) ss rest h = absurd (omega (arith, h.0))
amlname_iterate-seg amln (a ∷ b ∷ c ∷ d ∷ []) ss rest h =
    iterate_four amln a b c d (flatten ss ++ rest) (length ss)
amlname_iterate-seg amln (a ∷ b ∷ c ∷ d ∷ e ∷ s) ss rest h = absurd (omega (arith, h.0))

-- The segments with dots between them.
abbrev pub dotted : List (List ℕ) → List ℕ
dotted [] = []
dotted (s ∷ []) = s
dotted (s ∷ t ∷ ss) = s ++ b'.' ∷ dotted (t ∷ ss)

-- The name as ASL writes it.
abbrev pub spell : NamePath → List ℕ
spell p =
    (if p.rooted then root_char ∷ [] else []) ++ replicate p.carets parent_char ++ dotted p.segs

stringify_segs_lem :
    (amln : AmlName) (s : List ℕ) (ss : List (List ℕ)) (rest : List ℕ)
    → AllSegs (s ∷ ss)
    → stringify_segs (suc (length ss)) (at_segs amln (s ∷ ss) rest) ≡ ok (dotted (s ∷ ss))
unfolding stringify_segs amlname_done
stringify_segs_lem amln s [] rest h = rw (amlname_iterate-seg amln s [] rest h.0) refl
stringify_segs_lem amln s (t ∷ ss) rest h =
    rw (amlname_iterate-seg amln s (t ∷ ss) rest h.0)
      (rw (stringify_segs_lem amln t ss rest h.1) (ground arith))

length-dotted :
    (s : List ℕ) (ss : List (List ℕ))
    → AllSegs (s ∷ ss)
    → length (dotted (s ∷ ss)) + 1 ≡ 5 * length (s ∷ ss)
length-dotted [] ss h = absurd h.0
length-dotted (a ∷ s) [] h = omega (arith, h.0)
length-dotted (a ∷ s) (t ∷ ss) h =
    rw (length-append s (b'.' ∷ dotted (t ∷ ss))) (omega (arith, length-dotted t ss h.1))

segs_lem :
    (amln : AmlName) (ss : List (List ℕ)) (rest : List ℕ)
    → AllSegs ss
    → (if amlname_done (at_segs amln ss rest)
        then ok []
        else stringify_segs (4 * length ss / 4) (at_segs amln ss rest))
      ≡ ok (dotted ss)
unfolding amlname_done
segs_lem amln [] rest h = refl
segs_lem amln (s ∷ ss) rest h =
    let rounds : 4 * suc (length ss) / 4 ≡ suc (length ss) = omega arith in
    let more = ==_ne (4 * suc (length ss)) 0 (omega arith) in
    rw (rounds, more) (stringify_segs_lem amln s ss rest h)

dotted_bound : (ss : List (List ℕ)) → AllSegs ss → length (dotted ss) ≤ 5 * length ss
dotted_bound [] h = omega arith
dotted_bound (s ∷ ss) h = omega (arith, length-dotted s ss h)

spell_bound :
    (p : NamePath)
    → AllSegs p.segs
    → length (spell p ++ 0 ∷ []) ≤ 1 + p.carets + 4 * length p.segs / 4 * 5 + 1
spell_bound p h = elim (Bool-cases p.rooted) [
  | inl e ↦ rw e (simp (length-append, length-replicate) (omega (arith, dotted_bound p.segs h)))
  | inr e ↦ rw e (simp (length-append, length-replicate) (omega (arith, dotted_bound p.segs h)))
]

-- For every parsed name, while the allocation succeeds, lai_stringify_amlname ends in no panic,
-- within the length that it has allocated, with the name as ASL writes it: the root or parent
-- characters, then the segments with dots between them, then the terminator.
pub stringify_amlname-parsed :
    (p : NamePath) (rest : List ℕ)
    → IsNamePath p
    → stringify_amlname true (parsed p rest) ≡ ok (spell p ++ 0 ∷ [])
unfolding stringify_amlname
stringify_amlname-parsed p rest h =
    let segs = segs_lem (parsed p rest) p.segs rest h.segments in
    let regroup : spell p ++ 0 ∷ []
        ≡ (if p.rooted then root_char ∷ [] else [])
          ++ replicate p.carets parent_char
          ++ dotted p.segs
          ++ 0 ∷ [] =
      simp append_assoc in
    rw (segs, ← regroup, le→leb _ _ (spell_bound p h.segments)) refl
