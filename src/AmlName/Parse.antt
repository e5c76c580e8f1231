-- ===== src/AmlName/Parse.antt =====
-- The parser reads back what the encoder writes.
use lai.Base.{
  ℕ, zero, suc, ◌*◌, ◌≡◌, ◌≢◌, refl, Bool, true, false, not, ◌&&◌, List, [], ◌∷◌, ◌++◌, length,
  replicate, ◌==◌, ok, arith, length-append, ap,
}
use mathlib.Core.List.{append_assoc}
use lai.AmlName.{
  AmlName, root_char, parent_char, parse_height, parse_num_segs, parse_scope, amlname_parse,
}
use lai.AmlName.Path.{NamePath, flatten, scope_bytes, count_bytes, encode, AllSegs, IsNamePath}

pub length-flatten : (ss : List (List ℕ)) → AllSegs ss → length (flatten ss) ≡ 4 * length ss
length-flatten [] h = refl
length-flatten ([] ∷ ss) h = absurd h.0
length-flatten ((a ∷ s) ∷ ss) h =
    rw (length-append s (flatten ss)) (omega (arith, length-flatten ss h.1))

-- The byte after the scope is no `^` and no `\`.
abbrev FirstOk : List ℕ → Type 0
FirstOk [] = ⊥
FirstOk (c ∷ it) = (c ≢ root_char) × (c ≢ parent_char)

first_ok :
    (ss : List (List ℕ)) (rest : List ℕ)
    → AllSegs ss
    → FirstOk (count_bytes ss ++ flatten ss ++ rest)
first_ok [] rest h = omega arith
first_ok ([] ∷ ss) rest h = absurd h.0
first_ok ((a ∷ s) ∷ []) rest h = omega arith
first_ok ((a ∷ s) ∷ b ∷ []) rest h = omega arith
first_ok ((a ∷ s) ∷ b ∷ c ∷ ss) rest h = omega arith

parse_height_lem :
    (n : ℕ) (it : List ℕ) → FirstOk it → parse_height (replicate n parent_char ++ it) ≡ ok (n, it)
unfolding parse_height
parse_height_lem zero [] h = absurd h
parse_height_lem zero (c ∷ it) h = ground arith
parse_height_lem (suc n) it h = rw (parse_height_lem n it h) (ground arith)

parse_scope_lem :
    (rooted : Bool) (carets : ℕ) (it : List ℕ)
    → FirstOk it
    → (rooted ≡ true → carets ≡ 0)
    → parse_scope (scope_bytes rooted carets ++ it) ≡ ok (rooted, carets, it)
unfolding parse_scope
parse_scope_lem true carets it h z = rw (z refl) refl
parse_scope_lem false zero [] h z = absurd h
parse_scope_lem false zero (c ∷ it) h z = ground arith
parse_scope_lem false (suc n) it h z = rw (parse_height_lem n it h) (ground arith)

parse_num_segs_lem :
    (ss : List (List ℕ)) (rest : List ℕ)
    → AllSegs ss
    → parse_num_segs (count_bytes ss ++ flatten ss ++ rest) ≡ ok (length ss, flatten ss ++ rest)
unfolding parse_num_segs
parse_num_segs_lem [] rest h = refl
parse_num_segs_lem ([] ∷ ss) rest h = absurd h.0
parse_num_segs_lem ((a ∷ s) ∷ []) rest h = ground arith
parse_num_segs_lem ((a ∷ s) ∷ b ∷ []) rest h = refl
parse_num_segs_lem ((a ∷ s) ∷ b ∷ c ∷ ss) rest h = ground arith

-- What the parser makes of a name: the fields of `struct lai_amlname`, with the segments ahead.
abbrev pub parsed : NamePath → List ℕ → AmlName
parsed p rest = record {
  is_absolute = p.rooted;
  height = p.carets;
  search_scopes = not p.rooted && (p.carets == 0) && (length p.segs == 1);
  it = flatten p.segs ++ rest;
  left = 4 * length p.segs;
}

-- For every name (a root or a number of parent characters, and fewer than 256 segments),
-- lai_amlname_parse of its AML encoding followed by any code returns the name with its segments
-- still to read and the size of the encoding; a single segment without prefix is the one kind of
-- name that is searched for.
pub amlname_parse-encode :
    (p : NamePath) (rest : List ℕ)
    → IsNamePath p
    → amlname_parse (encode p ++ rest) ≡ ok (parsed p rest, length (encode p))
unfolding amlname_parse
amlname_parse-encode p rest h =
    let it = count_bytes p.segs ++ flatten p.segs ++ rest in
    let regroup : encode p ++ rest ≡ scope_bytes p.rooted p.carets ++ it = simp append_assoc in
    let scope = parse_scope_lem p.rooted p.carets it (first_ok p.segs rest h.segments) h.scope in
    let counted = parse_num_segs_lem p.segs rest h.segments in
    rw (regroup, scope, counted)
      (ap (λ (t : ℕ). ok (parsed p rest, t))
        (simp length-append (omega (arith, length-flatten p.segs h.segments))))
