-- ===== src/Namespace/Along.antt =====
-- core/ns.c: walks that follow an alias at every step, those of `lai_resolve_path` and of the names
-- of new nodes.
use mathlib.Core.Bool.{false≢true}
use mathlib.Core.List.{append-nil, append_assoc}
use lai.Base.{
  ℕ, zero, suc, ◌≤◌, ◌<◌, ◌≡◌, refl, sym, ap, ◌∙◌, true, false, Option, none, some, List, [], ◌∷◌,
  ◌++◌, length, ok, read, ◌>>=◌, inl, inr, arith, length-append, ==_ne, ◌==◌,
}
use lai.AmlName.{is_name, root_char}
use lai.AmlName.Print.{dotted}
use lai.Namespace.{Namespace}
use lai.Namespace.Invariant.{IsNs}
use lai.Namespace.Children.{Found, get_child-cases}
use lai.Namespace.Aliases.{Target, Aliased, follow_alias-Target}
use lai.Namespace.Strings.{take_name, pad, path_loop, path_scope, resolve_path}
use lai.Namespace.Paths.{OneRoot, RootOf, start_of_lem}

-- The node at the end of a path whose steps follow aliases, or nothing when a name is missing.
pub data Along (ns : Namespace) : List (List ℕ) → ℕ → Option ℕ → Type 0 where
  ended : (p : ℕ) → Along ns [] p (some p)
  onward :
      (p c d : ℕ) (s : List ℕ) (ss : List (List ℕ)) (r : Option ℕ)
      → Found ns p s (some c)
      → Target ns c d
      → Along ns ss d r
      → Along ns (s ∷ ss) p r
  lost : (p : ℕ) (s : List ℕ) (ss : List (List ℕ)) → Found ns p s none → Along ns (s ∷ ss) p none

-- The characters of a segment of a string: four that a name may have.
abbrev pub AllNames : List ℕ → Type 0
AllNames [] = Unit
AllNames (c ∷ cs) = (is_name c ≡ true) × AllNames cs

abbrev pub Full : List ℕ → Type 0
Full s = (length s ≡ 4) × AllNames s

abbrev pub AllFull : List (List ℕ) → Type 0
AllFull [] = Unit
AllFull (s ∷ ss) = Full s × AllFull ss

take_name_lem : (s rest : List ℕ) → AllNames s → take_name (length s) (s ++ rest) ≡ ok (s, rest)
unfolding take_name
take_name_lem [] rest all = refl
take_name_lem (c ∷ s) rest (name_, all) = rw (take_name, name_, take_name_lem s rest all) refl

four_chars : (s rest : List ℕ) → Full s → take_name 4 (s ++ rest) ≡ ok (s, rest)
four_chars s rest (four, all) =
    ap (λ (k : ℕ). take_name k (s ++ rest)) (sym four) ∙ take_name_lem s rest all

pad_full : (s : List ℕ) → length s ≡ 4 → pad s ≡ s
unfolding pad
pad_full s four = rw (pad, four) (append-nil s)

dotted-long : (s : List ℕ) (ss : List (List ℕ)) → length ss ≤ length (dotted (s ∷ ss))
dotted-long s [] = omega arith
dotted-long s (t ∷ ss) = omega (arith, length-append s (b'.' ∷ dotted (t ∷ ss)), dotted-long t ss)

name_nonzero : (c : ℕ) → c ≡ 0 → is_name c ≡ true → ⊥
unfolding is_name
name_nonzero c e name_ = false≢true (sym (ap is_name e) ∙ name_)

module _ (ns : Namespace) (i : IsNs ns) (aliased : Aliased ns) (after : List ℕ) where
  path_loop_lem :
      (fuel p : ℕ) (s : List ℕ) (ss : List (List ℕ))
      → AllFull (s ∷ ss)
      → p < length ns.nodes
      → length ss < fuel
      → (r : Option ℕ) × Along ns (s ∷ ss) p r
        × (path_loop fuel ns (dotted (s ∷ ss) ++ 0 ∷ after) p ≡ ok r)
  unfolding path_loop
  path_loop_lem zero p s ss all lt room = absurd (omega arith)
  path_loop_lem (suc fuel) p s [] (full, _) lt room = elim (get_child-cases ns p s i lt) [
    | inl (run, found) ↦ (
      none,
      lost p s [] found,
      rw (path_loop, four_chars s (0 ∷ after) full, ◌>>=◌, pad_full s full.0, run, ◌>>=◌) refl,
    )
    | inr (c, run, found) ↦
        let below = (i.hashed p found.0 _ c lt (found.1)).0 in
        let (d, run_alias, inside, target) = follow_alias-Target ns aliased c below in
        (
          some d,
          onward p c d s [] (some d) found target (ended d),
          rw
              (
                path_loop,
                four_chars s (0 ∷ after) full,
                ◌>>=◌,
                pad_full s full.0,
                run,
                ◌>>=◌,
                run_alias,
                ◌>>=◌,
              )
              refl,
        )
  ]
  path_loop_lem (suc fuel) p s (t ∷ ss) (full, all) lt room =
      let rest = b'.' ∷ dotted (t ∷ ss) ++ 0 ∷ after in
      let regroup : dotted (s ∷ t ∷ ss) ++ 0 ∷ after ≡ s ++ rest = simp append_assoc in
      elim (get_child-cases ns p s i lt) [
        | inl (run, found) ↦ (
          none,
          lost p s (t ∷ ss) found,
          rw (regroup, path_loop, four_chars s rest full, ◌>>=◌, pad_full s full.0, run, ◌>>=◌)
              refl,
        )
        | inr (c, run, found) ↦
            let below = (i.hashed p found.0 _ c lt (found.1)).0 in
            let (d, run_alias, inside, target) = follow_alias-Target ns aliased c below in
            let (r, along, others) = path_loop_lem fuel d t ss all inside (omega arith) in
            (
              r,
              onward p c d s (t ∷ ss) r found target along,
              rw
                  (
                    regroup,
                    path_loop,
                    four_chars s rest full,
                    ◌>>=◌,
                    pad_full s full.0,
                    run,
                    ◌>>=◌,
                    run_alias,
                    ◌>>=◌,
                  )
                  others,
            )
      ]

  -- The string of a path begins with a character.
  first_char :
      (s rest : List ℕ) → Full s → (c : ℕ) × (read (s ++ rest) 0 ≡ ok c) × ((c == 0) ≡ false)
  first_char [] rest (four, all) = absurd (omega arith)
  first_char (c ∷ s) rest (four, all) = (c, refl, ==_ne c 0 (λ e. name_nonzero c e all.0))

  dotted_first :
      (s : List ℕ) (ss : List (List ℕ))
      → AllFull (s ∷ ss)
      → (c : ℕ) × (read (dotted (s ∷ ss) ++ 0 ∷ after) 0 ≡ ok c) × ((c == 0) ≡ false)
  dotted_first s [] (full, _) = first_char s (0 ∷ after) full
  dotted_first s (t ∷ ss) (full, _) =
      let rest = b'.' ∷ dotted (t ∷ ss) ++ 0 ∷ after in
      let (c, run, nonzero) = first_char s rest full in
      let regroup : dotted (s ∷ t ∷ ss) ++ 0 ∷ after ≡ s ++ rest = simp append_assoc in
      (c, rw regroup run, nonzero)

  -- In a well-formed namespace with one root whose aliases have targets that are no aliases,
  -- lai_resolve_path returns for every absolute path string of segments of four name characters
  -- with dots between them: it starts at the root, goes at every step to the child of the name,
  -- or to the target when that is an alias, and returns the node at the end or null when a
  -- segment is missing.
  pub resolve_path-Along :
      (ctx : ℕ) (s : List ℕ) (ss : List (List ℕ))
      → OneRoot ns
      → AllFull (s ∷ ss)
      → ctx < length ns.nodes
      → (base : ℕ) × (r : Option ℕ) × RootOf ns ctx base
        × Along ns (s ∷ ss) base r
        × (resolve_path ns (some ctx) (root_char ∷ dotted (s ∷ ss) ++ 0 ∷ after) ≡ ok r)
  unfolding resolve_path path_scope
  resolve_path-Along ctx s ss o all lt =
      let (base, root, below, start) = start_of_lem ns ctx true 0 i o lt (λ _. refl) in
      let (c, first, nonzero) = dotted_first s ss all in
      let path = root_char ∷ dotted (s ∷ ss) ++ 0 ∷ after in
      let (r, along, run) =
        path_loop_lem (length path) base s ss all below
          (omega (arith, length-append (dotted (s ∷ ss)) (0 ∷ after), dotted-long s ss)) in
      (base, r, root, along, rw (resolve_path, start, ◌>>=◌, first, ◌>>=◌, nonzero) run)
