-- ===== src/Namespace/Paths.antt =====
-- core/ns.c: what a name of several segments, or one with `\` or `^`, resolves to.
use lai.Base.{
  ℕ, zero, suc, ◌*◌, ◌/◌, ◌<◌, ◌≡◌, ◌≢◌, refl, ◌∙◌, Bool, true, false, Option, none, some, List, [],
  ◌∷◌, length, ok, ◌>>=◌, Option-cases, inl, inr, arith, if_false, ==_ne,
}
use lai.AmlName.{AmlName, amlname_done}
use lai.AmlName.Path.{NamePath, IsNamePath, AllSegs, IsSeg}
use lai.AmlName.Parse.{parsed}
use lai.AmlName.Print.{at_segs, amlname_iterate-seg}
use lai.Namespace.{NodeType, Namespace}
use lai.Namespace.Aliases.{Answered, Aliased, Inside, no_alias, answer-Answered}
use lai.Namespace.Invariant.{node_at, IsNs, node_at-read}
use lai.Namespace.Children.{Found, get_child-cases}
use lai.Namespace.Resolve.{
  is_root, not_alias, answer, resolve_single, climb, ensure_root, ascend, start_of, walk,
  resolve_scoped, do_resolve,
}
use lai.Namespace.Scopes.{Visible, Visible-Inside, scopes_loop}

-- The node at the end of a path of names, from a node down, or nothing when a name is missing.
pub data Below (ns : Namespace) : List (List ℕ) → ℕ → Option ℕ → Type 0 where
  arrived : (p : ℕ) → Below ns [] p (some p)
  down :
      (p c : ℕ) (s : List ℕ) (ss : List (List ℕ)) (r : Option ℕ)
      → Found ns p s (some c)
      → Below ns ss c r
      → Below ns (s ∷ ss) p r
  missing : (p : ℕ) (s : List ℕ) (ss : List (List ℕ)) → Found ns p s none → Below ns (s ∷ ss) p none

-- The node that so many `^` lead up to; at the root they lead no further.
pub data Raised (ns : Namespace) : ℕ → ℕ → ℕ → Type 0 where
  level : (p : ℕ) → Raised ns 0 p p
  up : (h p q r : ℕ) → (node_at ns p).parent ≡ some q → Raised ns h q r → Raised ns (suc h) p r
  top : (h p : ℕ) → (node_at ns p).parent ≡ none → Raised ns (suc h) p p

-- The root above a node.
pub data RootOf (ns : Namespace) : ℕ → ℕ → Type 0 where
  itself : (p : ℕ) → (node_at ns p).parent ≡ none → RootOf ns p p
  further : (p q r : ℕ) → (node_at ns p).parent ≡ some q → RootOf ns q r → RootOf ns p r

-- Where a path starts.
abbrev pub Start : Namespace → ℕ → Bool → ℕ → ℕ → Type 0
Start ns ctx true carets base = RootOf ns ctx base
Start ns ctx false carets base = Raised ns carets ctx base

-- Only the root has no parent.
abbrev pub OneRoot : Namespace → Type 0
OneRoot ns =
    (n : ℕ)
    → n < length ns.nodes
    → (node_at ns n).parent ≡ none
    → is_root ((node_at ns n).type) ≡ true

module _ (ns : Namespace) where
  ensure_root_lem :
      (p : ℕ)
      → OneRoot ns
      → p < length ns.nodes
      → (node_at ns p).parent ≡ none
      → ensure_root ns p ≡ ok p
  unfolding ensure_root
  ensure_root_lem p o lt e = rw (ensure_root, node_at-read ns p lt, ◌>>=◌, o p lt e) refl

  climb_lem :
      (fuel p : ℕ)
      → IsNs ns
      → p < length ns.nodes
      → p < fuel
      → (r : ℕ) × RootOf ns p r
        × (r < length ns.nodes)
        × ((node_at ns r).parent ≡ none)
        × (climb fuel ns p ≡ ok r)
  unfolding climb
  climb_lem zero p i lt room = absurd (omega arith)
  climb_lem (suc fuel) p i lt room = elim (Option-cases ((node_at ns p).parent)) [
    | inl none_ ↦
        (p, itself p none_, lt, none_, rw (climb, node_at-read ns p lt, ◌>>=◌, none_) refl)
    | inr (q, up_) ↦
        let older = i.older p q lt up_ in
        let (r, root, below, ends, rest) = climb_lem fuel q i (omega arith) (omega arith) in
        (r, further p q r up_ root, below, ends, rw (climb, node_at-read ns p lt, ◌>>=◌, up_) rest)
  ]

  ascend_lem :
      (h p : ℕ)
      → IsNs ns
      → OneRoot ns
      → p < length ns.nodes
      → (r : ℕ) × Raised ns h p r × (r < length ns.nodes) × (ascend h ns p ≡ ok r)
  unfolding ascend
  ascend_lem zero p i o lt = (p, level p, lt, refl)
  ascend_lem (suc h) p i o lt = elim (Option-cases ((node_at ns p).parent)) [
    | inl none_ ↦ (
      p,
      top h p none_,
      lt,
      rw (ascend, node_at-read ns p lt, ◌>>=◌, none_) (ensure_root_lem p o lt none_),
    )
    | inr (q, up_) ↦
        let older = i.older p q lt up_ in
        let (r, raised, below, rest) = ascend_lem h q i o (omega arith) in
        (r, up h p q r up_ raised, below, rw (ascend, node_at-read ns p lt, ◌>>=◌, up_) rest)
  ]

  pub start_of_lem :
      (p : ℕ) (rooted : Bool) (carets : ℕ)
      → IsNs ns
      → OneRoot ns
      → p < length ns.nodes
      → (rooted ≡ true → carets ≡ 0)
      → (r : ℕ) × Start ns p rooted carets r
        × (r < length ns.nodes)
        × (start_of ns p rooted carets ≡ ok r)
  unfolding start_of ascend
  start_of_lem p true carets i o lt h =
      let (r, root, below, ends, run) = climb_lem (suc p) p i lt (omega arith) in
      (
        r,
        root,
        below,
        rw (start_of, h refl, run, ◌>>=◌, ensure_root_lem r o below ends, ◌>>=◌) refl,
      )
  start_of_lem p false carets i o lt h = ascend_lem carets p i o lt

  walk_lem :
      (amln : AmlName) (ss : List (List ℕ)) (rest : List ℕ) (p : ℕ)
      → IsNs ns
      → AllSegs ss
      → p < length ns.nodes
      → (r : Option ℕ) × Below ns ss p r × (walk (length ss) ns (at_segs amln ss rest) p ≡ ok r)
  unfolding walk
  walk_lem amln [] rest p i all lt = (some p, arrived p, refl)
  walk_lem amln (s ∷ ss) rest p i (seg, all) lt = elim (get_child-cases ns p s i lt) [
    | inl (run, found) ↦ (
      none,
      missing p s ss found,
      rw (walk, amlname_iterate-seg amln s ss rest seg, ◌>>=◌, run, ◌>>=◌) refl,
    )
    | inr (c, run, found) ↦
        let below = (i.hashed p found.0 _ c lt (found.1)).0 in
        let (r, deeper, others) = walk_lem amln ss rest c i all below in
        (
          r,
          down p c s ss r found deeper,
          rw (walk, amlname_iterate-seg amln s ss rest seg, ◌>>=◌, run, ◌>>=◌) others,
        )
  ]

  -- The resolution of a parsed name that is not searched for.
  scoped_lem :
      (ctx : ℕ) (path : NamePath) (rest : List ℕ)
      → IsNs ns
      → OneRoot ns
      → ctx < length ns.nodes
      → IsNamePath path
      → 0 < length path.segs
      → (base : ℕ) × (r : Option ℕ) × Start ns ctx path.rooted path.carets base
        × (base < length ns.nodes)
        × Below ns path.segs base r
        × (resolve_scoped ns ctx (parsed path rest) ≡ answer ns r)
  unfolding resolve_scoped amlname_done
  scoped_lem ctx path rest i o lt h some_segs =
      let amln = parsed path rest in
      let (base, start, below, run) = start_of_lem ctx path.rooted path.carets i o lt h.scope in
      let (r, steps, walked) = walk_lem amln path.segs rest base i h.segments below in
      let count : 4 * length path.segs / 4 ≡ length path.segs = omega arith in
      let more = ==_ne (4 * length path.segs) 0 (λ e. omega arith) in
      (base, r, start, below, steps, rw (resolve_scoped, run, ◌>>=◌, more, count, walked) refl)

  Below-Inside :
      (ss : List (List ℕ)) (p : ℕ) (r : Option ℕ)
      → IsNs ns
      → p < length ns.nodes
      → Below ns ss p r
      → Inside ns r
  Below-Inside ss p r i lt (arrived _) = lt
  Below-Inside ss p r i lt (down _ c s ss' _ f below) =
      Below-Inside ss' c r i ((i.hashed p f.0 _ c lt (f.1)).0) below
  Below-Inside ss p r i lt (missing _ s ss' f) = tt

  -- In a well-formed namespace with one root whose aliases have targets that are no aliases, from
  -- a node that is no alias, lai_do_resolve returns for every parsed name that has segments and
  -- is not searched for: it starts at the root (or at the parent so many levels up, stopping at
  -- the root), goes down the segments from child to child, and returns the node at their end, the
  -- target in place of an alias, or null when a segment is missing.
  pub do_resolve-Below :
      (ctx : ℕ) (path : NamePath) (rest : List ℕ)
      → IsNs ns
      → OneRoot ns
      → Aliased ns
      → ctx < length ns.nodes
      → (node_at ns ctx).type ≢ NodeType.alias
      → IsNamePath path
      → 0 < length path.segs
      → (parsed path rest).search_scopes ≡ false
      → (base : ℕ) × (r : Option ℕ) × (out : Option ℕ) × Start ns ctx path.rooted path.carets base
        × Below ns path.segs base r
        × Answered ns r out
        × (do_resolve ns ctx (parsed path rest) ≡ ok out)
  unfolding do_resolve not_alias
  do_resolve-Below ctx path rest i o aliased lt plain h some_segs scoped =
      let (base, r, start, below, steps, run) = scoped_lem ctx path rest i o lt h some_segs in
      let (out, answered, means) =
        answer-Answered ns aliased r (Below-Inside path.segs base r i below steps) in
      let shown = no_alias ((node_at ns ctx).type) plain in
      (
        base,
        r,
        out,
        start,
        steps,
        means,
        rw (do_resolve, not_alias, node_at-read ns ctx lt, ◌>>=◌, shown)
            (if_false _ _ _ scoped ∙ run ∙ answered),
      )

  -- In a well-formed namespace whose aliases have targets that are no aliases, from a node that
  -- is no alias, lai_do_resolve of a parsed single segment without prefix returns what the name
  -- means in the scope: the nearest child of that name on the way to the root, the target in
  -- place of an alias, or null.
  pub do_resolve-Visible :
      (ctx : ℕ) (s rest : List ℕ)
      → IsNs ns
      → Aliased ns
      → ctx < length ns.nodes
      → (node_at ns ctx).type ≢ NodeType.alias
      → IsSeg s
      → (r : Option ℕ) × (out : Option ℕ) × Visible ns s ctx r
        × Answered ns r out
        × (do_resolve ns ctx (parsed (record { rooted = false; carets = 0; segs = s ∷ [] }) rest)
            ≡ ok out)
  unfolding do_resolve resolve_single not_alias amlname_done
  do_resolve-Visible ctx s rest i aliased lt plain seg =
      let amln = parsed (record { rooted = false; carets = 0; segs = s ∷ [] }) rest in
      let (r, sees, run) = scopes_loop ns s (suc ctx) ctx i lt (omega arith) in
      let (out, answered, means) =
        answer-Answered ns aliased r (Visible-Inside ns s ctx r i lt sees) in
      let shown = no_alias ((node_at ns ctx).type) plain in
      (
        r,
        out,
        sees,
        means,
        rw
            (
              do_resolve,
              not_alias,
              node_at-read ns ctx lt,
              ◌>>=◌,
              shown,
              amlname_iterate-seg amln s [] rest seg,
              ◌>>=◌,
            )
            (run ∙ answered),
      )
