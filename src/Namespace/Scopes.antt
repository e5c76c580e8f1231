-- ===== src/Namespace/Scopes.antt =====
-- core/ns.c: what the search through the scopes finds.
use mathlib.Core.Option.{some-injective, some-ne-none}
use lai.Base.{
  ok, ℕ, zero, suc, ◌<◌, ◌≡◌, ◌≢◌, refl, sym, ◌∙◌, Option, none, some, List, length, ◌>>=◌,
  Option-cases, inl, inr, arith,
}
use lai.Namespace.{NodeType, Namespace}
use lai.Namespace.Aliases.{Answered, Aliased, Inside, no_alias, answer-Answered}
use lai.Namespace.Invariant.{node_at, IsNs, node_at-read}
use lai.Namespace.Children.{Found, get_child-cases, Found-unique}
use lai.Namespace.Resolve.{scope_search, answer, not_alias, resolve_search}

-- What a name means in the scope `p`: the child of `p` of that name, or what the name means in the
-- parent of `p`, or nothing when no scope up to the root has the name.
pub data Visible (ns : Namespace) (segment : List ℕ) : ℕ → Option ℕ → Type 0 where
  here : (p c : ℕ) → Found ns p segment (some c) → Visible ns segment p (some c)
  outer :
      (p q : ℕ) (r : Option ℕ)
      → Found ns p segment none
      → (node_at ns p).parent ≡ some q
      → Visible ns segment q r
      → Visible ns segment p r
  nowhere :
      (p : ℕ) → Found ns p segment none → (node_at ns p).parent ≡ none → Visible ns segment p none

module _ (ns : Namespace) (segment : List ℕ) where
  pub scopes_loop :
      (fuel p : ℕ)
      → IsNs ns
      → p < length ns.nodes
      → p < fuel
      → (r : Option ℕ) × Visible ns segment p r × (scope_search fuel ns p segment ≡ answer ns r)
  unfolding scope_search answer
  scopes_loop zero p i lt room = absurd (omega arith)
  scopes_loop (suc fuel) p i lt room = elim (get_child-cases ns p segment i lt) [
    | inr (c, run, found) ↦ (some c, here p c found, rw (scope_search, run, ◌>>=◌) refl)
    | inl (run, found) ↦ elim (Option-cases ((node_at ns p).parent)) [
      | inl top ↦ (
        none,
        nowhere p found top,
        rw (scope_search, run, ◌>>=◌, node_at-read ns p lt, ◌>>=◌, top) refl,
      )
      | inr (q, up) ↦
          let older = i.older p q lt up in
          let (r, sees, rest) = scopes_loop fuel q i (omega arith) (omega arith) in
          (
            r,
            outer p q r found up sees,
            rw (scope_search, run, ◌>>=◌, node_at-read ns p lt, ◌>>=◌, up) rest,
          )
    ]
  ]

  -- A name means one thing in a scope.
  pub Visible-unique :
      (p : ℕ) (r s : Option ℕ)
      → IsNs ns
      → p < length ns.nodes
      → Visible ns segment p r
      → Visible ns segment p s
      → r ≡ s
  Visible-unique p r s i lt (here _ c f) (here _ d g) = Found-unique ns p segment r s i lt f g
  Visible-unique p r s i lt (here _ c f) (outer _ q _ g up v) =
      absurd (some-ne-none _ (Found-unique ns p segment r none i lt f g))
  Visible-unique p r s i lt (here _ c f) (nowhere _ g top) = Found-unique ns p segment r s i lt f g
  Visible-unique p r s i lt (outer _ q _ f up v) (here _ c g) =
      absurd (some-ne-none _ (Found-unique ns p segment s none i lt g f))
  Visible-unique p r s i lt (outer _ q _ f up v) (outer _ q' _ g up' w) =
      let same = some-injective _ _ (sym up ∙ up') in
      let older = i.older p q lt up in Visible-unique q r s i (omega arith) v (rw same w)
  Visible-unique p r s i lt (outer _ q _ f up v) (nowhere _ g top) =
      absurd (some-ne-none _ (sym up ∙ top))
  Visible-unique p r s i lt (nowhere _ f top) (here _ c g) = Found-unique ns p segment r s i lt f g
  Visible-unique p r s i lt (nowhere _ f top) (outer _ q _ g up v) =
      absurd (some-ne-none _ (sym up ∙ top))
  Visible-unique p r s i lt (nowhere _ f top) (nowhere _ g _) = refl

  pub Visible-Inside :
      (p : ℕ) (r : Option ℕ) → IsNs ns → p < length ns.nodes → Visible ns segment p r → Inside ns r
  Visible-Inside p r i lt (here _ c f) = (i.hashed p f.0 _ c lt (f.1)).0
  Visible-Inside p r i lt (outer _ q _ f up v) =
      let older = i.older p q lt up in Visible-Inside q r i (omega arith) v
  Visible-Inside p r i lt (nowhere _ f top) = tt

  -- In a well-formed namespace whose aliases have targets that are no aliases, from a node that
  -- is no alias, lai_resolve_search returns. What it finds is what the name means in the scope:
  -- the child of that name of the nearest node on the way to the root (the node itself first), or
  -- nothing when no node on the way has such a child; the rule that says so allows one result
  -- only. It returns that child, the target in place of an alias, or null.
  pub resolve_search-Visible :
      (p : ℕ)
      → IsNs ns
      → Aliased ns
      → p < length ns.nodes
      → (node_at ns p).type ≢ NodeType.alias
      → (r : Option ℕ) × (out : Option ℕ) × Visible ns segment p r
        × ((s : Option ℕ) → Visible ns segment p s → s ≡ r)
        × Answered ns r out
        × (resolve_search ns p segment ≡ ok out)
  unfolding resolve_search not_alias
  resolve_search-Visible p i aliased lt plain =
      let (r, sees, run) = scopes_loop (suc p) p i lt (omega arith) in
      let (out, answered, means) = answer-Answered ns aliased r (Visible-Inside p r i lt sees) in
      let shown = no_alias ((node_at ns p).type) plain in
      (
        r,
        out,
        sees,
        (λ s v. Visible-unique p s r i lt v sees),
        means,
        rw (resolve_search, not_alias, node_at-read ns p lt, ◌>>=◌, shown) (run ∙ answered),
      )
