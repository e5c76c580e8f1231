-- ===== src/Namespace/Aliases.antt =====
-- core/ns.c: the node that stands for an alias.
use mathlib.Core.Bool.{false≢true}
use lai.Base.{
  ℕ, ◌<◌, ◌≡◌, ◌≢◌, refl, sym, ap, ◌∙◌, true, false, Option, none, some, length, Run, ok, ◌>>=◌,
  inl, inr, Bool-cases, arith,
}
use lai.Namespace.{NodeType, Namespace}
use lai.Namespace.Invariant.{node_at, node_at-read}
use lai.Namespace.Resolve.{is_alias, not_alias, follow_alias, answer}

-- The node itself, or the target of an alias.
pub data Target (ns : Namespace) : ℕ → ℕ → Type 0 where
  itself : (c : ℕ) → (node_at ns c).type ≢ NodeType.alias → Target ns c c
  behind :
      (c t : ℕ)
      → (node_at ns c).type ≡ NodeType.alias
      → (node_at ns c).al_target ≡ some t
      → (node_at ns t).type ≢ NodeType.alias
      → Target ns c t

-- What is returned for the node that was found, if any.
abbrev pub Answered : Namespace → (found out : Option ℕ) → Type 0
Answered ns none out = out ≡ none
Answered ns (some c) out = (t : ℕ) × (out ≡ some t) × Target ns c t

-- An alias stands for a node that is no alias.
abbrev pub Aliased : Namespace → Type 0
Aliased ns =
    (n : ℕ)
    → n < length ns.nodes
    → (node_at ns n).type ≡ NodeType.alias
    → (t : ℕ) × ((node_at ns n).al_target ≡ some t)
      × (t < length ns.nodes)
      × ((node_at ns t).type ≢ NodeType.alias)

-- A node of the namespace, if there is one.
abbrev pub Inside : Namespace → Option ℕ → Type 0
Inside ns none = Unit
Inside ns (some c) = c < length ns.nodes

is_alias-true : (t : NodeType) → is_alias t ≡ true → t ≡ NodeType.alias
unfolding is_alias
is_alias-true t e = ground arith

is_alias-false : (t : NodeType) → is_alias t ≡ false → t ≢ NodeType.alias
unfolding is_alias
is_alias-false t e same = false≢true (sym e ∙ ap is_alias same)

pub no_alias : (t : NodeType) → t ≢ NodeType.alias → is_alias t ≡ false
no_alias t ne = elim (Bool-cases (is_alias t)) [
  | inl yes_ ↦ absurd (ne (is_alias-true t yes_))
  | inr no_ ↦ no_
]

module _ (ns : Namespace) (aliased : Aliased ns) where
  -- Following an alias ends in no panic.
  pub follow_alias-Target :
      (n : ℕ)
      → n < length ns.nodes
      → (t : ℕ) × (follow_alias ns n ≡ ok t) × (t < length ns.nodes) × Target ns n t
  unfolding follow_alias not_alias
  follow_alias-Target n lt = elim (Bool-cases (is_alias ((node_at ns n).type))) [
    | inr plain ↦ (
      n,
      rw (follow_alias, node_at-read ns n lt, ◌>>=◌, plain) refl,
      lt,
      itself n (is_alias-false ((node_at ns n).type) plain),
    )
    | inl alias_ ↦
        let kind = is_alias-true ((node_at ns n).type) alias_ in
        let (t, at, below, plain) = aliased n lt kind in
        let shown = no_alias ((node_at ns t).type) plain in
        (
          t,
          rw
              (
                follow_alias,
                node_at-read ns n lt,
                ◌>>=◌,
                alias_,
                at,
                not_alias,
                node_at-read ns t below,
                ◌>>=◌,
                shown,
              )
              refl,
          below,
          behind n t kind at plain,
        )
  ]

  pub answer-Answered :
      (r : Option ℕ) → Inside ns r → (out : Option ℕ) × (answer ns r ≡ ok out) × Answered ns r out
  unfolding answer
  answer-Answered none inside = (none, refl, refl)
  answer-Answered (some c) inside =
      let (t, run, below, target) = follow_alias-Target c inside in
      (some t, ap (λ (r : Run ℕ). r >>= λ x. ok (some x)) run, (t, refl, target))
