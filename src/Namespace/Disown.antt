-- ===== src/Namespace/Disown.antt =====
-- core/ns.c: what the loops of `lai_uninstall_nsnode` do to the table of the parent.
use native.Mathlib.Decide.{ℕ_discrete, dec_lt}
use mathlib.Core.Option.{some-ne-none}
use mathlib.Core.Bool.{false≢true}
use lai.Base.{
  ℕ, zero, suc, ◌+◌, ◌≤◌, ◌<◌, ◌≡◌, ◌≢◌, refl, sym, ap, ◌∙◌, Bool, none, some, ◌==◌, ==_self, ==_ne,
  ==_iff, if_false, inl, inr, arith, if◌then◌else◌, ok, ◌>>=◌,
}
use lai.HashTable.{HashTable}
use lai.HashTable.Invariant.{IsValid, slot}
use lai.HashTable.Chain.{
  IsNext, NoneFrom, advance_lem, Standing, matches-Standing, Standing-slot, Standing-matches,
  Standing-unique, slot-Standing_valid, chain_get_lem, chain_remove_lem,
}
use lai.Namespace.Remove.{remove_loop, check_gone, disown}

module _ (ht : HashTable ℕ) (h node : ℕ) (v : IsValid ht) where
  -- The elements before position `seen` are other nodes.
  abbrev Passed : ℕ → Type 0
  Passed seen = (j l x : ℕ) → j < seen → Standing ht h j l x → x ≢ node

  Passed-next :
      (seen i k e : ℕ)
      → Passed seen
      → IsNext ht h seen i
      → Standing ht h i k e
      → e ≢ node
      → Passed (i + 1)
  Passed-next seen i k e t n st fails j l x lt other = elim (dec_lt j seen) [
    | yes before ↦ t j l x before other
    | no after ↦ elim (dec_lt j i) [
      | yes between ↦
          absurd (
            false≢true (sym (n.misses j (omega arith) between) ∙ Standing-matches ht h j l x other))
      | no last ↦
          let here : j ≡ i = omega arith in
          let same = Standing-unique ht h i l k x e (rw here at other) st in
          (λ q. fails (sym same ∙ q))
    ]
  ]

  -- No match from position `seen` on, and no node before it: the node is not in the table.
  absent : (seen : ℕ) → Passed seen → NoneFrom ht h seen → (k : ℕ) → slot ht k ≡ some (h, node) → ⊥
  absent seen t nothing k at =
      let (i, lt, hit, st) = slot-Standing_valid ht h k node v at in
      elim (dec_lt i seen) [
        | yes before ↦ t i k node before st refl
        | no after ↦ false≢true (sym (nothing i (omega arith) lt) ∙ hit)
      ]

  -- What the removal does: one slot that held the node is free, and the others stay.
  pub record Removed (out : HashTable ℕ) : Type 0 where
    pub valid : IsValid out
    pub place : ℕ
    pub held : slot ht place ≡ some (h, node)
    pub slots : (j : ℕ) → slot out j ≡ (if place == j then none else slot ht j)

  remove_loop_lem :
      (fuel seen k : ℕ)
      → slot ht k ≡ some (h, node)
      → seen ≤ ht.bucket_capacity
      → ht.bucket_capacity < seen + fuel
      → Passed seen
      → (out : HashTable ℕ) × (last : ℕ) × (remove_loop ht h node fuel seen ≡ ok (out, last))
        × (last ≤ out.bucket_capacity)
        × Removed out
  unfolding remove_loop
  remove_loop_lem zero seen k at le room t = absurd (omega arith)
  remove_loop_lem (suc fuel) seen k at le room t = elim (advance_lem ht h seen le) [
    | inr (nothing, run) ↦ absurd (absent seen t nothing k at)
    | inl (i, n, run) ↦
        let (l, e, st) = matches-Standing ht h i v.sized n.hit in
        let got = chain_get_lem ht h i l e st n.below in
        elim (ℕ_discrete e node) [
          | no other ↦
              let (out, last, rest, bound, r) =
                remove_loop_lem fuel (i + 1) k at (omega (arith, n.below)) (omega (arith, n.from))
                  (Passed-next seen i l e t n st other) in
              (
                out,
                last,
                rw (remove_loop, run, ◌>>=◌, got, ◌>>=◌, ==_ne e node other) rest,
                bound,
                r,
              )
          | yes same ↦
              let (out, removed, valid, slots, count, width) =
                chain_remove_lem ht h i l e st n.below v in
              (
                out,
                i + 1,
                rw (remove_loop, run, ◌>>=◌, got, ◌>>=◌, same, ==_self node, removed, ◌>>=◌) refl,
                omega (arith, n.below, width),
                record {
                  valid = valid;
                  place = l;
                  held = Standing-slot ht h i l e st ∙ ap (λ (y : ℕ). some (h, y)) same;
                  slots = slots;
                },
              )
        ]
  ]

-- A table without the node passes the check.
check_gone_lem :
    (ht : HashTable ℕ) (h node fuel seen : ℕ)
    → IsValid ht
    → ((k : ℕ) → slot ht k ≢ some (h, node))
    → seen ≤ ht.bucket_capacity
    → ht.bucket_capacity < seen + fuel
    → check_gone ht h node fuel seen ≡ ok tt
unfolding check_gone
check_gone_lem ht h node zero seen v gone le room = absurd (omega arith)
check_gone_lem ht h node (suc fuel) seen v gone le room = elim (advance_lem ht h seen le) [
  | inr (nothing, run) ↦ rw (check_gone, run) refl
  | inl (i, n, run) ↦
      let (l, e, st) = matches-Standing ht h i v.sized n.hit in
      let got = chain_get_lem ht h i l e st n.below in
      let at = Standing-slot ht h i l e st in
      let other : e ≢ node = λ same. gone l (at ∙ ap (λ (y : ℕ). some (h, y)) same) in
      rw (check_gone, run, ◌>>=◌, got, ◌>>=◌, ==_ne e node other)
        (check_gone_lem ht h node fuel (i + 1) v gone (omega (arith, n.below))
          (omega (arith, n.from)))
]

-- No slot holds the node after the one that did is free.
freed :
    (ht : HashTable ℕ) (h node k j : ℕ)
    → ((i : ℕ) → slot ht i ≡ some (h, node) → i ≡ k)
    → some (h, node) ≡ (if k == j then none else slot ht j)
    → ⊥
freed ht h node k j once e = elim (ℕ_discrete k j) [
  | yes same ↦
      some-ne-none _ (e ∙ ap (λ (b : Bool). if b then none else slot ht j) ((==_iff k j).1 same))
  | no other ↦ other (sym (once j (sym (e ∙ if_false _ _ _ (==_ne k j other)))))
]

-- A table that holds the node in one slot loses it, and nothing else.
pub disown_lem :
    (ht : HashTable ℕ) (h node k : ℕ) (v : IsValid ht)
    → slot ht k ≡ some (h, node)
    → ((j : ℕ) → slot ht j ≡ some (h, node) → j ≡ k)
    → (out : HashTable ℕ) × (disown ht h node ≡ ok out)
      × IsValid out
      × ((j : ℕ) → slot out j ≡ (if k == j then none else slot ht j))
unfolding disown
disown_lem ht h node k v at once =
    let (out, last, run, bound, r) =
      remove_loop_lem ht h node v (ht.bucket_capacity + 1) 0 k at (omega arith) (omega arith)
        (λ j l x lt st. absurd (omega arith)) in
    let here = once r.place r.held in
    let slots = λ (j : ℕ). r.slots j ∙ ap (λ (t : ℕ). if t == j then none else slot ht j) here in
    let gone =
      check_gone_lem out h node (out.bucket_capacity + 1) last r.valid
        (λ j e. freed ht h node k j once (sym e ∙ slots j)) bound (omega arith) in
    (out, rw (disown, run, ◌>>=◌, gone) refl, r.valid, slots)
