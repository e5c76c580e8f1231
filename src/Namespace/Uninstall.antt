-- ===== src/Namespace/Uninstall.antt =====
-- core/ns.c: what `lai_uninstall_nsnode` does to a well-formed namespace.
use mathlib.Core.Path.{subst}
use mathlib.Core.Bool.{false≢true}
use mathlib.Core.Option.{some-injective, some-ne-none}
use native.Mathlib.Decide.{ℕ_discrete}
use lai.Base.{
  zero, suc, get_or, [], ◌∷◌, ==_self, ==_ne, ◌≢◌, ℕ, ◌<◌, ◌≡◌, ◌≢◌, refl, sym, ap, ap₂, ◌∙◌, Bool,
  true, false, Option, none, some, List, length, map, ok, ◌>>=◌, inl, inr, arith, ==_iff, ==_ne,
  ◌==◌, if◌then◌else◌, if_false, Bool-cases,
}
use lai.HashTable.{HashTable}
use lai.HashTable.Invariant.{IsValid, slot}
use lai.Namespace.{Namespace, same_bytes, hash_string, get_child}
use lai.Namespace.Invariant.{node_at, name_of, HasChild, IsNs, node_at-read, same_bytes_refl}
use lai.Namespace.Adopt.{with_table, same_length, same_name, same_parent, tables_at, table_at}
use lai.Namespace.Install.{pushed-IsNs, get_child-eq}
use lai.Namespace.Children.{Found, get_child-Found}
use lai.Namespace.Remove.{uninstall_nsnode, forget}
use lai.Namespace.Disown.{disown_lem}

module _ (ns : Namespace) (p n k : ℕ) (table : HashTable ℕ) (lt : p < length ns.nodes) (i : IsNs ns)
    (child : HasChild ns p k n)
    (slots : (j : ℕ)
      → slot table j ≡ (if k == j then none else slot ((node_at ns p).children) j)) where
  abbrev rest : Namespace
  rest = with_table ns p table

  -- Every slot of the new tables is a slot of the old ones, and not the one that is freed.
  slot_before :
      (q j : ℕ) (x : ℕ × ℕ)
      → slot ((node_at rest q).children) j ≡ some x
      → (slot ((node_at ns q).children) j ≡ some x) × (q ≡ p → k ≢ j)
  slot_before q j x at = elim (ℕ_discrete q p) [
    | no ne ↦ ((rw (← tables_at ns p table lt q ne) at), (λ e. absurd (ne e)))
    | yes e ↦
        let here : slot table j ≡ some x =
          sym (ap (λ (t : HashTable ℕ). slot t j) (table_at ns p table lt))
          ∙ ap (λ (t : ℕ). slot ((node_at rest t).children) j) (sym e)
          ∙ at in
        let ne : k ≢ j = λ same. some-ne-none x (
          sym here
          ∙ slots j
          ∙ ap (λ (b : Bool). if b then none else slot ((node_at ns p).children) j)
              ((==_iff k j).1 same)) in
        (
          ap (λ (t : ℕ). slot ((node_at ns t).children) j) e
              ∙ sym (slots j ∙ if_false _ _ _ (==_ne k j ne))
              ∙ here,
          (λ _. ne),
        )
  ]

  slot_after :
      (q j : ℕ) (x : ℕ × ℕ)
      → slot ((node_at ns q).children) j ≡ some x
      → (q ≡ p → k ≢ j)
      → slot ((node_at rest q).children) j ≡ some x
  slot_after q j x at other = elim (ℕ_discrete q p) [
    | no ne ↦ rw (tables_at ns p table lt q ne) at
    | yes e ↦
        ap (λ (t : ℕ). slot ((node_at rest t).children) j) e
        ∙ ap (λ (t : HashTable ℕ). slot t j) (table_at ns p table lt)
        ∙ slots j
        ∙ if_false _ _ _ (==_ne k j (other e))
        ∙ ap (λ (t : ℕ). slot ((node_at ns t).children) j) (sym e)
        ∙ at
  ]

  child_before : (q j c : ℕ) → HasChild rest q j c → HasChild ns q j c × (q ≡ p → k ≢ j)
  child_before q j c at =
      let (old, ne) = slot_before q j _ at in
      (old ∙ ap (λ (t : List ℕ). some (hash_string t, c)) (same_name ns p table lt c), ne)

  removed-IsNs : IsValid table → IsNs rest
  removed-IsNs v = record {
    tables = λ q bound. elim (ℕ_discrete q p) [
      | yes e ↦
          subst (λ (t : ℕ). IsValid ((node_at rest t).children)) (sym e)
            (rw (table_at ns p table lt) v)
      | no ne ↦
          rw (tables_at ns p table lt q ne) (i.tables q (rw (← same_length ns p table lt) bound))
    ];
    hashed = λ q j h c bound at.
        let (inside, e) =
          i.hashed q j h c (rw (← same_length ns p table lt) bound) ((slot_before q j _ at).0) in
        (
          rw (same_length ns p table lt) inside,
          e ∙ ap hash_string (sym (same_name ns p table lt c)),
        );
    distinct = λ q j l c d bound at bt same.
        i.distinct q j l c d (rw (← same_length ns p table lt) bound) ((child_before q j c at).0)
          ((child_before q l d bt).0)
          (sym (ap₂ (same_bytes 4) (same_name ns p table lt c) (same_name ns p table lt d)) ∙ same);
    older = λ q r bound e.
        i.older q r (rw (← same_length ns p table lt) bound)
          (sym (same_parent ns p table lt q) ∙ e);
    four = λ q bound.
        rw (same_name ns p table lt q) (i.four q (rw (← same_length ns p table lt) bound));
  }

  -- The removed child is no longer found.
  gone-Found : n < length ns.nodes → Found rest p (name_of ns n) none
  gone-Found below j c at =
      let (old, ne) = child_before p j c at in
      elim (Bool-cases (same_bytes 4 (name_of ns c) (name_of ns n))) [
        | inr no_ ↦ rw (same_name ns p table lt c) no_
        | inl yes_ ↦ absurd (ne refl (sym (i.distinct p j k c n lt old child yes_)))
      ]

  -- A child that is found under another name is not the removed one.
  not_freed :
      (q j c : ℕ) (segment : List ℕ)
      → HasChild ns q j c
      → same_bytes 4 (name_of ns c) segment ≡ true
      → (q ≡ p → same_bytes 4 (name_of ns n) segment ≡ false)
      → q ≡ p
      → k ≢ j
  not_freed q j c segment at same other e here =
      let there = ap (λ (t : ℕ). slot ((node_at ns t).children) j) (sym e) ∙ at in
      let pair =
        some-injective _ _ (sym child ∙ ap (slot ((node_at ns p).children)) here ∙ there) in
      let known = ap (λ (t : ℕ × ℕ). same_bytes 4 (name_of ns t.1) segment) pair in
      false≢true (sym (other e) ∙ known ∙ same)

  kept-Found :
      (q : ℕ) (segment : List ℕ) (r : Option ℕ)
      → (q ≡ p → same_bytes 4 (name_of ns n) segment ≡ false)
      → Found ns q segment r
      → Found rest q segment r
  kept-Found q segment (some c) other (j, at, same) = (
    j,
    slot_after q j _ at (not_freed q j c segment at same other)
        ∙ ap (λ (t : List ℕ). some (hash_string t, c)) (sym (same_name ns p table lt c)),
    rw (same_name ns p table lt c) same,
  )
  kept-Found q segment none other f =
      λ j c at. rw (same_name ns p table lt c) (f j c ((child_before q j c at).0))

get_or-forget :
    (n : ℕ) (array : List (Option ℕ)) (k : ℕ)
    → get_or (map (forget n) array) k none ≡ forget n (get_or array k none)
unfolding forget
get_or-forget n [] k = refl
get_or-forget n (e ∷ array) zero = refl
get_or-forget n (e ∷ array) (suc k) = get_or-forget n array k

forget_other : (n c : ℕ) → c ≢ n → forget n (some c) ≡ some c
unfolding forget
forget_other n c ne = rw (forget, ==_ne c n ne) refl

forget_self : (n : ℕ) (e : Option ℕ) → forget n e ≡ some n → ⊥
unfolding forget
forget_self n none eq = some-ne-none n (sym eq)
forget_self n (some c) eq = elim (ℕ_discrete c n) [
  | yes same ↦ some-ne-none n (sym eq ∙ (rw (forget, same, ==_self n) refl))
  | no other ↦ other (some-injective _ _ (sym (forget_other n c other) ∙ eq))
]

-- What a removal has done: the node is in the array no more, its parent has no child of its name,
-- and every other name means what it meant.
pub record Uninstalled (ns : Namespace) (n p : ℕ) (out : Namespace) : Type 0 where
  pub valid : IsNs out
  pub cleared : (k : ℕ) → get_or out.ns_array k none ≢ some n
  pub entries :
      (k c : ℕ) → c ≢ n → get_or ns.ns_array k none ≡ some c → get_or out.ns_array k none ≡ some c
  pub gone : get_child out p (name_of ns n) ≡ ok none
  pub kept :
      (q : ℕ) (segment : List ℕ)
      → q < length ns.nodes
      → (q ≡ p → same_bytes 4 (name_of ns n) segment ≡ false)
      → get_child out q segment ≡ get_child ns q segment

-- The parent's table holds the node once.
held_once :
    (ns : Namespace) (n p k j : ℕ)
    → IsNs ns
    → n < length ns.nodes
    → p < length ns.nodes
    → HasChild ns p k n
    → HasChild ns p j n
    → j ≡ k
held_once ns n p k j i lt below child other =
    i.distinct p j k n n below other child (same_bytes_refl 4 (name_of ns n) (i.four n lt))

-- For a node of a well-formed namespace that stands in the table of its parent,
-- lai_uninstall_nsnode ends in no panic and leaves a well-formed namespace in which the array has
-- no entry for the node and keeps its entries for others, a lookup of its name in the parent
-- finds nothing, and every other lookup answers what it answered before.
pub uninstall_nsnode-Uninstalled :
    (ns : Namespace) (n p k : ℕ)
    → IsNs ns
    → n < length ns.nodes
    → (node_at ns n).parent ≡ some p
    → HasChild ns p k n
    → (out : Namespace) × (uninstall_nsnode ns n ≡ ok out) × Uninstalled ns n p out
unfolding uninstall_nsnode
uninstall_nsnode-Uninstalled ns n p k i lt up child =
    let base = record ns { ns_array = map (forget n) ns.ns_array } in
    let j = pushed-IsNs ns (map (forget n) ns.ns_array) ns.ns_capacity i in
    let below : p < length ns.nodes = omega (arith, i.older n p lt up) in
    let (table, run, v, slots) =
      disown_lem ((node_at ns p).children) (hash_string (name_of ns n)) n k (i.tables p below) child
        (λ l at. held_once ns n p k l i lt below child at) in
    let after = removed-IsNs base p n k table below j child slots v in
    let width = same_length base p table below in
    (
      with_table base p table,
      rw (uninstall_nsnode, node_at-read ns n lt, ◌>>=◌, up, node_at-read ns p below, ◌>>=◌, run)
          refl,
      record {
        valid = after;
        cleared = λ l e.
            forget_self n (get_or ns.ns_array l none) (sym (get_or-forget n ns.ns_array l) ∙ e);
        entries =
            λ l c ne at. get_or-forget n ns.ns_array l ∙ ap (forget n) at ∙ forget_other n c ne;
        gone =
            get_child-eq (with_table base p table) p (name_of ns n) none after (rw width below)
              (gone-Found base p n k table below j child slots lt);
        kept = λ q segment inside other.
            let (s, old, f) = get_child-Found ns q segment i inside in
            get_child-eq (with_table base p table) q segment s after (rw width inside)
              (kept-Found base p n k table below j child slots q segment s other f)
            ∙ sym old;
      },
    )
