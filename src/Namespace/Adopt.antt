-- ===== src/Namespace/Adopt.antt =====
-- core/ns.c: a well-formed namespace in which one table has taken a new child.
use mathlib.Core.Path.{subst}
use mathlib.Core.Bool.{false≢true}
use mathlib.Core.Option.{some-injective, some-ne-none}
use native.Mathlib.Decide.{ℕ_discrete}
use lai.Base.{
  ℕ, ◌<◌, ◌≡◌, ◌≢◌, ◌⊎◌, refl, sym, ap, ap₂, ◌∙◌, true, false, Option, none, some, List, length,
  set, get_or-set_self, get_or-set_ne, length-set, inl, inr, ==_self, ==_ne, if_false,
}
use lai.HashTable.{HashTable}
use lai.HashTable.Invariant.{IsValid, slot}
use lai.HashTable.Insert.{Inserted}
use lai.Namespace.{Node, Namespace, same_bytes, hash_string}
use lai.Namespace.Invariant.{
  blank, node_at, name_of, HasChild, IsNs, same_bytes_comm, same_bytes_refl,
}
use lai.Namespace.Children.{Found}

-- The namespace in which `p` has another table.
abbrev pub with_table : Namespace → ℕ → HashTable ℕ → Namespace
with_table ns p table = record ns {
  nodes = set ns.nodes p (record (node_at ns p) { children = table });
}

module _ (ns : Namespace) (p : ℕ) (table : HashTable ℕ) (lt : p < length ns.nodes) where
  at_self : node_at (with_table ns p table) p ≡ record (node_at ns p) { children = table }
  at_self = get_or-set_self ns.nodes p _ blank lt

  at_other : (q : ℕ) → q ≢ p → node_at (with_table ns p table) q ≡ node_at ns q
  at_other q ne = get_or-set_ne ns.nodes p q _ blank (λ e. ne (sym e))

  pub same_name : (q : ℕ) → name_of (with_table ns p table) q ≡ name_of ns q
  same_name q = elim (ℕ_discrete q p) [
    | yes e ↦ rw e (ap (λ (n : Node). n.name) at_self)
    | no ne ↦ ap (λ (n : Node). n.name) (at_other q ne)
  ]

  pub same_parent : (q : ℕ) → (node_at (with_table ns p table) q).parent ≡ (node_at ns q).parent
  same_parent q = elim (ℕ_discrete q p) [
    | yes e ↦ rw e (ap (λ (n : Node). n.parent) at_self)
    | no ne ↦ ap (λ (n : Node). n.parent) (at_other q ne)
  ]

  pub same_length : length ((with_table ns p table).nodes) ≡ length ns.nodes
  same_length = length-set ns.nodes p _

  pub tables_at :
      (q : ℕ) → q ≢ p → (node_at (with_table ns p table) q).children ≡ (node_at ns q).children
  tables_at q ne = ap (λ (n : Node). n.children) (at_other q ne)

  pub table_at : (node_at (with_table ns p table) p).children ≡ table
  table_at = ap (λ (n : Node). n.children) at_self

  module _ (n : ℕ)
      (ins : Inserted ((node_at ns p).children) (hash_string (name_of ns n)) n table) where
    -- A slot of the new tables is a slot of the old ones, or the one that `n` took.
    slot_split :
        (q k h c : ℕ)
        → slot ((node_at (with_table ns p table) q).children) k ≡ some (h, c)
        → (slot ((node_at ns q).children) k ≡ some (h, c))
          ⊎ ((q ≡ p) × (ins.place ≡ k) × (h ≡ hash_string (name_of ns n)) × (c ≡ n))
    slot_split q k h c at = elim (ℕ_discrete q p) [
      | no ne ↦ inl (rw (← tables_at q ne) at)
      | yes e ↦
          let here : slot table k ≡ some (h, c) =
            sym (ap (λ (t : HashTable ℕ). slot t k) table_at)
            ∙ ap (λ (t : ℕ). slot ((node_at (with_table ns p table) t).children) k) (sym e)
            ∙ at in
          elim (ℕ_discrete ins.place k) [
            | no ne ↦ inl (rw e (sym (ins.slots k ∙ if_false _ _ _ (==_ne _ _ ne)) ∙ here))
            | yes same ↦
                let new : slot table k ≡ some (hash_string (name_of ns n), n) =
                  (rw (ins.slots k, same, ==_self k) refl) in
                let pair = some-injective _ _ (sym here ∙ new) in
                inr (e, same, ap (λ (t : ℕ × ℕ). t.0) pair, ap (λ (t : ℕ × ℕ). t.1) pair)
          ]
    ]

    slot_kept :
        (q k : ℕ) (x : ℕ × ℕ)
        → slot ((node_at ns q).children) k ≡ some x
        → slot ((node_at (with_table ns p table) q).children) k ≡ some x
    slot_kept q k x at = elim (ℕ_discrete q p) [
      | no ne ↦ rw (tables_at q ne) at
      | yes e ↦
          let old : slot ((node_at ns p).children) k ≡ some x = (rw (← e) at) in
          elim (ℕ_discrete ins.place k) [
            | no ne ↦ rw (e, table_at) (ins.slots k ∙ if_false _ _ _ (==_ne _ _ ne) ∙ old)
            | yes same ↦ absurd (some-ne-none x (sym old ∙ (rw (← same) ins.was_free)))
          ]
    ]

    slot_new :
        slot ((node_at (with_table ns p table) p).children) ins.place
        ≡ some (hash_string (name_of ns n), n)
    slot_new = rw (table_at, ins.slots ins.place, ==_self ins.place) refl

    child_split :
        (q k c : ℕ)
        → HasChild (with_table ns p table) q k c
        → HasChild ns q k c ⊎ ((q ≡ p) × (ins.place ≡ k) × (c ≡ n))
    child_split q k c at = elim (slot_split q k _ c at) [
      | inl old ↦ inl (old ∙ ap (λ (t : List ℕ). some (hash_string t, c)) (same_name c))
      | inr (e, same, eh, ec) ↦ inr (e, same, ec)
    ]

    -- No old child has the name of the new one.
    no_clash :
        (q k c d : ℕ)
        → Found ns p (name_of ns n) none
        → HasChild ns q k c
        → q ≡ p
        → d ≡ n
        → same_bytes 4 (name_of ns c) (name_of ns d) ≡ false
    no_clash q k c d fresh at e ed = rw ed (fresh k c (subst (λ (t : ℕ). HasChild ns t k c) e at))

    distinct_kept :
        (q k l c d : ℕ)
        → IsNs ns
        → Found ns p (name_of ns n) none
        → q < length ns.nodes
        → HasChild (with_table ns p table) q k c
        → HasChild (with_table ns p table) q l d
        → same_bytes 4 (name_of ns c) (name_of ns d) ≡ true
        → k ≡ l
    distinct_kept q k l c d i fresh bound at bt same = elim (child_split q k c at) [
      | inl old ↦ elim (child_split q l d bt) [
        | inl other ↦ i.distinct q k l c d bound old other same
        | inr (e, _, ed) ↦ absurd (false≢true (sym (no_clash q k c d fresh old e ed) ∙ same))
      ]
      | inr (e, here, ec) ↦ elim (child_split q l d bt) [
        | inl other ↦
            absurd
              (false≢true (sym (no_clash q l d c fresh other e ec) ∙ same_bytes_comm 4 _ _ ∙ same))
        | inr (_, there, _) ↦ sym here ∙ there
      ]
    ]

    -- The namespace after the insertion is well formed if no child of `p` had the name.
    pub inserted-IsNs :
        IsNs ns
        → n < length ns.nodes
        → Found ns p (name_of ns n) none
        → IsNs (with_table ns p table)
    inserted-IsNs i below fresh = record {
      tables = λ q bound. elim (ℕ_discrete q p) [
        | yes e ↦
            subst (λ (t : ℕ). IsValid ((node_at (with_table ns p table) t).children)) (sym e)
              (rw table_at ins.valid)
        | no ne ↦ rw (tables_at q ne) (i.tables q (rw (← same_length) bound))
      ];
      hashed = λ q k h c bound at. elim (slot_split q k h c at) [
        | inl old ↦
            let (inside, e) = i.hashed q k h c (rw (← same_length) bound) old in
            (rw same_length inside, e ∙ ap hash_string (sym (same_name c)))
        | inr (e, same, eh, ec) ↦ (
          rw (same_length, ec) below,
          eh ∙ ap hash_string (sym (ap (name_of (with_table ns p table)) ec ∙ same_name n)),
        )
      ];
      distinct = λ q k l c d bound at bt same.
          distinct_kept q k l c d i fresh (rw (← same_length) bound) at bt
            (sym (ap₂ (same_bytes 4) (same_name c) (same_name d)) ∙ same);
      older = λ q r bound e. i.older q r (rw (← same_length) bound) (sym (same_parent q) ∙ e);
      four = λ q bound. rw (same_name q) (i.four q (rw (← same_length) bound));
    }

    child_kept : (q k c : ℕ) → HasChild ns q k c → HasChild (with_table ns p table) q k c
    child_kept q k c at =
        slot_kept q k _ at ∙ ap (λ (t : List ℕ). some (hash_string t, c)) (sym (same_name c))

    -- The new child is found.
    pub new-Found :
        IsNs ns → n < length ns.nodes → Found (with_table ns p table) p (name_of ns n) (some n)
    new-Found i below = (
      ins.place,
      slot_new ∙ ap (λ (t : List ℕ). some (hash_string t, n)) (sym (same_name n)),
      rw (same_name n) (same_bytes_refl 4 (name_of ns n) (i.four n below)),
    )

    -- Other answers stay.
    pub kept-Found :
        (q : ℕ) (segment : List ℕ) (r : Option ℕ)
        → (q ≡ p → same_bytes 4 (name_of ns n) segment ≡ false)
        → Found ns q segment r
        → Found (with_table ns p table) q segment r
    kept-Found q segment (some c) other (k, at, same) =
        (k, child_kept q k c at, rw (same_name c) same)
    kept-Found q segment none other f = λ k c at. elim (child_split q k c at) [
      | inl old ↦ rw (same_name c) (f k c old)
      | inr (e, _, ec) ↦ rw (same_name c, ec) (other e)
    ]
