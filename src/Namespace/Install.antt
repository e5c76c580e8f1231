-- ===== src/Namespace/Install.antt =====
-- core/ns.c: what `lai_install_nsnode` does to a well-formed namespace.
use lai.Base.{
  ℕ, ◌*◌, ◌^◌, ◌<◌, ◌≡◌, refl, sym, ap, ◌∙◌, true, false, Option, none, some, List, [], ◌∷◌, ◌++◌,
  length, ok, ◌>>=◌, Bool-cases, inl, inr, arith, ◌==◌, no_error, unexpected_result,
}
use lai.HashTable.Insert.{insert-Inserted}
use lai.Namespace.{
  Namespace, same_bytes, hash_string, get_child, append_array, grow_capacity, adopt, install_nsnode,
}
use lai.Namespace.Invariant.{node_at, name_of, IsNs, node_at-read}
use lai.Namespace.Adopt.{with_table, same_length, inserted-IsNs, new-Found, kept-Found}
use lai.Namespace.Children.{Found, search_children, get_child-Found, Found-unique}

-- What an installation has done: the node is last in the array, the parent has it as its child of
-- that name, and every other name means what it meant.
pub record Installed (ns : Namespace) (n p : ℕ) (out : Namespace) : Type 0 where
  pub valid : IsNs out
  pub array : out.ns_array ≡ ns.ns_array ++ some n ∷ []
  pub found : get_child out p (name_of ns n) ≡ ok (some n)
  pub kept :
      (q : ℕ) (segment : List ℕ)
      → q < length ns.nodes
      → (q ≡ p → same_bytes 4 (name_of ns n) segment ≡ false)
      → get_child out q segment ≡ get_child ns q segment

-- A known answer is what the search returns.
pub get_child-eq :
    (ns : Namespace) (q : ℕ) (segment : List ℕ) (r : Option ℕ)
    → IsNs ns
    → q < length ns.nodes
    → Found ns q segment r
    → get_child ns q segment ≡ ok r
get_child-eq ns q segment r i lt f =
    let (s, run, g) = get_child-Found ns q segment i lt in
    run ∙ ap (λ (t : Option ℕ). ok t) (Found-unique ns q segment s r i lt g f)

-- The namespace whose array has taken the node.
pub pushed-IsNs :
    (ns : Namespace) (array : List (Option ℕ)) (capacity : ℕ)
    → IsNs ns
    → IsNs (record ns { ns_array = array; ns_capacity = capacity })
pushed-IsNs ns array capacity i = record {
  tables = i.tables;
  hashed = i.hashed;
  distinct = i.distinct;
  older = i.older;
  four = i.four;
}

append_array_lem :
    (ns : Namespace) (n : ℕ)
    → (capacity : ℕ) × (append_array true ns n
        ≡ ok (record ns { ns_array = ns.ns_array ++ some n ∷ []; ns_capacity = capacity }))
unfolding append_array
append_array_lem ns n = elim (Bool-cases (length ns.ns_array == ns.ns_capacity)) [
  | inl full ↦ (grow_capacity ns.ns_capacity, rw (append_array, full) refl)
  | inr space ↦ (ns.ns_capacity, rw (append_array, space) refl)
]

module _ (ns : Namespace) (n p : ℕ) (i : IsNs ns) (lt : n < length ns.nodes)
    (up : (node_at ns n).parent ≡ some p) where
  -- Take a node of a well-formed namespace that has a parent, and suppose that no child of the
  -- parent has the node's name, that the parent's bucket table can double within an int, and that
  -- allocations succeed. Then lai_install_nsnode returns LAI_ERROR_NONE and leaves a well-formed
  -- namespace in which the node is last in the array, a lookup of the name in the parent finds
  -- the node, and every lookup in any node of any other name (or in any other node) answers what
  -- it answered before.
  pub install_nsnode-Installed :
      2 * (node_at ns p).children.bucket_capacity < 2 ^ 31
      → Found ns p (name_of ns n) none
      → (out : Namespace) × (install_nsnode true ns n ≡ ok (no_error, out)) × Installed ns n p out
  unfolding install_nsnode adopt
  install_nsnode-Installed bound fresh =
      let (capacity, pushed) = append_array_lem ns n in
      let base = record ns { ns_array = ns.ns_array ++ some n ∷ []; ns_capacity = capacity } in
      let j = pushed-IsNs ns (ns.ns_array ++ some n ∷ []) capacity i in
      let below : p < length ns.nodes = omega (arith, i.older n p lt up) in
      let (table, run, ins) =
        insert-Inserted ((node_at ns p).children) (hash_string (name_of ns n)) n (i.tables p below)
          bound in
      let (r, search, answer) = search_children base p (name_of ns n) j below in
      let nothing = Found-unique base p (name_of ns n) r none j below answer fresh in
      let after = inserted-IsNs base p table below n ins j lt fresh in
      (
        with_table base p table,
        rw
            (
              install_nsnode,
              pushed,
              ◌>>=◌,
              node_at-read ns n lt,
              ◌>>=◌,
              up,
              adopt,
              node_at-read ns p below,
              ◌>>=◌,
              search ∙ ap (λ (t : Option ℕ). ok t) nothing,
              ◌>>=◌,
              run,
            )
            refl,
        record {
          valid = after;
          array = refl;
          found =
              get_child-eq (with_table base p table) p (name_of ns n) (some n) after
                (rw (same_length base p table below) below)
                (new-Found base p table below n ins j lt);
          kept = λ q segment inside other.
              let (s, old, f) = get_child-Found ns q segment i inside in
              get_child-eq (with_table base p table) q segment s after
                (rw (same_length base p table below) inside)
                (kept-Found base p table below n ins q segment s other f)
              ∙ sym old;
        },
      )

  -- For a node of a well-formed namespace whose parent has a child of the node's name,
  -- lai_install_nsnode (while allocations succeed) returns LAI_ERROR_UNEXPECTED_RESULT and
  -- changes no node and no table; the node has been appended to the array all the same.
  pub install_nsnode_duplicate :
      (c : ℕ)
      → Found ns p (name_of ns n) (some c)
      → (out : Namespace) × (install_nsnode true ns n ≡ ok (unexpected_result, out))
        × (out.nodes ≡ ns.nodes)
        × (out.ns_array ≡ ns.ns_array ++ some n ∷ [])
  unfolding install_nsnode adopt
  install_nsnode_duplicate c twice =
      let (capacity, pushed) = append_array_lem ns n in
      let base = record ns { ns_array = ns.ns_array ++ some n ∷ []; ns_capacity = capacity } in
      let j = pushed-IsNs ns (ns.ns_array ++ some n ∷ []) capacity i in
      let below : p < length ns.nodes = omega (arith, i.older n p lt up) in
      let (r, search, answer) = search_children base p (name_of ns n) j below in
      let same = Found-unique base p (name_of ns n) r (some c) j below answer twice in
      (
        base,
        rw
            (
              install_nsnode,
              pushed,
              ◌>>=◌,
              node_at-read ns n lt,
              ◌>>=◌,
              up,
              adopt,
              node_at-read ns p below,
              ◌>>=◌,
              search ∙ ap (λ (t : Option ℕ). ok t) same,
              ◌>>=◌,
            )
            refl,
        refl,
        refl,
      )
