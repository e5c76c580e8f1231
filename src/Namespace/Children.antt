-- ===== src/Namespace/Children.antt =====
-- core/ns.c: what `lai_ns_get_child` answers.
use mathlib.Core.Bool.{false≢true}
use mathlib.Core.Option.{some-injective}
use lai.Base.{
  ℕ, ◌+◌, ◌<◌, ◌≡◌, refl, sym, ap, ◌∙◌, Bool, true, false, Option, none, some, List, length, Run,
  ok, ◌>>=◌, Bool-cases, inl, inr, ◌⊎◌,
}
use lai.HashTable.Invariant.{slot}
use lai.HashTable.Search.{search_chain, search_chain_lem, Outcome}
use lai.Namespace.{Namespace, same_bytes, is_named, hash_string, get_child}
use lai.Namespace.Invariant.{
  node_at, name_of, HasChild, IsNs, same_bytes-hash, same_bytes_join, node_at-read,
}

-- The answer of a search for a name among the children of `p`: a child of that name, or the news
-- that there is none.
abbrev pub Found : Namespace → ℕ → List ℕ → Option ℕ → Type 0
Found ns p segment (some c) =
    (k : ℕ) × HasChild ns p k c × (same_bytes 4 (name_of ns c) segment ≡ true)
Found ns p segment none =
    (k c : ℕ) → HasChild ns p k c → same_bytes 4 (name_of ns c) segment ≡ false

module _ (ns : Namespace) (p : ℕ) (segment : List ℕ) where
  abbrev named : ℕ → Bool
  named c = same_bytes 4 (name_of ns c) segment

  named-run : (c : ℕ) → c < length ns.nodes → is_named ns.nodes segment c ≡ ok (named c)
  unfolding is_named
  named-run c lt = rw (is_named, node_at-read ns c lt) refl

  tests :
      IsNs ns
      → p < length ns.nodes
      → (k c : ℕ) → slot ((node_at ns p).children) k ≡ some (hash_string segment, c)
      → is_named ns.nodes segment c ≡ ok (named c)
  tests i lt k c at = named-run c ((i.hashed p k (hash_string segment) c lt at).0)

  -- An outcome of the search of the chain is an answer for the names.
  Outcome-Found :
      (r : Option ℕ) (i : IsNs ns) (lt : p < length ns.nodes)
      → Outcome
          ((node_at ns p).children)
          (hash_string segment)
          (is_named ns.nodes segment)
          named
          (tests i lt)
          r
      → Found ns p segment r
  Outcome-Found (some c) i lt (k, at, same) =
      (k, at ∙ ap (λ (h : ℕ). some (h, c)) ((i.hashed p k (hash_string segment) c lt at).1), same)
  Outcome-Found none i lt o = λ k c at. elim (Bool-cases (named c)) [
    | inr no_ ↦ no_
    | inl yes_ ↦
        let h = same_bytes-hash (name_of ns c) segment yes_ in
        o k c (at ∙ ap (λ (t : ℕ). some (t, c)) h)
  ]

  -- The search of the children that `lai_ns_get_child` and `lai_install_nsnode` share.
  pub search_children :
      IsNs ns
      → p < length ns.nodes
      → (r : Option ℕ) × (search_chain
            ((node_at ns p).children)
            (hash_string segment)
            (is_named ns.nodes segment)
            ((node_at ns p).children.bucket_capacity + 1)
            0
          ≡ ok r)
        × Found ns p segment r
  search_children i lt =
      let (r, run, out) =
        search_chain_lem ((node_at ns p).children) (hash_string segment) (is_named ns.nodes segment)
          named (tests i lt) (i.tables p lt) in
      (r, run, Outcome-Found r i lt out)

  -- In a well-formed namespace lai_ns_get_child ends in no panic, with a child of the parent
  -- whose four-character name is the one asked for, or with null when no child has it.
  pub get_child-Found :
      IsNs ns
      → p < length ns.nodes
      → (r : Option ℕ) × (get_child ns p segment ≡ ok r) × Found ns p segment r
  unfolding get_child
  get_child-Found i lt =
      let (r, run, out) = search_children i lt in
      (r, rw (get_child, node_at-read ns p lt, ◌>>=◌) run, out)

-- A well-formed namespace has one answer for a name.
pub Found-unique :
    (ns : Namespace) (p : ℕ) (segment : List ℕ) (r s : Option ℕ)
    → IsNs ns
    → p < length ns.nodes
    → Found ns p segment r
    → Found ns p segment s
    → r ≡ s
Found-unique ns p segment none none i lt f g = refl
Found-unique ns p segment none (some d) i lt f (l, at, same) =
    absurd (false≢true (sym (f l d at) ∙ same))
Found-unique ns p segment (some c) none i lt (k, at, same) g =
    absurd (false≢true (sym (g k c at) ∙ same))
Found-unique ns p segment (some c) (some d) i lt (k, at, same) (l, bt, equal) =
    let kl = i.distinct p k l c d lt at bt (same_bytes_join 4 _ _ _ same equal) in
    let pair = some-injective _ _ (sym at ∙ ap (slot ((node_at ns p).children)) kl ∙ bt) in
    ap (λ (t : ℕ × ℕ). some t.1) pair

-- The two answers apart.
answer_cases :
    (ns : Namespace) (p : ℕ) (segment : List ℕ) (m : Run (Option ℕ)) (r : Option ℕ)
    → m ≡ ok r
    → Found ns p segment r
    → ((m ≡ ok none) × Found ns p segment none)
      ⊎ ((c : ℕ) × (m ≡ ok (some c)) × Found ns p segment (some c))
answer_cases ns p segment m none run found = inl (run, found)
answer_cases ns p segment m (some c) run found = inr (c, run, found)

pub get_child-cases :
    (ns : Namespace) (p : ℕ) (segment : List ℕ)
    → IsNs ns
    → p < length ns.nodes
    → ((get_child ns p segment ≡ ok none) × Found ns p segment none)
      ⊎ ((c : ℕ) × (get_child ns p segment ≡ ok (some c)) × Found ns p segment (some c))
get_child-cases ns p segment i lt =
    let (r, run, found) = get_child-Found ns p segment i lt in
    answer_cases ns p segment (get_child ns p segment) r run found
