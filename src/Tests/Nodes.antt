-- ===== src/Tests/Nodes.antt =====
-- Data for the tests: a namespace of a root, a device below it and below that an alias of the
-- device, before and after the two are installed.
use mathlib.Core.Path.{subst}
use mathlib.Core.Option.{some-ne-none, some-injective}
use lai.Base.{
  ℕ, zero, suc, ◌<◌, ◌≡◌, refl, sym, ap, ◌∙◌, true, none, some, List, [], ◌∷◌, length, arith, ok,
  ApiError, no_error,
}
use lai.HashTable
use lai.HashTable.{HashTable}
use lai.HashTable.Invariant.{IsValid, slot, slot-free}
use lai.Namespace.{
  NodeType, Namespace, hash_string, install_nsnode, append_array, adopt, grow_capacity, is_named,
  hash_loop, get_child, same_bytes,
}
use lai.HashTable.Search.{search_chain}
use lai.Namespace.Children.{Found}
use lai.Namespace.Install.{install_nsnode-Installed}
use lai.Namespace.Invariant.{node_at, IsNs}
use lai.Tests.Data.{ok-injective, empty-IsValid}

abbrev pub abcd : List ℕ
abcd = b'A' ∷ b'B' ∷ b'C' ∷ b'D' ∷ []

abbrev pub efgh : List ℕ
efgh = b'E' ∷ b'F' ∷ b'G' ∷ b'H' ∷ []

-- A root, and two nodes below it that are not installed: a device and an alias of it.
abbrev pub bare : Namespace
bare = record {
  nodes =
      record {
        name = 0x5C ∷ b'_' ∷ b'_' ∷ b'_' ∷ [];
        type = NodeType.root;
        parent = none;
        al_target = none;
        children = HashTable.empty;
      }
      ∷ record {
        name = abcd;
        type = NodeType.device;
        parent = some 0;
        al_target = none;
        children = HashTable.empty;
      }
      ∷ record {
        name = efgh;
        type = NodeType.alias;
        parent = some 1;
        al_target = some 1;
        children = HashTable.empty;
      }
      ∷ [];
  root_node = some 0;
  ns_array = [];
  ns_capacity = 0;
}

no_children : (p : ℕ) → (node_at bare p).children ≡ HashTable.empty
no_children zero = refl
no_children (suc zero) = refl
no_children (suc (suc zero)) = refl
no_children (suc (suc (suc p))) = refl

bare-slot : (p k : ℕ) (x : ℕ × ℕ) → slot ((node_at bare p).children) k ≡ some x → ⊥
bare-slot p k x at =
    some-ne-none x (
      sym at
      ∙ ap (λ (t : HashTable ℕ). slot t k) (no_children p)
      ∙ slot-free HashTable.empty k refl)

bare_parent : (n p : ℕ) → (node_at bare n).parent ≡ some p → p < n
bare_parent zero p e = absurd (some-ne-none p (sym e))
bare_parent (suc zero) p e = omega (arith, some-injective _ _ e)
bare_parent (suc (suc zero)) p e = omega (arith, some-injective _ _ e)
bare_parent (suc (suc (suc n))) p e = absurd (some-ne-none p (sym e))

bare_names : (n : ℕ) → length ((node_at bare n).name) ≡ 4
bare_names zero = refl
bare_names (suc zero) = refl
bare_names (suc (suc zero)) = refl
bare_names (suc (suc (suc n))) = refl

pub bare-IsNs : IsNs bare
bare-IsNs = record {
  tables = λ p lt. subst IsValid (sym (no_children p)) empty-IsValid;
  hashed = λ p k h c lt at. absurd (bare-slot p k (h, c) at);
  distinct = λ p k l c d lt at bt same. absurd (bare-slot p k _ at);
  older = λ n p lt e. bare_parent n p e;
  four = λ n lt. bare_names n;
}

abbrev pub table_abcd : HashTable ℕ
table_abcd = record {
  elem_capacity = 2;
  bucket_capacity = 4;
  num_elems = 1;
  elem_ptr_tab = some 1 ∷ none ∷ [];
  elem_hash_tab = 2088883663 ∷ 0 ∷ [];
  bucket_tab = none ∷ none ∷ none ∷ some 0 ∷ [];
}

abbrev pub table_efgh : HashTable ℕ
table_efgh = record {
  elem_capacity = 2;
  bucket_capacity = 4;
  num_elems = 1;
  elem_ptr_tab = some 2 ∷ none ∷ [];
  elem_hash_tab = 2089031903 ∷ 0 ∷ [];
  bucket_tab = none ∷ none ∷ none ∷ some 0 ∷ [];
}

-- The same after the device is installed.
abbrev pub half : Namespace
half = record {
  nodes =
      record {
        name = 0x5C ∷ b'_' ∷ b'_' ∷ b'_' ∷ [];
        type = NodeType.root;
        parent = none;
        al_target = none;
        children = table_abcd;
      }
      ∷ record {
        name = abcd;
        type = NodeType.device;
        parent = some 0;
        al_target = none;
        children = HashTable.empty;
      }
      ∷ record {
        name = efgh;
        type = NodeType.alias;
        parent = some 1;
        al_target = some 1;
        children = HashTable.empty;
      }
      ∷ [];
  root_node = some 0;
  ns_array = some 1 ∷ [];
  ns_capacity = 128;
}

-- The same after both nodes are installed.
abbrev pub full : Namespace
full = record {
  nodes =
      record {
        name = 0x5C ∷ b'_' ∷ b'_' ∷ b'_' ∷ [];
        type = NodeType.root;
        parent = none;
        al_target = none;
        children = table_abcd;
      }
      ∷ record {
        name = abcd;
        type = NodeType.device;
        parent = some 0;
        al_target = none;
        children = table_efgh;
      }
      ∷ record {
        name = efgh;
        type = NodeType.alias;
        parent = some 1;
        al_target = some 1;
        children = HashTable.empty;
      }
      ∷ [];
  root_node = some 0;
  ns_array = some 1 ∷ some 2 ∷ [];
  ns_capacity = 128;
}

half_run : install_nsnode true bare 1 ≡ ok (no_error, half)
unfolding install_nsnode append_array adopt grow_capacity is_named hash_string hash_loop get_child
    same_bytes search_chain HashTable.insert HashTable.make_room HashTable.store HashTable.grow
    HashTable.rehash HashTable.free_slot HashTable.probe HashTable.bucket_of HashTable.advance
    HashTable.advance_loop HashTable.matches
half_run = refl

full_run : install_nsnode true half 2 ≡ ok (no_error, full)
unfolding install_nsnode append_array adopt grow_capacity is_named hash_string hash_loop get_child
    same_bytes search_chain HashTable.insert HashTable.make_room HashTable.store HashTable.grow
    HashTable.rehash HashTable.free_slot HashTable.probe HashTable.bucket_of HashTable.advance
    HashTable.advance_loop HashTable.matches
full_run = refl

pub half-IsNs : IsNs half
half-IsNs =
    let (out, run, ins) =
      install_nsnode-Installed bare 1 0 bare-IsNs (omega arith) refl (omega arith)
        (λ k c at. absurd (bare-slot 0 k _ at)) in
    subst IsNs (ap (λ (t : ApiError × Namespace). t.1) (ok-injective _ _ (sym run ∙ half_run)))
      ins.valid

-- The device has no child yet.
pub half_fresh : Found half 1 efgh none
half_fresh = λ k c at. absurd (some-ne-none _ (sym at ∙ slot-free HashTable.empty k refl))

pub full-IsNs : IsNs full
full-IsNs =
    let (out, run, ins) =
      install_nsnode-Installed half 2 1 half-IsNs (omega arith) refl (omega arith) half_fresh in
    subst IsNs (ap (λ (t : ApiError × Namespace). t.1) (ok-injective _ _ (sym run ∙ full_run)))
      ins.valid
