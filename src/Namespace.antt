-- ===== src/Namespace.antt =====
-- core/ns.c: the namespace. A pointer to a node is its index in `nodes`, which grows in the order
-- of allocation; a null pointer is `none`. `room` says whether the host's allocations succeed.
pub mod Resolve
pub mod Remove
pub mod Disown
pub mod Uninstall
pub mod Invariant
pub mod Children
pub mod Adopt
pub mod Install
pub mod Aliases
pub mod Scopes
pub mod Paths
pub mod Create
pub mod Strings
pub mod Along
pub mod Iterate
use lai.Base.{
  ℕ, zero, suc, ◌+◌, ◌*◌, ◌-◌, ◌^◌, Bool, true, false, ◌&&◌, Option, none, some, List, [], ◌∷◌,
  ◌++◌, take, length, set, ltb, ◌==◌, if◌then◌else◌, u32, Run, ok, panic, fault, ensure, read,
  ◌>>=◌, ◌>>◌, ApiError, no_error, unexpected_result,
}
use lai.HashTable
use lai.HashTable.{HashTable}
use lai.HashTable.Search.{search_chain}

-- `node->type`.
pub data NodeType : Type 0 where
  root name alias field method device indexfield mutex processor buffer_field : NodeType
  thermalzone event powerresource bankfield opregion : NodeType

-- The fields of `struct lai_nsnode` that place a node in the namespace.
pub record Node : Type 0 where
  pub name : List ℕ
  pub type : NodeType
  pub parent : Option ℕ
  pub al_target : Option ℕ
  pub children : HashTable ℕ

-- The fields of `struct lai_instance` for the namespace. `ns_size` is the length of `ns_array`.
pub record Namespace : Type 0 where
  pub nodes : List Node
  pub root_node : Option ℕ
  pub ns_array : List (Option ℕ)
  pub ns_capacity : ℕ

-- A `char` of a name, as it is added to an `unsigned int`.
abbrev pub char_value : ℕ → ℕ
char_value c = if ltb c 128 then c else c + 2 ^ 32 - 256

unfoldable pub hash_loop : List ℕ → ℕ → ℕ
hash_loop [] x = x
hash_loop (c ∷ str) x = hash_loop str (u32 (u32 (x * 2 ^ 5 + x) + char_value c))

-- `lai_hash_string(str, 4)`.
unfoldable pub hash_string : List ℕ → ℕ
unfolding hash_loop
hash_string str = hash_loop (take 4 str) 5381

-- `!memcmp(a, b, n)`.
unfoldable pub same_bytes : ℕ → List ℕ → List ℕ → Bool
same_bytes zero a b = true
same_bytes (suc n) (x ∷ a) (y ∷ b) = (x == y) && same_bytes n a b
same_bytes (suc n) (x ∷ a) [] = false
same_bytes (suc n) [] b = false

-- Does the child have this name?
unfoldable pub is_named : List Node → List ℕ → ℕ → Run Bool
is_named nodes segment child = read nodes child >>= λ c. ok (same_bytes 4 c.name segment)

unfoldable pub get_child : Namespace → ℕ → List ℕ → Run (Option ℕ)
unfolding is_named
get_child ns parent segment = do
  p ← read ns.nodes parent
  search_chain p.children (hash_string segment) (is_named ns.nodes segment)
      (p.children.bucket_capacity + 1) 0

-- The new capacity of the array when it is full.
unfoldable pub grow_capacity : ℕ → ℕ
grow_capacity capacity = if 2 * capacity == 0 then 128 else 2 * capacity

-- The array takes the node.
unfoldable pub append_array : Bool → Namespace → ℕ → Run Namespace
append_array room ns node =
    let pushed = record ns { ns_array = ns.ns_array ++ some node ∷ [] } in
    if length ns.ns_array == ns.ns_capacity
    then (ensure room >> ok (record pushed { ns_capacity = grow_capacity ns.ns_capacity }))
    else ok pushed

-- The insertion into the table of the parent.
unfoldable pub adopt : Bool → Namespace → ℕ → Node → ℕ → Run (ApiError × Namespace)
unfolding is_named
adopt room ns node n parent = do
  p ← read ns.nodes parent
  let h = hash_string n.name
  duplicate ←
      search_chain p.children h (is_named ns.nodes n.name) (p.children.bucket_capacity + 1) 0
  elim duplicate [
    | some _ ↦ ok (unexpected_result, ns)
    | none ↦ HashTable.insert room p.children h node >>= λ table.
        ok (no_error, record ns { nodes = set ns.nodes parent (record p { children = table }) })
  ]

unfoldable pub install_nsnode : Bool → Namespace → ℕ → Run (ApiError × Namespace)
unfolding append_array adopt
install_nsnode room ns node = do
  ns' ← append_array room ns node
  n ← read ns'.nodes node
  elim n.parent [ none ↦ ok (no_error, ns') | some parent ↦ adopt room ns' node n parent ]

-- `lai_create_nsnode_or_die`, with the fields that its callers set at once.
unfoldable pub create_nsnode : Bool → Namespace → NodeType → Run (ℕ × Namespace)
create_nsnode room ns type = do
  ensure room
  ok (
    length ns.nodes,
    record ns {
      nodes =
          ns.nodes
          ++ record {
            name = 0 ∷ 0 ∷ 0 ∷ 0 ∷ [];
            type = type;
            parent = none;
            al_target = none;
            children = HashTable.empty;
          }
            ∷ [];
    },
  )
