-- ===== src/Namespace/Create.antt =====
-- core/ns.c: the names of new nodes, and the root of the namespace.
use lai.Base.{
  ℕ, zero, suc, ◌/◌, Bool, true, false, not, none, some, List, [], ◌∷◌, set, Run, ok, panic, ensure,
  read, ◌>>=◌, ◌>>◌,
}
use lai.AmlName.{AmlName, amlname_parse, amlname_iterate, amlname_done}
use lai.Namespace.{Namespace, NodeType, get_child, create_nsnode, install_nsnode}
use lai.Namespace.Resolve.{not_alias, follow_alias, start_of}

-- The loop over the segments: the name of the new node and its parent.
unfoldable pub new_place : ℕ → Namespace → AmlName → ℕ → Run (List ℕ × ℕ)
new_place zero ns amln parent = panic
new_place (suc fuel) ns amln parent = amlname_iterate amln >>= λ step. elim (amlname_done step.1) [
  | true ↦ ok (step.0, parent)
  | false ↦ get_child ns parent step.0 >>= λ child. elim child [
    | none ↦ panic
    | some c ↦ follow_alias ns c >>= λ d. new_place fuel ns step.1 d
  ]
]

-- `lai_namecpy(node->name, segment); node->parent = parent;`
unfoldable pub place_node : Namespace → ℕ → List ℕ → ℕ → Run Namespace
place_node ns node segment parent = do
  n ← read ns.nodes node
  ok (record ns { nodes = set ns.nodes node (record n { name = segment; parent = some parent }) })

unfoldable pub do_resolve_new_node : Namespace → ℕ → ℕ → AmlName → Run Namespace
unfolding new_place place_node
do_resolve_new_node ns node ctx amln = do
  current ← not_alias ns ctx
  base ← start_of ns current amln.is_absolute amln.height
  ensure (not (amlname_done amln))
  (segment, parent) ← new_place (amln.left / 4) ns amln base
  place_node ns node segment parent

-- The size of the name, and the namespace with the node placed.
unfoldable pub resolve_new_node : Namespace → ℕ → ℕ → List ℕ → Run (ℕ × Namespace)
unfolding do_resolve_new_node
resolve_new_node ns node ctx data_ = do
  (amln, size) ← amlname_parse data_
  out ← do_resolve_new_node ns node ctx amln
  ok (size, out)

-- A predefined object below the root: created, named and installed.
unfoldable pub predefine : Bool → ℕ → Namespace → NodeType × List ℕ → Run Namespace
unfolding place_node
predefine room root_ ns (type, segment) = do
  (node, ns1) ← create_nsnode room ns type
  ns2 ← place_node ns1 node segment root_
  (_, ns3) ← install_nsnode room ns2 node
  ok ns3

unfoldable pub predefine_all : Bool → ℕ → Namespace → List (NodeType × List ℕ) → Run Namespace
unfolding predefine
predefine_all room root_ ns [] = ok ns
predefine_all room root_ ns (o ∷ os) =
    predefine room root_ ns o >>= λ ns'. predefine_all room root_ ns' os

-- The objects of ACPI, those of ACPI 1.0 and those of the operating system.
abbrev pub predefined : List (NodeType × List ℕ)
predefined =
    (NodeType.device, b'_' ∷ b'S' ∷ b'B' ∷ b'_' ∷ [])
    ∷ (NodeType.device, b'_' ∷ b'S' ∷ b'I' ∷ b'_' ∷ [])
    ∷ (NodeType.device, b'_' ∷ b'G' ∷ b'P' ∷ b'E' ∷ [])
    ∷ (NodeType.device, b'_' ∷ b'P' ∷ b'R' ∷ b'_' ∷ [])
    ∷ (NodeType.device, b'_' ∷ b'T' ∷ b'Z' ∷ b'_' ∷ [])
    ∷ (NodeType.method, b'_' ∷ b'O' ∷ b'S' ∷ b'I' ∷ [])
    ∷ (NodeType.method, b'_' ∷ b'O' ∷ b'S' ∷ b'_' ∷ [])
    ∷ (NodeType.method, b'_' ∷ b'R' ∷ b'E' ∷ b'V' ∷ [])
    ∷ []

unfoldable pub create_root : Bool → Namespace → Run Namespace
unfolding predefine_all
create_root room ns = do
  (root_, ns1) ← create_nsnode room ns NodeType.root
  n ← read ns1.nodes root_
  predefine_all room root_
      (record ns1 {
        nodes = set ns1.nodes root_ (record n { name = 0x5C ∷ b'_' ∷ b'_' ∷ b'_' ∷ [] });
        root_node = some root_;
      })
      predefined
