-- ===== src/Namespace/Resolve.antt =====
-- core/ns.c: the resolution of names, of AML code and of strings.
use lai.Base.{
  ℕ, zero, suc, ◌/◌, Bool, true, false, not, Option, none, some, List, if◌then◌else◌, Run, ok,
  panic, fault, ensure, read, ◌>>=◌, ◌>>◌,
}
use lai.AmlName.{AmlName, amlname_iterate, amlname_done}
use lai.Namespace.{Namespace, NodeType, get_child}

unfoldable pub is_alias : NodeType → Bool
is_alias NodeType.alias = true
is_alias _ = false

unfoldable pub is_root : NodeType → Bool
is_root NodeType.root = true
is_root _ = false

-- `LAI_ENSURE(node->type != LAI_NAMESPACE_ALIAS)`.
unfoldable pub not_alias : Namespace → ℕ → Run ℕ
unfolding is_alias
not_alias ns node = do n ← read ns.nodes node; ensure (not (is_alias n.type)); ok node

-- `node->al_target` for an alias, which must not be one itself.
unfoldable pub follow_alias : Namespace → ℕ → Run ℕ
unfolding is_alias not_alias
follow_alias ns node = read ns.nodes node >>= λ n. elim (is_alias n.type) [
  | false ↦ ok node
  | true ↦ elim n.al_target [ none ↦ fault | some target ↦ not_alias ns target ]
]

-- What is returned for the node that was found, if any.
unfoldable pub answer : Namespace → Option ℕ → Run (Option ℕ)
unfolding follow_alias
answer ns none = ok none
answer ns (some c) = follow_alias ns c >>= λ r. ok (some r)

-- The search through the scopes: the loop over `current`.
unfoldable pub scope_search : ℕ → Namespace → ℕ → List ℕ → Run (Option ℕ)
unfolding answer
scope_search zero ns current segment = panic
scope_search (suc fuel) ns current segment = get_child ns current segment >>= λ node. elim node [
  | some found ↦ answer ns (some found)
  | none ↦ read ns.nodes current >>= λ c. elim c.parent [
    | none ↦ ok none
    | some parent ↦ scope_search fuel ns parent segment
  ]
]

-- `while (current->parent) current = current->parent;`
unfoldable pub climb : ℕ → Namespace → ℕ → Run ℕ
climb zero ns current = panic
climb (suc fuel) ns current = read ns.nodes current >>= λ c. elim c.parent [
  | none ↦ ok current
  | some parent ↦ climb fuel ns parent
]

-- `LAI_ENSURE(current->type == LAI_NAMESPACE_ROOT)`.
unfoldable pub ensure_root : Namespace → ℕ → Run ℕ
unfolding is_root
ensure_root ns current = do c ← read ns.nodes current; ensure (is_root c.type); ok current

-- The loop over the `^` characters, which stops at the root.
unfoldable pub ascend : ℕ → Namespace → ℕ → Run ℕ
unfolding ensure_root
ascend zero ns current = ok current
ascend (suc height) ns current = read ns.nodes current >>= λ c. elim c.parent [
  | none ↦ ensure_root ns current
  | some parent ↦ ascend height ns parent
]

-- The node from which the segments of a name are looked up.
unfoldable pub start_of : Namespace → ℕ → Bool → ℕ → Run ℕ
unfolding climb ascend ensure_root
start_of ns current is_absolute height = do
  base ← (if is_absolute then (climb (suc current) ns current >>= ensure_root ns) else ok current)
  ascend height ns base

-- The loop over the segments of a name that is not searched for.
unfoldable pub walk : ℕ → Namespace → AmlName → ℕ → Run (Option ℕ)
walk zero ns amln current = ok (some current)
walk (suc fuel) ns amln current = do
  (segment, amln') ← amlname_iterate amln
  next ← get_child ns current segment
  elim next [ none ↦ ok none | some child ↦ walk fuel ns amln' child ]

-- The search that a single segment asks for.
unfoldable pub resolve_single : Namespace → ℕ → AmlName → Run (Option ℕ)
unfolding scope_search
resolve_single ns ctx amln = do
  (segment, amln') ← amlname_iterate amln
  ensure (amlname_done amln')
  scope_search (suc ctx) ns ctx segment

-- The name from the root or from the parents.
unfoldable pub resolve_scoped : Namespace → ℕ → AmlName → Run (Option ℕ)
unfolding start_of walk answer
resolve_scoped ns ctx amln = start_of ns ctx amln.is_absolute amln.height >>= λ current.
    if amlname_done amln
    then ok (some current)
    else (walk (amln.left / 4) ns amln current >>= answer ns)

unfoldable pub do_resolve : Namespace → ℕ → AmlName → Run (Option ℕ)
unfolding not_alias resolve_single resolve_scoped
do_resolve ns ctx amln = not_alias ns ctx >>= λ current.
    if amln.search_scopes then resolve_single ns current amln else resolve_scoped ns current amln

-- `lai_resolve_search`.
unfoldable pub resolve_search : Namespace → ℕ → List ℕ → Run (Option ℕ)
unfolding not_alias scope_search
resolve_search ns ctx segment =
    not_alias ns ctx >>= λ current. scope_search (suc current) ns current segment
