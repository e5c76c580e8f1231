-- ===== src/Namespace/Remove.antt =====
-- core/ns.c: `lai_uninstall_nsnode`.
use lai.Base.{
  ℕ, zero, suc, ◌+◌, true, false, Option, none, some, set, map, ◌==◌, if◌then◌else◌, Run, ok, panic,
  read, ◌>>=◌, ◌>>◌,
}
use lai.HashTable.{HashTable, advance, chain_get, chain_remove}
use lai.Namespace.{Namespace, hash_string}

-- The first loop: the chain is walked up to the node, which is removed.
unfoldable pub remove_loop : HashTable ℕ → (h node fuel seen : ℕ) → Run (HashTable ℕ × ℕ)
remove_loop ht h node zero seen = panic
remove_loop ht h node (suc fuel) seen = advance ht h seen >>= λ step. elim step.0 [
  | true ↦ panic
  | false ↦ chain_get ht h step.1 >>= λ child. elim (child == node) [
    | false ↦ remove_loop ht h node fuel step.1
    | true ↦ chain_remove ht h step.1 >>= λ out. ok (out, step.1)
  ]
]

-- The second loop: the node occurs no more.
unfoldable pub check_gone : HashTable ℕ → (h node fuel seen : ℕ) → Run (Unit {0})
check_gone ht h node zero seen = panic
check_gone ht h node (suc fuel) seen = advance ht h seen >>= λ step. elim step.0 [
  | true ↦ ok tt
  | false ↦ chain_get ht h step.1 >>= λ child. elim (child == node) [
    | true ↦ panic
    | false ↦ check_gone ht h node fuel step.1
  ]
]

-- Both loops, on the table of the parent.
unfoldable pub disown : HashTable ℕ → (h node : ℕ) → Run (HashTable ℕ)
unfolding remove_loop check_gone
disown ht h node = do
  (out, seen) ← remove_loop ht h node (ht.bucket_capacity + 1) 0
  check_gone out h node (out.bucket_capacity + 1) seen
  ok out

-- The entries of `ns_array` for the node become null.
unfoldable pub forget : ℕ → Option ℕ → Option ℕ
forget node none = none
forget node (some n) = if n == node then none else some n

unfoldable pub uninstall_nsnode : Namespace → ℕ → Run Namespace
unfolding forget disown
uninstall_nsnode ns node =
    let cleared = record ns { ns_array = map (forget node) ns.ns_array } in
    read ns.nodes node >>= λ n. elim n.parent [
      | none ↦ ok cleared
      | some parent ↦ (do
        p ← read ns.nodes parent
        table ← disown p.children (hash_string n.name) node
        ok (record cleared { nodes = set ns.nodes parent (record p { children = table }) }))
    ]
