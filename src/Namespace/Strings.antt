-- ===== src/Namespace/Strings.antt =====
-- core/ns.c: paths as strings, each a list of characters up to its terminator and beyond.
use lai.Base.{
  ℕ, zero, suc, ◌+◌, ◌-◌, Bool, true, false, Option, none, some, List, [], ◌∷◌, ◌++◌, length,
  replicate, ◌==◌, if◌then◌else◌, Run, ok, panic, fault, ensure, read, ◌>>=◌, ◌>>◌,
}
use lai.AmlName.{is_name, root_char, parent_char}
use lai.Namespace.{Namespace, get_child}
use lai.Namespace.Resolve.{follow_alias, start_of}

-- At most `k` characters of a name.
unfoldable pub take_name : ℕ → List ℕ → Run (List ℕ × List ℕ)
take_name zero path = ok ([], path)
take_name (suc k) [] = fault
take_name (suc k) (c ∷ path) = elim (is_name c) [
  | true ↦ take_name k path >>= λ r. ok (c ∷ r.0, r.1)
  | false ↦ ok ([], c ∷ path)
]

-- ACPI pads names with trailing underscores.
unfoldable pub pad : List ℕ → List ℕ
pad segment = segment ++ replicate (4 - length segment) b'_'

-- The loop over the segments.
unfoldable pub path_loop : ℕ → Namespace → List ℕ → ℕ → Run (Option ℕ)
unfolding take_name pad
path_loop zero ns path current = panic
path_loop (suc fuel) ns path current = take_name 4 path >>= λ step.
    get_child ns current (pad step.0) >>= λ child. elim child [
      | none ↦ ok none
      | some c ↦ follow_alias ns c >>= λ d. elim step.1 [
        | [] ↦ fault
        | ch ∷ path' ↦ elim (ch == 0) [
          | true ↦ ok (some d)
          | false ↦ ensure (ch == b'.') >> path_loop fuel ns path' d
        ]
      ]
    ]

-- The loop over the `^` characters.
unfoldable pub count_carets : List ℕ → Run (ℕ × List ℕ)
count_carets [] = fault
count_carets (c ∷ path) = elim (c == parent_char) [
  | true ↦ count_carets path >>= λ r. ok (r.0 + 1, r.1)
  | false ↦ ok (0, c ∷ path)
]

-- The leading `\` or `^` characters.
unfoldable pub path_scope : List ℕ → Run (Bool × ℕ × List ℕ)
unfolding count_carets
path_scope [] = fault
path_scope (c ∷ path) =
    if c == root_char
    then ok (true, 0, path)
    else (count_carets (c ∷ path) >>= λ r. ok (false, r.0, r.1))

unfoldable pub resolve_path : Namespace → Option ℕ → List ℕ → Run (Option ℕ)
unfolding path_scope path_loop
resolve_path ns ctx path =
    (elim ctx [ some c ↦ ok c | none ↦ elim ns.root_node [ some r ↦ ok r | none ↦ fault ] ])
    >>= λ current. path_scope path >>= λ scope. start_of ns current scope.0 scope.1 >>= λ base.
        read scope.2 0 >>= λ ch. elim (ch == 0) [
          | true ↦ ok (some base)
          | false ↦ path_loop (length path) ns scope.2 base
        ]
