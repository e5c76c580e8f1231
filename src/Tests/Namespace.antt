-- ===== src/Tests/Namespace.antt =====
-- Tests of core/ns.c.
use mathlib.Core.Bool.{false≢true}
use mathlib.Core.Option.{some-ne-none}
use lai.Base.{
  ℕ, zero, suc, ◌≡◌, ◌≢◌, ap, refl, true, false, Option, some, [], ◌∷◌, ◌++◌, arith, ok, no_error,
  length, ◌+◌, unexpected_result,
}
use lai.AmlName.{is_name, root_char}
use lai.AmlName.Path.{IsSeg, NamePath, IsNamePath}
use lai.AmlName.Parse.{parsed}
use lai.AmlName.Print.{dotted}
use lai.HashTable.Invariant.{slot}
use lai.Namespace.{
  NodeType, Namespace, get_child, install_nsnode, hash_string, hash_loop, same_bytes,
}
use lai.Namespace.Invariant.{HasChild}
use lai.Namespace.Children.{Found, get_child-Found}
use lai.Namespace.Install.{Installed, install_nsnode-Installed, install_nsnode_duplicate}
use lai.Namespace.Remove.{uninstall_nsnode}
use lai.Namespace.Uninstall.{Uninstalled, uninstall_nsnode-Uninstalled}
use lai.Namespace.Resolve.{resolve_search, do_resolve, is_root, is_alias}
use lai.Namespace.Scopes.{Visible, resolve_search-Visible}
use lai.Namespace.Paths.{Start, Below, RootOf, OneRoot, do_resolve-Below, do_resolve-Visible}
use lai.Namespace.Strings.{resolve_path}
use lai.Namespace.Aliases.{Answered, Aliased}
use lai.Namespace.Along.{Along, AllFull, resolve_path-Along}
use lai.Namespace.Iterate.{visited, present, visited-present}
use lai.Tests.Nodes.{abcd, efgh, half, full, half-IsNs, half_fresh, full-IsNs}

install_nsnode_example :
    (out : Namespace) × (install_nsnode true half 2 ≡ ok (no_error, out)) × Installed half 2 1 out
install_nsnode_example =
    install_nsnode-Installed half 2 1 half-IsNs (omega arith) refl (omega arith) half_fresh

-- The root has the device as its child.
device_child : HasChild full 0 0 1
unfolding slot hash_string hash_loop
device_child = refl

method_child : HasChild full 1 0 2
unfolding slot hash_string hash_loop
method_child = refl

device-Found : Found full 0 abcd (some 1)
unfolding same_bytes
device-Found = (0, device_child, refl)

duplicate_example :
    (out : Namespace) × (install_nsnode true full 1 ≡ ok (unexpected_result, out))
    × (out.nodes ≡ full.nodes)
    × (out.ns_array ≡ full.ns_array ++ some 1 ∷ [])
duplicate_example = install_nsnode_duplicate full 1 0 full-IsNs (omega arith) refl 1 device-Found

uninstall_example :
    (out : Namespace) × (uninstall_nsnode full 2 ≡ ok out) × Uninstalled full 2 1 out
uninstall_example =
    uninstall_nsnode-Uninstalled full 2 1 0 full-IsNs (omega arith) refl method_child

get_child_example : (r : Option ℕ) × (get_child full 1 efgh ≡ ok r) × Found full 1 efgh r
get_child_example = get_child-Found full 1 efgh full-IsNs (omega arith)

not_device : NodeType.device ≢ NodeType.alias
unfolding is_alias
not_device e = false≢true (ap is_alias e)

not_root : NodeType.root ≢ NodeType.alias
unfolding is_alias
not_root e = false≢true (ap is_alias e)

-- The node below the device is an alias of the device.
aliases : Aliased full
aliases zero lt e = absurd (not_root e)
aliases (suc zero) lt e = absurd (not_device e)
aliases (suc (suc zero)) lt e = (1, refl, omega arith, not_device)
aliases (suc (suc (suc n))) lt e = absurd (omega arith)

resolve_search_example :
    (r : Option ℕ) × (out : Option ℕ) × Visible full efgh 1 r
    × ((s : Option ℕ) → Visible full efgh 1 s → s ≡ r)
    × Answered full r out
    × (resolve_search full 1 efgh ≡ ok out)
resolve_search_example =
    resolve_search-Visible full efgh 1 full-IsNs aliases (omega arith) not_device

one_root : OneRoot full
unfolding is_root
one_root zero lt e = refl
one_root (suc zero) lt e = absurd (some-ne-none _ e)
one_root (suc (suc zero)) lt e = absurd (some-ne-none _ e)
one_root (suc (suc (suc n))) lt e = refl

abcd-IsSeg : IsSeg abcd
unfolding is_name
abcd-IsSeg = (refl, refl, ground arith, ground arith, ground arith, ground arith, ground arith)

efgh-IsSeg : IsSeg efgh
unfolding is_name
efgh-IsSeg = (refl, refl, ground arith, ground arith, ground arith, ground arith, ground arith)

-- `\ABCD.EFGH`.
abbrev full_path : NamePath
full_path = record { rooted = true; carets = 0; segs = abcd ∷ efgh ∷ [] }

full_path_ok : IsNamePath full_path
full_path_ok = record {
  scope = λ _. refl;
  segments = (abcd-IsSeg, (efgh-IsSeg, tt));
  few = omega arith;
}

do_resolve_example :
    (base : ℕ) × (r : Option ℕ) × (out : Option ℕ) × Start full 1 true 0 base
    × Below full (abcd ∷ efgh ∷ []) base r
    × Answered full r out
    × (do_resolve full 1 (parsed full_path []) ≡ ok out)
do_resolve_example =
    do_resolve-Below full 1 full_path [] full-IsNs one_root aliases (omega arith) not_device
      full_path_ok (omega arith) refl

do_resolve_single_example :
    (r : Option ℕ) × (out : Option ℕ) × Visible full efgh 1 r
    × Answered full r out
    × (do_resolve full 1 (parsed (record { rooted = false; carets = 0; segs = efgh ∷ [] }) [])
        ≡ ok out)
do_resolve_single_example =
    do_resolve-Visible full 1 efgh [] full-IsNs aliases (omega arith) not_device efgh-IsSeg

full_names : AllFull (abcd ∷ efgh ∷ [])
unfolding is_name
full_names =
    ((refl, (refl, (refl, (refl, (refl, tt))))), ((refl, (refl, (refl, (refl, (refl, tt))))), tt))

resolve_path_example :
    (base : ℕ) × (r : Option ℕ) × RootOf full 1 base
    × Along full (abcd ∷ efgh ∷ []) base r
    × (resolve_path full (some 1) (root_char ∷ dotted (abcd ∷ efgh ∷ []) ++ 0 ∷ []) ≡ ok r)
resolve_path_example =
    resolve_path-Along full full-IsNs aliases [] 1 abcd (efgh ∷ []) one_root full_names
      (omega arith)

visited_example : visited (length full.ns_array + 1) full 0 ≡ present full.ns_array
visited_example = visited-present full
