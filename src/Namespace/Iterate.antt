-- ===== src/Namespace/Iterate.antt =====
-- core/ns.c: the iterators over the namespace and over the children of a node, and the types of
-- nodes that the API shows.
use mathlib.Core.Path.{subst}
use lai.Base.{
  ℕ, zero, suc, ◌+◌, ◌≤◌, ◌<◌, ◌≡◌, refl, sym, ap, ◌∙◌, Option, none, some, List, [], ◌∷◌, length,
  drop, arith, Run, ok, read, ◌>>=◌, ◌==◌, if◌then◌else◌,
}
use lai.Namespace.{Namespace, NodeType}

-- The first entry that is not null from index `i` on, and the index after it.
unfoldable pub next_entry {ℓ} : {A : Type ℓ} → List (Option A) → ℕ → Option A × ℕ
next_entry [] i = (none, i)
next_entry (none ∷ entries) i = next_entry entries (i + 1)
next_entry (some e ∷ entries) i = (some e, i + 1)

-- `lai_ns_iterate`, with `iter->i`.
unfoldable pub ns_iterate : Namespace → ℕ → Option ℕ × ℕ
unfolding next_entry
ns_iterate ns i = next_entry (drop i ns.ns_array) i

-- `lai_ns_child_iterate`.
unfoldable pub ns_child_iterate : Namespace → (parent i : ℕ) → Run (Option ℕ × ℕ)
unfolding next_entry
ns_child_iterate ns parent i = do
  p ← read ns.nodes parent
  ok (next_entry (drop i p.children.elem_ptr_tab) i)

-- `enum lai_node_type`.
pub data ApiType : Type 0 where
  type_null type_root type_evaluatable type_device type_mutex type_processor : ApiType
  type_thermalzone type_event type_powerresource type_opregion : ApiType

unfoldable pub api_type : NodeType → ApiType
api_type NodeType.root = type_root
api_type NodeType.name = type_evaluatable
api_type NodeType.alias = type_evaluatable
api_type NodeType.field = type_evaluatable
api_type NodeType.method = type_evaluatable
api_type NodeType.device = type_device
api_type NodeType.indexfield = type_null
api_type NodeType.mutex = type_mutex
api_type NodeType.processor = type_processor
api_type NodeType.buffer_field = type_evaluatable
api_type NodeType.thermalzone = type_thermalzone
api_type NodeType.event = type_event
api_type NodeType.powerresource = type_powerresource
api_type NodeType.bankfield = type_evaluatable
api_type NodeType.opregion = type_opregion

unfoldable pub get_node_type : Namespace → Option ℕ → Run ApiType
unfolding api_type
get_node_type ns none = ok type_null
get_node_type ns (some node) = do n ← read ns.nodes node; ok (api_type n.type)

-- The new revision of `lai_set_acpi_revision`: ACPI 1 is given as 0.
unfoldable pub acpi_revision : ℕ → ℕ
acpi_revision revision = if revision == 0 then 1 else revision

-- All nodes that a caller of `lai_ns_iterate` sees until it gets null.
unfoldable pub visited : ℕ → Namespace → ℕ → List ℕ
unfolding ns_iterate
visited zero ns i = []
visited (suc fuel) ns i =
    let (entry, next) = ns_iterate ns i in
    elim entry [ none ↦ [] | some node ↦ node ∷ visited fuel ns next ]

-- The entries that are not null.
abbrev pub present {ℓ} : {A : Type ℓ} → List (Option A) → List A
present [] = []
present (none ∷ entries) = present entries
present (some e ∷ entries) = e ∷ present entries

-- What the iterator has found.
abbrev Step {ℓ} : {A : Type ℓ} → List (Option A) → Option A → List (Option A) → Type ℓ
Step entries none rest = present entries ≡ []
Step entries (some e) rest = (length rest < length entries) × (present entries ≡ e ∷ present rest)

Step-skip {ℓ} :
    {A : Type ℓ} (entries : List (Option A)) (found : Option A) (rest : List (Option A))
    → Step entries found rest
    → Step (none ∷ entries) found rest
Step-skip entries none rest step = step
Step-skip entries (some e) rest (lt, step) = (omega (arith, lt), step)

next_entry_lem {ℓ} :
    {A : Type ℓ} (entries : List (Option A)) (i : ℕ)
    → (k : ℕ) × ((next_entry entries i).1 ≡ i + k)
      × (k ≤ length entries)
      × Step entries ((next_entry entries i).0) (drop k entries)
unfolding next_entry
next_entry_lem [] i = (0, omega arith, omega arith, refl)
next_entry_lem (none ∷ entries) i =
    let (k, at, le, step) = next_entry_lem entries (i + 1) in
    (
      suc k,
      omega (arith, at),
      omega arith,
      Step-skip entries (next_entry entries (i + 1)).0 (drop k entries) step,
    )
next_entry_lem (some e ∷ entries) i = (1, omega arith, omega arith, (omega arith, refl))

drop_nil {ℓ} : {A : Type ℓ} (k : ℕ) → drop {A = A} k [] ≡ []
drop_nil zero = refl
drop_nil (suc k) = refl

drop-drop {ℓ} : {A : Type ℓ} (i k : ℕ) (xs : List A) → drop k (drop i xs) ≡ drop (i + k) xs
drop-drop zero k xs = let e : k ≡ 0 + k = omega arith in ap (λ n. drop n xs) e
drop-drop (suc i) k [] = drop_nil k ∙ sym (drop_nil (suc i + k))
drop-drop (suc i) k (x ∷ xs) =
    let e : suc (i + k) ≡ suc i + k = omega arith in drop-drop i k xs ∙ ap (λ n. drop n (x ∷ xs)) e

visit_found :
    (entries : List (Option ℕ)) (found : Option ℕ) (rest : List (Option ℕ)) (seen : List ℕ)
    → Step entries found rest
    → (length rest < length entries → seen ≡ present rest)
    → (elim found [ none ↦ [] | some node ↦ node ∷ seen ]) ≡ present entries
visit_found entries none rest seen step smaller = sym step
visit_found entries (some e) rest seen (lt, step) smaller = ap (λ r. e ∷ r) (smaller lt) ∙ sym step

visited_lem :
    (fuel : ℕ) (ns : Namespace) (i : ℕ)
    → length (drop i ns.ns_array) < fuel
    → visited fuel ns i ≡ present (drop i ns.ns_array)
unfolding visited ns_iterate
visited_lem zero ns i lt = absurd (omega (arith, lt))
visited_lem (suc fuel) ns i lt =
    let (k, at, le, step) = next_entry_lem (drop i ns.ns_array) i in
    let there : drop k (drop i ns.ns_array) ≡ drop (ns_iterate ns i).1 ns.ns_array =
      drop-drop i k ns.ns_array ∙ ap (λ n. drop n ns.ns_array) (sym at) in
    visit_found (drop i ns.ns_array) (ns_iterate ns i).0 (drop (ns_iterate ns i).1 ns.ns_array)
      (visited fuel ns (ns_iterate ns i).1)
      (subst (λ r. Step (drop i ns.ns_array) (ns_iterate ns i).0 r) there step)
      (λ shorter. visited_lem fuel ns (ns_iterate ns i).1 (omega (arith, shorter, lt)))

-- Calls of lai_ns_iterate from index 0 until it returns null (at most one call more than the
-- array has entries) return every entry of the array that is not null, each once and in the order
-- of the array.
pub visited-present : (ns : Namespace) → visited (length ns.ns_array + 1) ns 0 ≡ present ns.ns_array
visited-present ns = visited_lem (length ns.ns_array + 1) ns 0 (omega arith)
