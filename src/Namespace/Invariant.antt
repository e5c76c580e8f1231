-- ===== src/Namespace/Invariant.antt =====
-- core/ns.c: when a namespace is well formed.
use mathlib.Core.Bool.{false≢true}
use lai.Base.{
  ℕ, zero, suc, ◌<◌, ◌≡◌, refl, sym, ap₂, ◌∙◌, true, ◌&&◌, none, some, List, [], ◌∷◌, length, take,
  get_or, arith, ok, read, read-eq-ok, ◌==◌, ==_self, ==_iff, Bool-cases, inl, inr,
}
use lai.HashTable
use lai.HashTable.{HashTable}
use lai.HashTable.Invariant.{IsValid, slot}
use lai.Namespace.{Node, NodeType, Namespace, same_bytes, hash_string}

-- What is read where there is no node.
abbrev pub blank : Node
blank = record {
  name = 0 ∷ 0 ∷ 0 ∷ 0 ∷ [];
  type = NodeType.root;
  parent = none;
  al_target = none;
  children = HashTable.empty;
}

abbrev pub node_at : Namespace → ℕ → Node
node_at ns n = get_or ns.nodes n blank

abbrev pub name_of : Namespace → ℕ → List ℕ
name_of ns n = (node_at ns n).name

-- Slot `k` of the table of `p` holds the child `c`.
abbrev pub HasChild : Namespace → (p k c : ℕ) → Type 0
HasChild ns p k c = slot ((node_at ns p).children) k ≡ some (hash_string (name_of ns c), c)

-- The tables are well formed and hold nodes under the hashes of their names, no two nodes of a
-- table have one name, a node is younger than its parent, and a name has four characters.
pub record IsNs (ns : Namespace) : Type 0 where
  pub tables : (p : ℕ) → p < length ns.nodes → IsValid ((node_at ns p).children)
  pub hashed :
      (p k h c : ℕ)
      → p < length ns.nodes
      → slot ((node_at ns p).children) k ≡ some (h, c)
      → (c < length ns.nodes) × (h ≡ hash_string (name_of ns c))
  pub distinct :
      (p k l c d : ℕ)
      → p < length ns.nodes
      → HasChild ns p k c
      → HasChild ns p l d
      → same_bytes 4 (name_of ns c) (name_of ns d) ≡ true
      → k ≡ l
  pub older : (n p : ℕ) → n < length ns.nodes → (node_at ns n).parent ≡ some p → p < n
  pub four : (n : ℕ) → n < length ns.nodes → length (name_of ns n) ≡ 4

-- Equal bytes at the head, and the rest agrees.
same_bytes-split :
    (n x y : ℕ) (a b : List ℕ)
    → same_bytes (suc n) (x ∷ a) (y ∷ b) ≡ true
    → (x ≡ y) × (same_bytes n a b ≡ true)
unfolding same_bytes
same_bytes-split n x y a b e = elim (Bool-cases (x == y)) [
  | inl same ↦ ((==_iff x y).0 same, rw (← e, same) refl)
  | inr other ↦ absurd (false≢true (rw (← e, other) refl))
]

pub same_bytes_refl : (n : ℕ) (a : List ℕ) → length a ≡ n → same_bytes n a a ≡ true
unfolding same_bytes
same_bytes_refl zero a e = refl
same_bytes_refl (suc n) [] e = absurd (omega arith)
same_bytes_refl (suc n) (x ∷ a) e = rw (==_self x) (same_bytes_refl n a (omega arith))

pub same_bytes-take : (n : ℕ) (a b : List ℕ) → same_bytes n a b ≡ true → take n a ≡ take n b
unfolding same_bytes
same_bytes-take zero a b e = refl
same_bytes-take (suc n) [] b e = ground arith
same_bytes-take (suc n) (x ∷ a) [] e = ground arith
same_bytes-take (suc n) (x ∷ a) (y ∷ b) e =
    let (same, rest) = same_bytes-split n x y a b e in
    ap₂ (λ (t : ℕ) (ts : List ℕ). t ∷ ts) same (same_bytes-take n a b rest)

-- Two names that agree with a third agree.
pub same_bytes_join :
    (n : ℕ) (a b c : List ℕ)
    → same_bytes n a c ≡ true
    → same_bytes n b c ≡ true
    → same_bytes n a b ≡ true
unfolding same_bytes
same_bytes_join zero a b c e f = refl
same_bytes_join (suc n) [] b c e f = ground arith
same_bytes_join (suc n) (x ∷ a) b [] e f = ground arith
same_bytes_join (suc n) (x ∷ a) [] (z ∷ c) e f = ground arith
same_bytes_join (suc n) (x ∷ a) (y ∷ b) (z ∷ c) e f =
    let (same, rest) = same_bytes-split n x z a c e in
    let (equal, others) = same_bytes-split n y z b c f in
    rw ((==_iff x y).1 (same ∙ sym equal)) (same_bytes_join n a b c rest others)

==_comm : (x y : ℕ) → (x == y) ≡ (y == x)
==_comm x y = ground arith

pub same_bytes_comm : (n : ℕ) (a b : List ℕ) → same_bytes n a b ≡ same_bytes n b a
unfolding same_bytes
same_bytes_comm zero a b = refl
same_bytes_comm (suc n) [] [] = refl
same_bytes_comm (suc n) [] (y ∷ b) = refl
same_bytes_comm (suc n) (x ∷ a) [] = refl
same_bytes_comm (suc n) (x ∷ a) (y ∷ b) = ap₂ ◌&&◌ (==_comm x y) (same_bytes_comm n a b)

-- Names that agree have one hash.
pub same_bytes-hash : (a b : List ℕ) → same_bytes 4 a b ≡ true → hash_string a ≡ hash_string b
unfolding hash_string
same_bytes-hash a b e = rw (hash_string, same_bytes-take 4 a b e) refl

pub node_at-read :
    (ns : Namespace) (n : ℕ) → n < length ns.nodes → read ns.nodes n ≡ ok (node_at ns n)
node_at-read ns n h = read-eq-ok ns.nodes n blank h
