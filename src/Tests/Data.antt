-- ===== src/Tests/Data.antt =====
-- Data for the tests: a table with one element.
use mathlib.Core.Path.{subst}
use mathlib.Core.Option.{some-ne-none}
use lai.Base.{
  ℕ, ◌≡◌, refl, sym, ap, ◌∙◌, true, none, some, [], ◌∷◌, arith, Run, ok, panic, fault, inl,
}
use lai.HashTable
use lai.HashTable.{HashTable}
use lai.HashTable.Occupied.{occupied}
use lai.HashTable.Invariant.{IsValid}
use lai.HashTable.Insert.{insert-Inserted}

abbrev value_or {ℓ} : {A : Type ℓ} → A → Run A → A
value_or d (ok a) = a
value_or d panic = d
value_or d fault = d

-- Two results of one run are equal.
pub ok-injective {ℓ} : {A : Type ℓ} (a b : A) → ok a ≡ ok b → a ≡ b
ok-injective a b e = ap (value_or a) e

pub empty-IsValid : IsValid (HashTable.empty {E = ℕ})
unfolding occupied
empty-IsValid = record {
  sized = record {
    ptr_size = refl;
    hash_size = refl;
    bucket_size = refl;
    fits = omega arith;
    counted = refl;
    linked = record {
      covered = λ k e at. absurd (some-ne-none e (sym at));
      placed = λ b k at. absurd (some-ne-none k (sym at));
      unique = λ b c k p q. absurd (some-ne-none k (sym p));
      balanced = refl;
    };
  };
  shape = inl (refl, refl);
}

-- The element 7 of hash 5, in a table that was new.
abbrev pub one_element : HashTable ℕ
one_element = record {
  elem_capacity = 2;
  bucket_capacity = 4;
  num_elems = 1;
  elem_ptr_tab = some 7 ∷ none ∷ [];
  elem_hash_tab = 5 ∷ 0 ∷ [];
  bucket_tab = none ∷ some 0 ∷ none ∷ none ∷ [];
}

one_element_run : HashTable.insert true HashTable.empty 5 7 ≡ ok one_element
unfolding HashTable.insert HashTable.grow HashTable.rehash HashTable.free_slot HashTable.probe
    HashTable.bucket_of
one_element_run = refl

pub one_element-IsValid : IsValid one_element
one_element-IsValid =
    let (out, run, ins) = insert-Inserted HashTable.empty 5 7 empty-IsValid (omega arith) in
    subst IsValid (ok-injective out one_element (sym run ∙ one_element_run)) ins.valid
