-- ===== src/Tests/HashTable.antt =====
-- Tests of core/util-hash.h.
use lai.Base.{ℕ, ◌+◌, ◌≡◌, refl, true, Option, none, ◌==◌, arith, if◌then◌else◌, ok}
use lai.HashTable.{HashTable, insert, chain_remove, bucket_of}
use lai.HashTable.Invariant.{IsValid, slot}
use lai.HashTable.Insert.{Inserted, insert-Inserted}
use lai.HashTable.Chain.{Standing, chain_remove_lem}
use lai.HashTable.Search.{search_chain, search_chain_lem, Outcome}
use lai.Tests.Data.{one_element, one_element-IsValid}

insert-Inserted_example :
    (out : HashTable ℕ) × (insert true one_element 9 3 ≡ ok out) × Inserted one_element 9 3 out
insert-Inserted_example = insert-Inserted one_element 9 3 one_element-IsValid (omega arith)

search_chain_example :
    (r : Option ℕ) × (search_chain one_element 5
        (λ e. ok (e == 7))
        (one_element.bucket_capacity + 1)
        0
      ≡ ok r)
    × Outcome one_element 5 (λ e. ok (e == 7)) (λ e. e == 7) (λ k e at. refl) r
search_chain_example =
    search_chain_lem one_element 5 (λ e. ok (e == 7)) (λ e. e == 7) (λ k e at. refl)
      one_element-IsValid

-- Position 0 of the chain of hash 5 stands for the element 7.
standing : Standing one_element 5 0 0 7
unfolding bucket_of
standing = record { bucket = refl; element = refl; hash = refl }

chain_remove_example :
    (out : HashTable ℕ) × (chain_remove one_element 5 1 ≡ ok out)
    × IsValid out
    × ((j : ℕ) → slot out j ≡ (if 0 == j then none else slot one_element j))
    × (out.num_elems + 1 ≡ 1)
    × (out.bucket_capacity ≡ 4)
chain_remove_example =
    chain_remove_lem one_element 5 0 0 7 standing (omega arith) one_element-IsValid
