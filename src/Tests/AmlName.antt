-- ===== src/Tests/AmlName.antt =====
-- Tests of the names of core/ns.c.
use lai.Base.{ℕ, ◌≡◌, refl, true, false, List, [], ◌∷◌, ◌++◌, length, arith, ok}
use lai.AmlName.{is_name, amlname_parse, amlname_iterate, stringify_amlname}
use lai.AmlName.Path.{NamePath, encode, IsSeg, IsNamePath}
use lai.AmlName.Parse.{parsed, amlname_parse-encode}
use lai.AmlName.Print.{at_segs, amlname_iterate-seg, spell, stringify_amlname-parsed}

-- `^^_SB_.PCI0`.
abbrev sb : List ℕ
sb = b'_' ∷ b'S' ∷ b'B' ∷ b'_' ∷ []

abbrev pci0 : List ℕ
pci0 = b'P' ∷ b'C' ∷ b'I' ∷ b'0' ∷ []

abbrev up_path : NamePath
up_path = record { rooted = false; carets = 2; segs = sb ∷ pci0 ∷ [] }

sb-IsSeg : IsSeg sb
unfolding is_name
sb-IsSeg = (refl, refl, ground arith, ground arith, ground arith, ground arith, ground arith)

pci0-IsSeg : IsSeg pci0
unfolding is_name
pci0-IsSeg = (refl, refl, ground arith, ground arith, ground arith, ground arith, ground arith)

up_path_ok : IsNamePath up_path
up_path_ok = record {
  scope = λ e. ground arith;
  segments = (sb-IsSeg, (pci0-IsSeg, tt));
  few = omega arith;
}

parse_example :
    amlname_parse (encode up_path ++ 0x70 ∷ [])
    ≡ ok (parsed up_path (0x70 ∷ []), length (encode up_path))
parse_example = amlname_parse-encode up_path (0x70 ∷ []) up_path_ok

iterate_example :
    amlname_iterate (at_segs (parsed up_path []) (sb ∷ pci0 ∷ []) [])
    ≡ ok (sb, at_segs (parsed up_path []) (pci0 ∷ []) [])
iterate_example = amlname_iterate-seg (parsed up_path []) sb (pci0 ∷ []) [] sb-IsSeg

print_example : stringify_amlname true (parsed up_path []) ≡ ok (spell up_path ++ 0 ∷ [])
print_example = stringify_amlname-parsed up_path [] up_path_ok
