-- ===== src/AmlName/Path.antt =====
-- What a name in AML code says, apart from its encoding: the grammar of NameString that the
-- parser reads. The encoder is the inverse that the parser is held against.
use lai.Base.{ℕ, ◌<◌, ◌≡◌, ◌≢◌, Bool, true, false, List, [], ◌∷◌, ◌++◌, length, replicate}
use lai.AmlName.{is_name, dual_prefix, multi_prefix, root_char, parent_char}

pub record NamePath : Type 0 where
  pub rooted : Bool
  pub carets : ℕ
  pub segs : List (List ℕ)

abbrev pub flatten : List (List ℕ) → List ℕ
flatten [] = []
flatten (s ∷ ss) = s ++ flatten ss

abbrev pub scope_bytes : Bool → ℕ → List ℕ
scope_bytes true carets = root_char ∷ []
scope_bytes false carets = replicate carets parent_char

abbrev pub count_bytes : List (List ℕ) → List ℕ
count_bytes [] = 0 ∷ []
count_bytes (a ∷ []) = []
count_bytes (a ∷ b ∷ []) = dual_prefix ∷ []
count_bytes (a ∷ b ∷ c ∷ ss) = multi_prefix ∷ length (a ∷ b ∷ c ∷ ss) ∷ []

abbrev pub encode : NamePath → List ℕ
encode p = scope_bytes p.rooted p.carets ++ count_bytes p.segs ++ flatten p.segs

-- A segment has four characters, and its first is a letter, a digit or `_`.
abbrev pub IsSeg : List ℕ → Type 0
IsSeg [] = ⊥
IsSeg (a ∷ s) =
    (length s ≡ 3)
    × (is_name a ≡ true)
    × (a ≢ root_char)
    × (a ≢ parent_char)
    × (a ≢ dual_prefix)
    × (a ≢ multi_prefix)
    × (a ≢ 0)

abbrev pub AllSegs : List (List ℕ) → Type 0
AllSegs [] = Unit
AllSegs (s ∷ ss) = IsSeg s × AllSegs ss

-- An absolute name has no `^`, and the number of segments fits its byte.
pub record IsNamePath (p : NamePath) : Type 0 where
  pub scope : p.rooted ≡ true → p.carets ≡ 0
  pub segments : AllSegs p.segs
  pub few : length p.segs < 256
