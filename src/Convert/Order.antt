-- ===== src/Convert/Order.antt =====
-- core/object.c: the comparisons of `lai_obj_exec_match_op` are those of the lexicographic order.
use mathlib.Core.Bool.{false≢true}
use native.Mathlib.Decide.{dec_lt, ℕ_discrete}
use lai.Base.{
  ℕ, suc, ◌<◌, ◌≡◌, ◌≢◌, ◌↔◌, refl, sym, ap, ap₂, ◌∙◌, Bool, true, false, not, ◌&&◌, ◌==◌, ==_ne,
  ltb, lt→ltb, le→ltb, if◌then◌else◌, Option, some, List, [], ◌∷◌, length, ok, arith,
}
use lai.Convert.Match.{
  MatchOp, mtr, meq, mle, mlt, mge, mgt, illegal_op, Sign, negative, equal, positive, memcmp, less,
  greater, is_equal, match_sign,
}

-- The first sequence of bytes comes before the second.
pub data Precedes : List ℕ → List ℕ → Type 0 where
  ended : (b : ℕ) (t : List ℕ) → Precedes [] (b ∷ t)
  smaller : (a b : ℕ) (s t : List ℕ) → a < b → Precedes (a ∷ s) (b ∷ t)
  later : (a b : ℕ) (s t : List ℕ) → a ≡ b → Precedes s t → Precedes (a ∷ s) (b ∷ t)

Precedes-irrefl : (s t : List ℕ) → Precedes s t → s ≢ t
Precedes-irrefl [] [] p e = elim p [ ]
Precedes-irrefl (a ∷ s) [] p e = elim p [ ]
Precedes-irrefl [] (b ∷ t) (ended _ _) e = absurd (omega (arith, ap length e))
Precedes-irrefl (a ∷ s) (b ∷ t) (smaller _ _ _ _ lt) e = ground arith
Precedes-irrefl (a ∷ s) (b ∷ t) (later _ _ _ _ _ p) e = Precedes-irrefl s t p (cc)

Precedes-asymm : (s t : List ℕ) → Precedes s t → Precedes t s → ⊥
Precedes-asymm [] [] p q = elim p [ ]
Precedes-asymm (a ∷ s) [] p q = elim p [ ]
Precedes-asymm [] (b ∷ t) (ended _ _) q = elim q [ ]
Precedes-asymm (a ∷ s) (b ∷ t) (smaller _ _ _ _ lt) (smaller _ _ _ _ lt') = omega arith
Precedes-asymm (a ∷ s) (b ∷ t) (smaller _ _ _ _ lt) (later _ _ _ _ e _) = omega (arith, e)
Precedes-asymm (a ∷ s) (b ∷ t) (later _ _ _ _ e _) (smaller _ _ _ _ lt) = omega (arith, e)
Precedes-asymm (a ∷ s) (b ∷ t) (later _ _ _ _ _ p) (later _ _ _ _ _ q) = Precedes-asymm s t p q

-- What an operator asks of two sequences.
abbrev pub Means : MatchOp → List ℕ → List ℕ → Type 0
Means mtr a b = Unit
Means meq a b = a ≡ b
Means mle a b = ¬ Precedes b a
Means mlt a b = Precedes a b
Means mge a b = ¬ Precedes a b
Means mgt a b = Precedes b a
Means illegal_op a b = ⊥

-- The three outcomes of a comparison, with the tests that the code makes of it.
pub data Verdict (c : Sign) (a b : List ℕ) : Type 0 where
  before :
      Precedes a b
      → less c (length a) (length b) ≡ true
      → greater c (length a) (length b) ≡ false
      → (is_equal c && (length a == length b)) ≡ false
      → Verdict c a b
  same :
      a ≡ b
      → less c (length a) (length b) ≡ false
      → greater c (length a) (length b) ≡ false
      → (is_equal c && (length a == length b)) ≡ true
      → Verdict c a b
  after :
      Precedes b a
      → less c (length a) (length b) ≡ false
      → greater c (length a) (length b) ≡ true
      → (is_equal c && (length a == length b)) ≡ false
      → Verdict c a b

-- The size up to which the code compares.
abbrev pub common : List ℕ → List ℕ → ℕ
common a b = if ltb (length b) (length a) then length b else length a

-- The tests do not change when both sizes grow by one.
ltb-suc : (n m : ℕ) → ltb (suc n) (suc m) ≡ ltb n m
ltb-suc n m = ground arith

==_suc : (n m : ℕ) → (suc n == suc m) ≡ (n == m)
==_suc n m = ground arith

less-suc : (c : Sign) (n m : ℕ) → less c (suc n) (suc m) ≡ less c n m
less-suc equal n m = ltb-suc n m
less-suc negative n m = refl
less-suc positive n m = refl

greater-suc : (c : Sign) (n m : ℕ) → greater c (suc n) (suc m) ≡ greater c n m
greater-suc equal n m = ltb-suc m n
greater-suc negative n m = refl
greater-suc positive n m = refl

Verdict-cons :
    (c : Sign) (x y : ℕ) (a b : List ℕ) → x ≡ y → Verdict c a b → Verdict c (x ∷ a) (y ∷ b)
Verdict-cons c x y a b e v =
    let l = less-suc c (length a) (length b) in
    let g = greater-suc c (length a) (length b) in
    let q : (is_equal c && (suc (length a) == suc (length b)))
        ≡ (is_equal c && (length a == length b)) =
      ap (λ (t : Bool). is_equal c && t) (==_suc (length a) (length b)) in
    elim v [
      | before p l' g' q' ↦ before (later x y a b e p) (l ∙ l') (g ∙ g') (q ∙ q')
      | same p l' g' q' ↦ same (ap₂ ◌∷◌ e p) (l ∙ l') (g ∙ g') (q ∙ q')
      | after p l' g' q' ↦ after (later y x b a (sym e) p) (l ∙ l') (g ∙ g') (q ∙ q')
    ]

common-suc : (x y : ℕ) (a b : List ℕ) → common (x ∷ a) (y ∷ b) ≡ suc (common a b)
common-suc x y a b = ground arith

ltb_zero : (n : ℕ) → ltb 0 (suc n) ≡ true
ltb_zero n = ground arith

zero_ltb : (n : ℕ) → ltb (suc n) 0 ≡ false
zero_ltb n = ground arith

common_none : (y : ℕ) (b : List ℕ) → common [] (y ∷ b) ≡ 0
common_none y b = ground arith

none_common : (x : ℕ) (a : List ℕ) → common (x ∷ a) [] ≡ 0
none_common x a = ground arith

-- The comparison returns, with one of the outcomes.
pub memcmp-Verdict : (a b : List ℕ) → (c : Sign) × (memcmp (common a b) a b ≡ ok c) × Verdict c a b
unfolding memcmp
memcmp-Verdict [] [] = (equal, refl, same refl refl refl refl)
memcmp-Verdict [] (y ∷ b) = (
  equal,
  rw (common_none y b) refl,
  before (ended y b) (ltb_zero (length b)) (zero_ltb (length b)) (ground arith),
)
memcmp-Verdict (x ∷ a) [] = (
  equal,
  rw (none_common x a) refl,
  after (ended x a) (zero_ltb (length a)) (ltb_zero (length a)) (ground arith),
)
memcmp-Verdict (x ∷ a) (y ∷ b) = elim (ℕ_discrete x y) [
  | yes e ↦
      let (c, run, v) = memcmp-Verdict a b in
      let test : (x == y) ≡ true = ground arith in
      (c, rw (common-suc x y a b, memcmp, test) run, Verdict-cons c x y a b e v)
  | no ne ↦ elim (dec_lt x y) [
    | yes lt ↦ (
      negative,
      rw (common-suc x y a b, memcmp, ==_ne x y ne, lt→ltb x y lt) refl,
      before (smaller x y a b lt) refl refl refl,
    )
    | no ge ↦ (
      positive,
      rw (common-suc x y a b, memcmp, ==_ne x y ne, le→ltb x y (omega (arith, ge))) refl,
      after (smaller y x b a (omega (arith, ge, ne))) refl refl refl,
    )
  ]
]

-- The answer of an operator is what it asks.
unfoldable pub Answers : (op : MatchOp) (a b : List ℕ) → Option Bool → Type 0
Answers op a b o = (r : Bool) × (o ≡ some r) × ((r ≡ true) ↔ Means op a b)

holds :
    (op : MatchOp) (a b : List ℕ) (o : Option Bool)
    → o ≡ some true
    → Means op a b
    → Answers op a b o
unfolding Answers
holds op a b o e m = (true, e, ((λ t. m), (λ t. refl)))

fails :
    (op : MatchOp) (a b : List ℕ) (o : Option Bool)
    → o ≡ some false
    → ¬ Means op a b
    → Answers op a b o
unfolding Answers
fails op a b o e m = (false, e, ((λ t. absurd (false≢true t)), (λ t. absurd (m t))))

-- The three outcomes of a comparison answer every operator.
pub Verdict-Answers :
    (op : MatchOp) (c : Sign) (a b : List ℕ)
    → op ≢ illegal_op
    → Verdict c a b
    → Answers op a b (match_sign op c (length a) (length b))
unfolding match_sign
Verdict-Answers mtr c a b legal v = holds mtr a b _ refl tt
Verdict-Answers illegal_op c a b legal v = absurd (legal refl)
Verdict-Answers meq c a b legal (before p l g q) =
    fails meq a b _ (ap some q) (Precedes-irrefl a b p)
Verdict-Answers meq c a b legal (same p l g q) = holds meq a b _ (ap some q) p
Verdict-Answers meq c a b legal (after p l g q) =
    fails meq a b _ (ap some q) (λ e. Precedes-irrefl b a p (sym e))
Verdict-Answers mle c a b legal (before p l g q) =
    holds mle a b _ (ap (λ (t : Bool). some (not t)) g) (Precedes-asymm a b p)
Verdict-Answers mle c a b legal (same p l g q) =
    holds mle a b _ (ap (λ (t : Bool). some (not t)) g) (λ r. Precedes-irrefl b a r (sym p))
Verdict-Answers mle c a b legal (after p l g q) =
    fails mle a b _ (ap (λ (t : Bool). some (not t)) g) (λ n. n p)
Verdict-Answers mlt c a b legal (before p l g q) = holds mlt a b _ (ap some l) p
Verdict-Answers mlt c a b legal (same p l g q) =
    fails mlt a b _ (ap some l) (λ r. Precedes-irrefl a b r p)
Verdict-Answers mlt c a b legal (after p l g q) =
    fails mlt a b _ (ap some l) (λ r. Precedes-asymm a b r p)
Verdict-Answers mge c a b legal (before p l g q) =
    fails mge a b _ (ap (λ (t : Bool). some (not t)) l) (λ n. n p)
Verdict-Answers mge c a b legal (same p l g q) =
    holds mge a b _ (ap (λ (t : Bool). some (not t)) l) (λ r. Precedes-irrefl a b r p)
Verdict-Answers mge c a b legal (after p l g q) =
    holds mge a b _ (ap (λ (t : Bool). some (not t)) l) (λ r. Precedes-asymm a b r p)
Verdict-Answers mgt c a b legal (before p l g q) =
    fails mgt a b _ (ap some g) (Precedes-asymm a b p)
Verdict-Answers mgt c a b legal (same p l g q) =
    fails mgt a b _ (ap some g) (λ r. Precedes-irrefl b a r (sym p))
Verdict-Answers mgt c a b legal (after p l g q) = holds mgt a b _ (ap some g) p
