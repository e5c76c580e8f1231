-- ===== src/AmlName.antt =====
-- core/ns.c and core/eval.c: names in AML code. A pointer into the code is the list of bytes from
-- there on; a read past the list is a fault.
pub mod Path
pub mod Parse
pub mod Print
use lai.Base.{
  ℕ, zero, suc, ◌+◌, ◌-◌, ◌*◌, ◌/◌, Bool, true, false, not, ◌&&◌, ◌||◌, List, [], ◌∷◌, ◌++◌, drop,
  length, replicate, ltb, leb, ◌==◌, if◌then◌else◌, Run, ok, panic, fault, ensure, read, ◌>>=◌,
  ◌>>◌,
}

abbrev pub dual_prefix : ℕ
dual_prefix = 0x2E

abbrev pub multi_prefix : ℕ
multi_prefix = 0x2F

abbrev pub root_char : ℕ
root_char = 0x5C

abbrev pub parent_char : ℕ
parent_char = 0x5E

unfoldable pub is_name : ℕ → Bool
is_name c =
    (leb b'0' c && leb c b'9')
    || (leb b'A' c && leb c b'Z')
    || (c == b'_')
    || (c == root_char)
    || (c == parent_char)
    || (c == multi_prefix)
    || (c == dual_prefix)

-- `struct lai_amlname`: `left` is `end - it`.
pub record AmlName : Type 0 where
  pub is_absolute : Bool
  pub height : ℕ
  pub search_scopes : Bool
  pub it : List ℕ
  pub left : ℕ

-- The loop over the `^` characters.
unfoldable pub parse_height : List ℕ → Run (ℕ × List ℕ)
parse_height [] = fault
parse_height (c ∷ it) = elim (c == parent_char) [
  | true ↦ parse_height it >>= λ r. ok (r.0 + 1, r.1)
  | false ↦ ok (0, c ∷ it)
]

-- `num_segs = *it` after the multiple-name prefix.
unfoldable pub parse_multi : List ℕ → Run (ℕ × List ℕ)
parse_multi it = do n ← read it 1; ensure (ltb 2 n); ok (n, drop 2 it)

-- The prefix that gives the number of segments, and what follows it.
unfoldable pub parse_num_segs : List ℕ → Run (ℕ × List ℕ)
unfolding is_name parse_multi
parse_num_segs [] = fault
parse_num_segs (c ∷ it) =
    if c == 0
    then ok (0, it)
    else if c == dual_prefix
    then ok (2, it)
    else if c == multi_prefix
    then parse_multi (c ∷ it)
    else (ensure (is_name c) >> ok (1, c ∷ it))

-- The leading `\` or `^` characters: is the name absolute, and how many `^` it has.
unfoldable pub parse_scope : List ℕ → Run (Bool × ℕ × List ℕ)
unfolding parse_height
parse_scope [] = fault
parse_scope (c ∷ begin) =
    if c == root_char
    then ok (true, 0, begin)
    else (parse_height (c ∷ begin) >>= λ r. ok (false, r.0, r.1))

-- The size is `amln->end - begin`.
unfoldable pub amlname_parse : List ℕ → Run (AmlName × ℕ)
amlname_parse begin = do
  (is_absolute, height, scoped) ← parse_scope begin
  (num_segs, it) ← parse_num_segs scoped
  ok (
    record {
      is_absolute = is_absolute;
      height = height;
      search_scopes = not is_absolute && (height == 0) && (num_segs == 1);
      it = it;
      left = 4 * num_segs;
    },
    length begin - length it + 4 * num_segs,
  )

unfoldable pub amlname_done : AmlName → Bool
amlname_done amln = amln.left == 0

unfoldable pub amlname_iterate : AmlName → Run (List ℕ × AmlName)
amlname_iterate amln = do
  ensure (ltb 0 amln.left)
  a ← read amln.it 0
  b ← read amln.it 1
  c ← read amln.it 2
  d ← read amln.it 3
  ok (a ∷ b ∷ c ∷ d ∷ [], record amln { it = drop 4 amln.it; left = amln.left - 4 })

-- The loop of `lai_stringify_amlname` over the segments.
unfoldable pub stringify_segs : ℕ → AmlName → Run (List ℕ)
unfolding amlname_iterate amlname_done
stringify_segs zero amln = panic
stringify_segs (suc fuel) amln = do
  (seg, amln') ← amlname_iterate amln
  let rest = stringify_segs fuel amln'
  if amlname_done amln' then ok seg else (rest >>= λ tail. ok (seg ++ b'.' ∷ tail))

-- The string with its terminator, if the allocation succeeds (`room`).
unfoldable pub stringify_amlname : Bool → AmlName → Run (List ℕ)
unfolding stringify_segs
stringify_amlname room amln =
    let num_segs = amln.left / 4 in
    let max_length = 1 + amln.height + num_segs * 5 + 1 in
    do
      ensure room
      segs ← (if amlname_done amln then ok [] else stringify_segs num_segs amln)
      let str =
          (if amln.is_absolute then root_char ∷ [] else [])
          ++ replicate amln.height parent_char
          ++ segs
          ++ 0 ∷ []
      ensure (leb (length str) max_length)
      ok str
