-- ===== src/Convert/Match.antt =====
-- core/object.c: `lai_obj_exec_match_op`.
use lai.Base.{
  ℕ, zero, suc, Bool, true, false, not, ◌&&◌, ◌==◌, leb, ltb, if◌then◌else◌, Option, none, some,
  List, ◌∷◌, length, Run, ok, fault, ◌>>=◌, ApiError, no_error, unexpected_result,
}
use lai.Objects.{Var, empty_var, integer, string, buffer, Heap}
use lai.Objects.Vars.{finalize_var}
use lai.Convert.{Filled, string_access, buffer_access, strlen}
use lai.Convert.Buffers.{to_buffer}
use lai.Convert.Integers.{to_integer}
use lai.Convert.Strings.{to_hex_string}

-- The operators, other values being illegal.
pub data MatchOp : Type 0 where
  mtr meq mle mlt mge mgt illegal_op : MatchOp

-- `none` is the error at an illegal operator.
unfoldable pub match_integers : MatchOp → ℕ → ℕ → Option Bool
match_integers mtr a b = some true
match_integers meq a b = some (a == b)
match_integers mle a b = some (leb a b)
match_integers mlt a b = some (ltb a b)
match_integers mge a b = some (leb b a)
match_integers mgt a b = some (ltb b a)
match_integers illegal_op a b = none

-- The sign of the result of `memcmp`.
pub data Sign : Type 0 where
  negative equal positive : Sign

unfoldable pub memcmp : ℕ → List ℕ → List ℕ → Run Sign
memcmp zero a b = ok equal
memcmp (suc n) (x ∷ a) (y ∷ b) = elim (x == y) [
  | true ↦ memcmp n a b
  | false ↦ ok (if ltb x y then negative else positive)
]
memcmp (suc n) a b = fault

-- The test of an operator, from the sign of the comparison and the sizes.
abbrev pub less : Sign → (var_size obj_size : ℕ) → Bool
less equal n m = ltb n m
less negative n m = true
less positive n m = false

abbrev pub greater : Sign → (var_size obj_size : ℕ) → Bool
greater equal n m = ltb m n
greater negative n m = false
greater positive n m = true

abbrev pub is_equal : Sign → Bool
is_equal equal = true
is_equal negative = false
is_equal positive = false

unfoldable pub match_sign : MatchOp → Sign → (var_size obj_size : ℕ) → Option Bool
match_sign mtr c n m = some true
match_sign meq c n m = some (is_equal c && (n == m))
match_sign mle c n m = some (not (greater c n m))
match_sign mlt c n m = some (less c n m)
match_sign mge c n m = some (not (less c n m))
match_sign mgt c n m = some (greater c n m)
match_sign illegal_op c n m = none

unfoldable pub match_bytes :
    MatchOp → (var_data obj_data : List ℕ) (var_size obj_size : ℕ) → Run (Option Bool)
unfolding memcmp match_sign
match_bytes op a b n m = memcmp (if ltb m n then m else n) a b >>= λ c. ok (match_sign op c n m)

-- The end of the function: `compare_obj` is released, whatever the outcome.
unfoldable pub conclude :
    Heap → (compare_obj : Var) → Option Bool → Run (ApiError × Option Bool × Heap)
unfolding finalize_var
conclude h compare_obj none = finalize_var h compare_obj >>= λ h'. ok (unexpected_result, none, h')
conclude h compare_obj (some result) =
    finalize_var h compare_obj >>= λ h'. ok (no_error, some result, h')

-- The comparison is made if the conversion had no error, which is passed on otherwise.
unfoldable pub converted :
    Filled
    → (Heap → Var → Run (ApiError × Option Bool × Heap))
    → Run (ApiError × Option Bool × Heap)
unfolding finalize_var
converted (no_error, compare_obj, h) compare = compare h compare_obj
converted (e, compare_obj, h) compare = finalize_var h compare_obj >>= λ h'. ok (e, none, h')

-- `lai_obj_exec_match_op`; the output is written only without an error.
unfoldable pub exec_match_op :
    (fuel : ℕ) (room : Bool)
    → Heap
    → MatchOp
    → (var obj : Var) → Run (ApiError × Option Bool × Heap)
unfolding to_integer to_buffer to_hex_string converted conclude match_integers match_bytes
    buffer_access string_access strlen
exec_match_op fuel room h op var obj = elim var [
  | integer a ↦ to_integer h empty_var obj >>= λ made. converted made (λ h' compare_obj.
      elim compare_obj [
        | integer b ↦ conclude h' (integer b) (match_integers op a b)
        | other ↦ fault
      ])
  | buffer p ↦ to_buffer fuel room h empty_var obj >>= λ made. converted made (λ h' compare_obj.
      buffer_access h' (buffer p) >>= λ var_data. buffer_access h' compare_obj >>= λ obj_data.
      match_bytes op var_data obj_data (length var_data) (length obj_data)
      >>= conclude h' compare_obj)
  | string p ↦ to_hex_string fuel room h empty_var obj >>= λ made. converted made (λ h' compare_obj.
      string_access h' (string p) >>= λ var_data. string_access h' compare_obj >>= λ obj_data.
      strlen var_data >>= λ n.
      strlen obj_data >>= λ m. match_bytes op var_data obj_data n m >>= conclude h' compare_obj)
  | other ↦ ok (unexpected_result, none, h)
]
