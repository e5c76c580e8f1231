-- ===== src/Tests/Convert.antt =====
-- Tests of the conversions between objects.
use lai.Base.{
  ℕ, ◌≡◌, ◌≢◌, ◌↔◌, refl, Bool, true, none, some, List, [], ◌∷◌, ◌++◌, length, set, ok, fault,
  ◌>>=◌, no_error, arith,
}
use lai.Objects.{empty_var, integer, buffer, pkg, string_head, buffer_head, pkg_head, Cell, Heap}
use lai.OpRegion.Values.{spread_bytes}
use lai.Printf.{snprintf, long_arg, string_arg, num_digits, negative_int}
use lai.Convert.Clone.{obj_clone}
use lai.Convert.Buffers.{to_buffer, mutate_buffer}
use lai.Convert.Integers.{parse_integer, to_integer}
use lai.Convert.Strings.{to_decimal_string, to_hex_string, hex_long}
use lai.Convert.Match.{mlt, illegal_op, exec_match_op}
use lai.Convert.Order.{Means}
use lai.Convert.Fit.{fit, mutate_buffer_lem}
use lai.Convert.Through.{grown, to_integer-to_buffer, to_integer-to_decimal_string}
use lai.Convert.Comparison.{exec_match_op-Answers}

abbrev four_bytes : List ℕ
four_bytes = 9 ∷ 8 ∷ 7 ∷ 6 ∷ []

abbrev four_bytes_cell : Cell
four_bytes_cell = record { rc = 2; head = buffer_head four_bytes }

abbrev two_bytes_cell : Cell
two_bytes_cell = record { rc = 1; head = buffer_head (9 ∷ 200 ∷ []) }

abbrev hello_cell : Cell
hello_cell = record { rc = 1; head = string_head (b'h' ∷ b'i' ∷ 0 ∷ 0 ∷ []) }

abbrev some_objects : Heap
some_objects = some four_bytes_cell ∷ some two_bytes_cell ∷ some hello_cell ∷ []

one-ne-zero : ◌≡◌ {A = ℕ} 1 0 → ⊥
one-ne-zero e = omega (arith, e)

mutate_buffer_example :
    mutate_buffer some_objects (buffer 0) (buffer 1)
    ≡ ok (
      no_error,
      set some_objects 0
          (some (record { rc = 2; head = buffer_head (fit (length four_bytes) (9 ∷ 200 ∷ [])) })),
    )
mutate_buffer_example =
    mutate_buffer_lem some_objects 0 four_bytes_cell four_bytes (buffer 1) (9 ∷ 200 ∷ []) refl refl
      (one-ne-zero, two_bytes_cell, refl, refl)

to_buffer_example :
    (to_buffer 0 true some_objects empty_var (integer 0xABCDEF) >>= λ r.
    to_integer r.2 empty_var r.1)
    ≡ ok (
      no_error,
      integer 0xABCDEF,
      grown some_objects (record { rc = 1; head = buffer_head (spread_bytes 8 0 0xABCDEF) }),
    )
to_buffer_example = to_integer-to_buffer 0 0xABCDEF some_objects empty_var empty_var (omega arith)

to_decimal_string_example :
    (c : Cell) × ((to_decimal_string 0 true some_objects empty_var (integer 2026) >>= λ r.
    to_integer r.2 empty_var r.1)
      ≡ ok (no_error, integer 2026, grown some_objects c))
to_decimal_string_example =
    to_integer-to_decimal_string 0 2026 some_objects empty_var empty_var (omega arith)

mlt-ne-illegal_op : mlt ≢ illegal_op
mlt-ne-illegal_op e = cc

exec_match_op_example :
    (r : Bool) × (exec_match_op 1 true some_objects mlt (buffer 0) (buffer 1)
      ≡ ok (no_error, some r, some_objects ++ none ∷ []))
    × ((r ≡ true) ↔ Means mlt four_bytes (9 ∷ 200 ∷ []))
exec_match_op_example =
    exec_match_op-Answers 0 some_objects mlt 0 1 four_bytes_cell two_bytes_cell four_bytes
      (9 ∷ 200 ∷ []) mlt-ne-illegal_op refl refl refl refl

-- A store of a buffer to itself, of which the interpreter makes none, would clear it.
self_store :
    mutate_buffer some_objects (buffer 1) (buffer 1)
    ≡ ok (no_error, set some_objects 1 (some (record { rc = 1; head = buffer_head (0 ∷ 0 ∷ []) })))
unfolding mutate_buffer
self_store = refl

hex : parse_integer (b'0' ∷ b'x' ∷ b'1' ∷ b'F' ∷ []) ≡ some 31
unfolding parse_integer
hex = refl

-- A character that is no digit.
no_digit : parse_integer (b'1' ∷ b'F' ∷ []) ≡ none
unfolding parse_integer
no_digit = refl

-- `%X` prints the low half of an integer.
low_half : snprintf 17 hex_long (long_arg 0x1000000AB ∷ []) ≡ ok (b'A' ∷ b'B' ∷ 0 ∷ [])
unfolding snprintf num_digits negative_int
low_half = refl

-- A text that does not fit ends in dots.
dots :
    snprintf 2 (b'%' ∷ b's' ∷ []) (string_arg (b'a' ∷ b'b' ∷ b'c' ∷ []) ∷ [])
    ≡ ok (b'a' ∷ b'b' ∷ b'.' ∷ b'.' ∷ b'.' ∷ 0 ∷ [])
unfolding snprintf
dots = refl

-- An empty buffer: the terminator is written before the string.
empty_to_hex :
    to_hex_string 1 true (some (record { rc = 1; head = buffer_head [] }) ∷ []) empty_var (buffer 0)
    ≡ fault
unfolding to_hex_string
empty_to_hex = refl

clone_one_package :
    obj_clone 3 true
      (some (record { rc = 1; head = pkg_head (integer 4 ∷ []) }) ∷ [])
      empty_var
      (pkg 0)
    ≡ ok (
      pkg 1,
      some (record { rc = 1; head = pkg_head (integer 4 ∷ []) })
          ∷ some (record { rc = 1; head = pkg_head (integer 4 ∷ []) })
          ∷ [],
    )
unfolding obj_clone
clone_one_package = refl
