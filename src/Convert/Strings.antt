-- ===== src/Convert/Strings.antt =====
-- core/object.c: conversions to strings, `lai_obj_resize_string` and `lai_mutate_string`.
use lai.Base.{
  ℕ, suc, ◌+◌, ◌-◌, ◌*◌, ◌^◌, Bool, true, false, ◌==◌, ltb, if◌then◌else◌, List, [], ◌∷◌, ◌++◌,
  length, take, drop, set, Run, ok, panic, fault, read, ◌>>=◌, ApiError, no_error, out_of_memory,
  type_mismatch, illegal_arguments,
}
use lai.Objects.{Var, integer, string, buffer, Heap}
use lai.Printf.{llu, int_arg, long_arg, snprintf}
use lai.Convert.{Filled, create_string, string_access, buffer_access, strlen, write_string, memcpy}
use lai.Convert.Clone.{obj_clone}

-- Characters are written over the start of a string.
unfoldable pub write_at_start : Heap → Var → List ℕ → Run Heap
unfolding string_access memcpy write_string
write_at_start h v text = do
  content ← string_access h v
  changed ← memcpy content text (length text)
  write_string h v changed

-- A string of `length` characters is created and filled; its allocation is not checked, and the
-- access to the content faults if it failed.
unfoldable pub create_filled : (room : Bool) → Heap → (length : ℕ) (text : List ℕ) → Run Filled
unfolding create_string write_at_start
create_filled room h length text =
    let made = create_string room h length in
    write_at_start made.2 made.1 text >>= λ h'. ok (no_error, made.1, h')

-- The bytes before the first 0: the loop of `lai_obj_to_string`.
unfoldable pub buffer_length : List ℕ → ℕ
buffer_length [] = 0
buffer_length (b ∷ content) = elim (b == 0) [ true ↦ 0 | false ↦ suc (buffer_length content) ]

-- `lai_obj_to_string` to a variable with the content `out`.
unfoldable pub to_string : (room : Bool) → Heap → (out object : Var) (size : ℕ) → Run Filled
unfolding buffer_access buffer_length create_filled create_string
to_string room h out object size = elim object [
  | buffer p ↦ buffer_access h (buffer p) >>= λ content.
      let n = buffer_length content in
      if n == 0
      then ok (no_error, (create_string room h 0).1, (create_string room h 0).2)
      else if size == 2 ^ 64 - 1
      then create_filled room h (n + 1) (take n content)
      else if ltb size n
      then create_filled room h size (take size content)
      else create_filled room h n (take n content)
  | other ↦ ok (illegal_arguments, out, h)
]

abbrev pub decimal_byte : List ℕ
decimal_byte = b'%' ∷ b'0' ∷ b'2' ∷ b'd' ∷ []

abbrev pub hex_long : List ℕ
hex_long = b'%' ∷ b'X' ∷ []

abbrev pub hex_byte : List ℕ
hex_byte = b'%' ∷ b'0' ∷ b'2' ∷ b'X' ∷ []

-- The loops over the bytes of a buffer: a prefix, the first two characters that are printed, and a
-- comma for each of them.
unfoldable pub print_bytes : (prefix fmt : List ℕ) → List ℕ → Run (List ℕ)
unfolding snprintf
print_bytes prefix fmt [] = ok []
print_bytes prefix fmt (b ∷ content) = snprintf 5 fmt (int_arg b ∷ []) >>= λ buf.
    read buf 0 >>= λ first. read buf 1 >>= λ second.
    print_bytes prefix fmt content >>= λ rest. ok ((prefix ++ first ∷ second ∷ b',' ∷ []) ++ rest)

-- The last comma is replaced by the terminator; for no bytes that is a write before the string.
unfoldable pub end_at_comma : List ℕ → Run (List ℕ)
end_at_comma [] = fault
end_at_comma (c ∷ text) = ok (set (c ∷ text) (length text) 0)

-- `lai_obj_to_decimal_string`
unfoldable pub to_decimal_string : (fuel : ℕ) (room : Bool) → Heap → (out object : Var) → Run Filled
unfolding create_filled snprintf buffer_access print_bytes end_at_comma obj_clone
to_decimal_string fuel room h out object = elim object [
  | integer n ↦ snprintf 21 llu (long_arg n ∷ []) >>= λ text. create_filled room h 20 text
  | buffer p ↦ buffer_access h (buffer p) >>= λ content.
      print_bytes [] decimal_byte content >>= λ text.
      end_at_comma text >>= λ ended. create_filled room h (length content * 3) ended
  | string p ↦ obj_clone fuel room h out (string p) >>= λ r. ok (no_error, r.0, r.1)
  | other ↦ ok (illegal_arguments, out, h)
]

-- `lai_obj_to_hex_string`
unfoldable pub to_hex_string : (fuel : ℕ) (room : Bool) → Heap → (out object : Var) → Run Filled
unfolding create_filled snprintf buffer_access print_bytes end_at_comma obj_clone
to_hex_string fuel room h out object = elim object [
  | integer n ↦ snprintf 17 hex_long (long_arg n ∷ []) >>= λ text. create_filled room h 16 text
  | buffer p ↦ buffer_access h (buffer p) >>= λ content.
      print_bytes (b'0' ∷ b'x' ∷ []) hex_byte content >>= λ text.
      end_at_comma text >>= λ ended. create_filled room h (length content * 5) ended
  | string p ↦ obj_clone fuel room h out (string p) >>= λ r. ok (no_error, r.0, r.1)
  | other ↦ ok (illegal_arguments, out, h)
]

-- `lai_obj_resize_string`: a new array takes the text over, and is not cleared behind it
-- (`garbage` is what the allocation holds there).
unfoldable pub resize_string :
    (garbage : ℕ → List ℕ) (room : Bool) → Heap → Var → (length : ℕ) → Run (ApiError × Heap)
unfolding string_access strlen write_string
resize_string garbage room h (string p) new_length = string_access h (string p) >>= λ content.
    strlen content >>= λ n.
    if ltb n new_length
    then (if room
        then (write_string h (string p) (
              take (new_length + 1) (take n content ++ 0 ∷ drop (n + 1) (garbage (new_length + 1))))
            >>= λ h'. ok (no_error, h'))
        else ok (out_of_memory, h))
    else ok (no_error, h)
resize_string garbage room h other new_length = ok (type_mismatch, h)

abbrev pub hex_width : List ℕ
hex_width = b'%' ∷ b'0' ∷ b'1' ∷ b'6' ∷ b'l' ∷ b'X' ∷ []

abbrev pub hex_first : List ℕ
hex_first = b'0' ∷ b'x' ∷ hex_byte

abbrev pub hex_next : List ℕ
hex_next = b' ' ∷ hex_first

-- The loop of `lai_mutate_string` over the bytes of a buffer, `first` before the first of them; the
-- terminator of each text is overwritten by the next.
unfoldable pub print_hex : (first : Bool) → List ℕ → Run (List ℕ)
unfolding snprintf
print_hex first [] = ok (0 ∷ [])
print_hex first (b ∷ content) =
    let advance = if first then 4 else 5 in
    snprintf (if first then 5 else 6) (if first then hex_first else hex_next) (int_arg b ∷ [])
    >>= λ s. print_hex false content >>= λ rest. ok (take advance s ++ rest)

-- A failed resize is a panic.
abbrev pub resized : ApiError × Heap → Run Heap
resized (no_error, h) = ok h
resized (e, h) = panic

-- `lai_mutate_string`
unfoldable pub mutate_string :
    (garbage : ℕ → List ℕ) (room : Bool) → Heap → (target object : Var) → Run (ApiError × Heap)
unfolding resize_string string_access strlen buffer_access snprintf print_hex write_at_start
mutate_string garbage room h target object = elim object [
  | string p ↦ string_access h (string p) >>= λ content. strlen content >>= λ n.
      resize_string garbage room h target n >>= resized >>= λ h'.
      string_access h' (string p) >>= λ source. strlen source >>= λ m.
      write_at_start h' target (take (m + 1) source) >>= λ h''. ok (no_error, h'')
  | integer n ↦ resize_string garbage room h target 17 >>= resized >>= λ h'.
      snprintf 17 hex_width (long_arg n ∷ []) >>= λ text.
      write_at_start h' target text >>= λ h''. ok (no_error, h'')
  | buffer p ↦ buffer_access h (buffer p) >>= λ content.
      resize_string garbage room h target (5 * length content + 1) >>= resized >>= λ h'.
      print_hex true content >>= λ text. write_at_start h' target text >>= λ h''. ok (no_error, h'')
  | other ↦ ok (illegal_arguments, h)
]
