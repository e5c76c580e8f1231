-- ===== src/Convert/Kinds.antt =====
-- core/object.c: the types of objects, for the ObjectType operator and for the names of types, and
-- changes of the sizes of buffers and packages.
use lai.Base.{
  ℕ, ◌-◌, Bool, leb, ltb, if◌then◌else◌, List, [], ◌∷◌, ◌++◌, length, take, replicate, Run, ok,
  ◌>>=◌, ApiError, no_error, out_of_memory, type_mismatch, out_of_bounds, illegal_arguments, read,
}
use lai.Objects.{
  Var, empty_var, integer, string, buffer, pkg, string_index, buffer_index, pkg_index, Heap,
  free_elems, var_finalize,
}
use lai.Namespace.{NodeType}
use lai.Convert.{Filled, buffer_access, write_buffer, pkg_elems, write_pkg}
use lai.Convert.Clone.{assign_value}
use lai.Convert.Strings.{create_filled}

-- `lai_objecttype_obj`
unfoldable pub objecttype_obj : Var → ℕ
objecttype_obj (integer n) = 1
objecttype_obj (string_index p i) = 2
objecttype_obj (string p) = 2
objecttype_obj (buffer_index p i) = 3
objecttype_obj (buffer p) = 3
objecttype_obj (pkg_index p i) = 4
objecttype_obj (pkg p) = 4
objecttype_obj other = 0

-- `lai_objecttype_ns`, of a node of this type that has the object `object` if it is a name.
unfoldable pub objecttype_ns : NodeType → (object : Var) → ℕ
unfolding objecttype_obj
objecttype_ns NodeType.name object = objecttype_obj object
objecttype_ns NodeType.field object = 5
objecttype_ns NodeType.bankfield object = 5
objecttype_ns NodeType.indexfield object = 5
objecttype_ns NodeType.device object = 6
objecttype_ns NodeType.event object = 7
objecttype_ns NodeType.method object = 8
objecttype_ns NodeType.mutex object = 9
objecttype_ns NodeType.opregion object = 10
objecttype_ns NodeType.powerresource object = 11
objecttype_ns NodeType.processor object = 12
objecttype_ns NodeType.thermalzone object = 13
objecttype_ns NodeType.buffer_field object = 14
objecttype_ns other object = 0

abbrev pub field_text : List ℕ
field_text =
    b'[' ∷ b'F' ∷ b'i' ∷ b'e' ∷ b'l' ∷ b'd' ∷ b' ' ∷ b'O' ∷ b'b' ∷ b'j' ∷ b'e' ∷ b'c' ∷ b't' ∷ b']'
    ∷ []

abbrev pub device_text : List ℕ
device_text =
    b'[' ∷ b'D' ∷ b'e' ∷ b'v' ∷ b'i' ∷ b'c' ∷ b'e' ∷ b' ' ∷ b'O' ∷ b'b' ∷ b'j' ∷ b'e' ∷ b'c' ∷ b't'
    ∷ b']' ∷ []

abbrev pub event_text : List ℕ
event_text =
    b'[' ∷ b'E' ∷ b'v' ∷ b'e' ∷ b'n' ∷ b't' ∷ b' ' ∷ b'O' ∷ b'b' ∷ b'j' ∷ b'e' ∷ b'c' ∷ b't' ∷ b']'
    ∷ []

abbrev pub mutex_text : List ℕ
mutex_text =
    b'[' ∷ b'M' ∷ b'u' ∷ b't' ∷ b'e' ∷ b'x' ∷ b' ' ∷ b'O' ∷ b'b' ∷ b'j' ∷ b'e' ∷ b'c' ∷ b't' ∷ b']'
    ∷ []

abbrev pub opregion_text : List ℕ
opregion_text =
    b'[' ∷ b'R' ∷ b'e' ∷ b'g' ∷ b'i' ∷ b'o' ∷ b'n' ∷ b' ' ∷ b'O' ∷ b'b' ∷ b'j' ∷ b'e' ∷ b'c' ∷ b't'
    ∷ b']' ∷ []

abbrev pub powerresource_text : List ℕ
powerresource_text =
    b'[' ∷ b'P' ∷ b'o' ∷ b'w' ∷ b'e' ∷ b'r' ∷ b' ' ∷ b'O' ∷ b'b' ∷ b'j' ∷ b'e' ∷ b'c' ∷ b't' ∷ b']'
    ∷ []

abbrev pub processor_text : List ℕ
processor_text =
    b'[' ∷ b'P' ∷ b'r' ∷ b'o' ∷ b'c' ∷ b'e' ∷ b's' ∷ b's' ∷ b'o' ∷ b'r' ∷ b' ' ∷ b'O' ∷ b'b' ∷ b'j'
    ∷ b'e' ∷ b'c' ∷ b't' ∷ b']' ∷ []

abbrev pub thermalzone_text : List ℕ
thermalzone_text =
    b'[' ∷ b'T' ∷ b'h' ∷ b'e' ∷ b'r' ∷ b'm' ∷ b'a' ∷ b'l' ∷ b' ' ∷ b'Z' ∷ b'o' ∷ b'n' ∷ b'e' ∷ b']'
    ∷ []

-- `lai_obj_to_type_string` copies one of these texts, with its terminator.
unfoldable pub type_string : (room : Bool) → Heap → (target : Var) → NodeType → Run Filled
unfolding create_filled
type_string room h target NodeType.field = create_filled room h 14 (field_text ++ 0 ∷ [])
type_string room h target NodeType.device = create_filled room h 15 (device_text ++ 0 ∷ [])
type_string room h target NodeType.event = create_filled room h 14 (event_text ++ 0 ∷ [])
type_string room h target NodeType.mutex = create_filled room h 14 (mutex_text ++ 0 ∷ [])
type_string room h target NodeType.opregion = create_filled room h 15 (opregion_text ++ 0 ∷ [])
type_string room h target NodeType.powerresource =
    create_filled room h 14 (powerresource_text ++ 0 ∷ [])
type_string room h target NodeType.processor = create_filled room h 18 (processor_text ++ 0 ∷ [])
type_string room h target NodeType.thermalzone =
    create_filled room h 14 (thermalzone_text ++ 0 ∷ [])
type_string room h target other = ok (illegal_arguments, target, h)

-- `lai_obj_resize_buffer`
unfoldable pub resize_buffer : (room : Bool) → Heap → Var → (size : ℕ) → Run (ApiError × Heap)
unfolding buffer_access write_buffer
resize_buffer room h (buffer p) size = buffer_access h (buffer p) >>= λ content.
    if ltb (length content) size
    then (if room
        then (write_buffer h (buffer p) (content ++ replicate (size - length content) 0) >>= λ h'.
            ok (no_error, h'))
        else ok (out_of_memory, h))
    else (write_buffer h (buffer p) (take size content) >>= λ h'. ok (no_error, h'))
resize_buffer room h other size = ok (type_mismatch, h)

-- `lai_obj_resize_pkg`: the elements past the end are finalized, with `fuel` as for
-- `lai_var_finalize`; the elements move to a larger array, whose elements are empty before.
unfoldable pub resize_pkg : (fuel : ℕ) (room : Bool) → Heap → Var → (n : ℕ) → Run (ApiError × Heap)
unfolding pkg_elems write_pkg free_elems var_finalize
resize_pkg fuel room h (pkg p) n = pkg_elems h (pkg p) >>= λ elems.
    if leb n (length elems)
    then (free_elems (var_finalize fuel) h p (length elems - n) n >>= λ h'.
        pkg_elems h' (pkg p) >>= λ left.
        write_pkg h' (pkg p) (take n left) >>= λ h''. ok (no_error, h''))
    else if room
    then (write_pkg h (pkg p) (elems ++ replicate (n - length elems) empty_var) >>= λ h'.
        ok (no_error, h'))
    else ok (out_of_memory, h)
resize_pkg fuel room h other n = ok (type_mismatch, h)

-- `lai_obj_get_pkg` to a variable with the content `out`.
unfoldable pub obj_get_pkg : Heap → (object : Var) (i : ℕ) (out : Var) → Run Filled
unfolding pkg_elems assign_value
obj_get_pkg h (pkg p) i out = pkg_elems h (pkg p) >>= λ elems.
    if leb (length elems) i
    then ok (out_of_bounds, out, h)
    else (read elems i >>= λ elem. assign_value h out elem >>= λ r. ok (no_error, r.0, r.1))
obj_get_pkg h other i out = ok (type_mismatch, out, h)
