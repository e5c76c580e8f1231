-- ===== src/Lib.antt =====
-- Verification of lai, the Lightweight AML Interpreter: the namespace that ACPI tables build up,
-- the names by which AML code refers to it, the fields of operation regions, and of the
-- interpreter its objects and their conversions, its stacks, its mutexes and events, its reader
-- of AML code and its arithmetic.
--
-- The parts. AML code holds names (core/ns.c, lai_amlname_parse and its fellows) that the
-- interpreter resolves against a tree of nodes (core/ns.c, lai_do_resolve, lai_resolve_path,
-- lai_resolve_search). Each node finds its children in a hash table (core/util-hash.h), under the
-- hashes of their names. A field node gives access to hardware through an operation region
-- (core/opregion.c), bit by bit. The interpreter reads integers and names from the code
-- (core/exec.c), keeps its state on four stacks (core/exec_impl.h) and computes with objects:
-- strings, buffers and packages are shared by counted references (core/variable.c) and converted
-- into each other (core/object.c), with the help of a formatter (core/vsnprintf.c).
--
-- The files.
--
--   Base: names of the libraries, list and number lemmas; Base/Panic: the results of a C
--     function, which returns, or ends in lai_panic, or runs into a fault, an access that C
--     leaves undefined.
--   Bits: binary digits of words under and, or and shifts.
--   HashTable (core/util-hash.h): struct lai_hashtable is the record HashTable;
--     lai_hashtable_grow is grow, lai_hashtable_insert is insert, lai_hashtable_chain_advance,
--     _get and _remove are advance, chain_get and chain_remove. HashTable/Invariant says when a
--     table is well formed, HashTable/Search has the loop by which the clients search a chain.
--   AmlName (core/ns.c): lai_amlname_parse, _done and _iterate and lai_stringify_amlname;
--     AmlName/Path has the names themselves and their encoding in AML.
--   Namespace (core/ns.c): struct lai_nsnode is Node and struct lai_instance is Namespace;
--     lai_install_nsnode and lai_ns_get_child are install_nsnode and get_child; Namespace/Remove
--     has lai_uninstall_nsnode, Namespace/Resolve has lai_do_resolve and lai_resolve_search,
--     Namespace/Strings has lai_resolve_path, Namespace/Aliases says which node stands for an
--     alias, Namespace/Create has lai_do_resolve_new_node, lai_resolve_new_node and
--     lai_create_root. Namespace/Invariant says when a namespace is well formed.
--   Namespace/Iterate (core/ns.c): lai_ns_iterate and lai_ns_child_iterate, lai_ns_get_node_type.
--   OpRegion (core/opregion.c): OpRegion/Buffer has lai_buffer_put_at and lai_buffer_get_at,
--     OpRegion/Field has lai_calculate_access_width, lai_read_field_internal and
--     lai_write_field_internal, OpRegion/Values has lai_read_field, lai_write_field,
--     lai_read_opregion and lai_write_opregion with bank and index fields. OpRegion/Perform has
--     lai_perform_read and lai_perform_write over the functions of the host, which make a region
--     the device of its fields.
--   PcBios (helpers/pc-bios.c): lai_bios_calc_checksum, lai_bios_detect_rsdp_within and
--     lai_bios_detect_rsdp; PcBios/Rounds says what a root pointer is.
--   Reduce (core/exec.c): the cases of lai_exec_reduce_op that compute with integers;
--     lai_operand_mutate is an entry of the list of stores.
--   Objects (core/variable.c, include/lai/internal-exec.h, include/lai/internal-util.h):
--     lai_variable_t is Var, the heads of strings, buffers and packages stand in a Heap of cells
--     with reference counts; lai_rc_ref, lai_rc_unref and lai_var_finalize are rc_ref, rc_unref
--     and var_finalize; Objects/Vars has lai_swap_object, lai_var_move and lai_var_assign.
--   Convert (core/object.c): lai_create_string and its fellows, and the access to content;
--     Convert/Clone has lai_obj_clone, Convert/Buffers lai_obj_to_buffer and lai_mutate_buffer,
--     Convert/Integers lai_obj_to_integer and lai_mutate_integer, Convert/Strings
--     lai_obj_to_string, lai_obj_to_decimal_string, lai_obj_to_hex_string, lai_obj_resize_string
--     and lai_mutate_string, Convert/Match lai_obj_exec_match_op, Convert/Kinds the types of
--     objects, lai_obj_resize_buffer, lai_obj_resize_pkg and lai_obj_get_pkg. Convert/Order has
--     the order of sequences of bytes.
--   Printf (core/vsnprintf.c): lai_vsnprintf, num_fmt and lai_snprintf.
--   AmlCode (core/exec.c): lai_parse_varint, lai_parse_u8 to lai_parse_u64 and lai_parse_name;
--     AmlCode/Lengths has the encoding of lengths.
--   ExecStack (core/exec_impl.h, core/exec.c): the operations that the four stacks of lai_state_t
--     share; ExecStack/State has them on lai_state_t, ExecStack/Finalize has lai_init_state and
--     lai_finalize_state. A pointer counts the items below it.
--   Sync (core/exec_impl.h): lai_mutex_lock and lai_mutex_unlock in Sync/Mutex, lai_event_wait,
--     lai_event_signal and lai_event_reset in Sync/Event. One atomic access is one step of a
--     thread, and a run interleaves the steps of any number of threads.
--   Operands (core/exec-operand.c): lai_exec_access, lai_store_ns, lai_exec_mutate_ns,
--     lai_exec_ref_load and lai_exec_ref_store, lai_operand_load, lai_operand_mutate and
--     lai_operand_emplace, on a World of the heap, the variables of the invocations and the
--     nodes; lai_read_opregion and lai_write_opregion are parameters here.
--   BufferField (core/exec-operand.c): lai_write_buffer and lai_read_buffer.
--   Resource (helpers/resource.c): struct lai_resource_view is View; lai_resource_iterate,
--     lai_resource_get_type and lai_resource_next_irq are resource_iterate, resource_get_type and
--     resource_next_irq; Resource/Template has lai_read_resource.
--   Ec (drivers/ec.c): struct lai_ec_driver is Driver; lai_read_ec, lai_write_ec and lai_query_ec
--     are read_ec, write_ec and query_ec, lai_ec_opregion_override is region_read and
--     region_write; Ec/Init has lai_early_init_ec and lai_init_ec. The ports are a parameter, and
--     Ec/Controller says when a controller behind them keeps to the protocol.
--   Tests: the theorems at concrete inputs.
--
-- The model. A node is its index in the list of all nodes that have been allocated, and a null
-- pointer is none; nodes that the interpreter frees are not reused. A hash is the 32-bit pattern
-- of the int. Objects are cells at addresses that are never used again: an access through a
-- pointer to a freed or never allocated cell is a fault. Where bytes and integers meet, the
-- machine is little-endian. A size_t, an unsigned int and a reference count that the code only
-- counts with are natural numbers without a bound, a capacity of a stack that is doubled past an
-- int is a fault, and the 32-bit hash, the 64-bit values and the bytes of buffers wrap as they do
-- in C. Memory can run out: the argument room says whether the host's allocations succeed; when
-- they do not, a function of the model returns the error or panics, as its source does.
--
-- Loops and fuel. The walk along a chain has one round more than there are buckets, the climb to
-- the root as many rounds as the index of the node plus one, since a parent is older than its
-- children, the walk down a name one round per segment, that of a string one round per character,
-- and the loops over bits one round per bit plus one, the search for the root pointer one round
-- per byte of the window plus one, var_finalize one round more than there are cells, and the
-- formatter one round per character of the format plus one. The fuel of obj_clone bounds the
-- nesting of packages and is an argument, and so is the patience of the driver of the embedded
-- controller, the number of looks at its status. Fuel that runs out is a panic, and the theorems
-- that a function returns show that it does not.
--
-- The loops over fields take the device of a region as a parameter; the theorems on fields ask
-- that it is a memory of bits (IsMemory in OpRegion/FieldRead), which OpRegion/Mapped is about
-- for regions in memory; Tests/Memory has such devices. The functions of the host (laihost_map,
-- laihost_inb and their fellows) are outside the repository and are the record Host; so is the
-- evaluation of the PCI parameters of a region (lai_get_pci_params), which runs AML. The bytes
-- that the search for the root pointer reads are a list, as the host's mapping gives it. The
-- theorems on fields leave out the access by 64 bits, at which the code shifts by 64 when a field
-- fills an access, which C does not define: the model has a fault there.
--
-- Not modelled: the control flow of the interpreter (lai_exec_process, lai_exec_parse and the
-- cases of lai_exec_reduce_op on other objects than integers), lai_obj_get_type and
-- lai_obj_get_handle, the evaluation of _CRS, PCI routing, power management, the SCI and the PM
-- timer, and the log messages of the modelled functions. The host's functions are outside the
-- repository.
pub mod Base
pub mod Bits
pub mod HashTable
pub mod AmlName
pub mod Namespace
pub mod OpRegion
pub mod Reduce
pub mod Objects
pub mod Printf
pub mod BufferField
pub mod Convert
pub mod AmlCode
pub mod Operands
pub mod ExecStack
pub mod Sync
pub mod PcBios
pub mod Resource
pub mod Ec
pub mod Tests
