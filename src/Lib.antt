-- ===== src/Lib.antt =====
-- Slake, an embeddable statically typed language: the runtime of the repository's folder slake/.
--
-- The program's parts. A runtime owns objects (slake/obj), which the garbage collector
-- (slake/rt/gc.cc, gc_heapless.cc) walks, keeps or deallocates by generation. Types are references
-- to type definition objects (slake/type.h), values and references to variables are tagged unions
-- (slake/value.h), and both are keys of ordered containers through their three-way comparisons.
-- Modules, classes and structs place their fields by the sizes and alignments of the types
-- (slake/runtime.cc, slake/rt/new.cc, slake/obj/module.cc). Functions are overloaded by signature
-- (slake/obj/fn.cc, generic.cc, idref.cc) and run in major frames on the data stack of a context
-- (slake/obj/context.cc, slake/rt/exec.cc), on instructions whose operands are 64-bit words
-- (slake/obj/fn.h), with shifts and comparisons from slake/flib.
--
-- The modules. Prelude holds the shared names, the tests on numbers, the lists and the orders
-- (IsOrder is what an ordered container asks of its comparator). Words holds machine integers.
--   Flib        slake/flib/bitop.h (Bitop), slake/flib/cmp.h (Cmp), operands of slake/obj/fn.h (Operand)
--   Types       TypeId (Kinds), TypeRef, Reference and Value with their comparisons
--   Signatures  GenericArgListComparator, ParamListComparator, FnSignatureComparator, IdRefComparator
--   Layout      sizeof_type and alignof_type (Sizes), init_object_layout_for_module,
--               append_field_space and realloc_field_spaces (Fields)
--   Classes     ClassObject::is_base_of (Bases), has_implemented, is_derived_from and
--               update_inheritance_relationship of slake/obj/class.cc (Interfaces),
--               StructObject::is_recursed (Recursion: the turns in Walks and Nested, whole objects
--               in Fields, what is returned in Verdicts), the method tables of slake/rt/new.cc
--               (Methods)
--   Frames      Context::stack_alloc and its kin (Stack), _create_new_major_frame, _fill_args and
--               _leave_major_frame (Major)
--   Exec        the interpreter of slake/rt/exec.cc on a state (Machine) of bytes (Memory), frames
--               and the index of the next instruction: number types (Scalars) and C's arithmetic on
--               them (Arith), the opcodes and instructions (Opcode), the cases of _exec_ins by what
--               they do (Numeric, Shifts, Moves,
--               ObjectCasts, Calls, MinorFrames), the switch (Ins) and the loops of
--               exec_context (Loop). Effects has the rules for what an instruction changes.
--   Vars        typeof_var, read_var and write_var of slake/rt/var_access.cc: where a reference points
--               (Objects, Locate), Read and Write with Values, what holds of Locals, Fields and
--               Elements, default_value_of of slake/runtime.cc (Defaults), the interpreter's stores
--               and loads with them (Instructions) and _add_local_var of slake/rt/exec.cc (Creation)
--   Members     get_member of the objects, resolve_id_ref (Resolve) and get_full_ref (Paths) of
--               slake/rt/idref.cc, load_deferred_custom_type_def of slake/runtime.cc
--   Gc          the objects as the collector sees them (Heap), the overloads of _gc_walk (Walk and
--               Walk.Objects), GCWalkContext (Collection), the loop over the walkable lists (Mark),
--               the deletion (Sweep), _gc_serial as a whole (Serial) and gc() of slake/rt/gc.cc
--               (Generations)
--   Tests       examples of the theorems on concrete data
-- A function keeps its name in the source without the leading underscore; an overload or a switch
-- is named for what it handles. A pointer is its address, nullptr is 0. A call of std::terminate,
-- a panic and a read of deallocated memory are `none` where the definition's comment says so.
--
-- Integers are natural numbers. A pattern of w bits is a number below 2 ^ w, and wrapping is
-- written out in Flib and in the stack allocations. Elsewhere sizes and counters are taken as
-- small enough not to wrap: the fields' offsets, the collector's counter of objects.
--
-- Fuel. The walk of a value and of an object takes fuel for its depth, which counts references to
-- local variables and objects walked at once; the objects that the collection's theorem speaks of
-- are walked with the fuel given. The loop of the marking takes a round per list of walkable
-- objects: as many rounds as there are reached objects are enough. sizeof_type and alignof_type
-- take fuel for the chain of enumeration base types, find_def_object for the chain of parents,
-- is_base_of for the chain of base classes, update_inheritance_relationship for its loop.
-- is_recursed takes a turn of its loop per fuel, and its theorems give a number of turns that is
-- enough. LEAVE takes fuel for the chain of alloca records of a minor frame and is undefined
-- without; exec_context takes a number of turns of its loops, after which a run is not over.
-- get_full_ref takes a turn per parent, and more turns than there are parents are enough.
--
-- The interpreter. An instruction is an action: it goes on with a result, throws an exception, ends
-- the program or is undefined by C++, and the state stays as it was written also where it throws.
-- The registers are little-endian numbers in the bytes of the data stack, at the addresses that the
-- macros of exec.cc compute. The major and minor frames and the alloca records are kept apart from
-- the bytes, by their offsets. Signed overflow and a division by 0 are undefined.
--
-- Parameters. The order of names (a string comparison of the peff library), the sizes of the
-- machine and of the frame structures, is_compatible for arguments, the memory that read_var
-- reads, the overloadings of a function by signature and the instantiation of a generic object.
-- Of the interpreter: the floats of the machine, the bytes of a Value and those that the
-- construction of a frame leaves, read_var and write_var, the resolution of identifiers, the making
-- of instances and of local variables, native callbacks, the state of the thread and the collector.
-- Of the making of local variables: the sizes and alignments of types and of alloca records, the
-- preparation of the object behind a type and the layout of a struct. A map of a method table is a
-- list of its entries, found by the comparator of its keys. Allocations by the peff library succeed,
-- but for those on the data stack; is_recursed asks an allocator. What the allocators count after a
-- collection and whether the young one is still referred to are arguments of gc.
--
-- Not modelled: floats other than as bit patterns, exec_fn, coroutines in the interpreter and for
-- its local variables, exception handlers, the loader, generic instantiation, the optimiser, the
-- JIT compiler, threads and the parallel collector.
pub mod Prelude
pub mod Words
pub mod Flib
pub mod Types
pub mod Gc
pub mod Layout
pub mod Signatures
pub mod Frames
pub mod Tests
pub mod Classes
pub mod Exec
pub mod Vars
pub mod Members
