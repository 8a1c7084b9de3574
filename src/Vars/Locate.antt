-- ===== src/Vars/Locate.antt =====
-- _locate_value_base_ptr and _typeof_var of slake/rt/var_access.cc.
use slake.Prelude.{
  ℕ, ◌+◌, ◌*◌, ◌==◌, Bool, true, false, not, Option, none, some, ltb, get_elem?, if◌then◌else◌,
}
use slake.Types.Kinds.{TypeId}
use slake.Types.TypeRef.{TypeRef}
use slake.Types.Reference.{Reference, ReferenceKind}
use slake.Layout.Fields.{FieldRecord}
use slake.Frames.Stack.{calc_stack_addr}
use slake.Exec.Memory.{Memory, load}
use slake.Vars.Objects.{
  World, Parameters, Binding, bound, unbound, ◌>>=◌, ◌>>◌, require, type_at, header, inner_kind,
}

-- The local variables that _locate_value_base_ptr takes to have a type definition before the data
abbrev pub is_located_with_def : TypeId → Bool
is_located_with_def TypeId.instance = true
is_located_with_def TypeId.array = true
is_located_with_def TypeId.fn = true
is_located_with_def TypeId.struct_instance = true
is_located_with_def TypeId.ref = true
is_located_with_def _ = false

-- Those that _typeof_var and read_var take to have one
abbrev pub is_typed_with_def : TypeId → Bool
is_typed_with_def TypeId.union_enum = true
is_typed_with_def TypeId.union_enum_item = true
is_typed_with_def TypeId.typeless_scoped_enum = true
is_typed_with_def t = is_located_with_def t

abbrev pub any_type : TypeRef
any_type = record { type_id = TypeId.any; type_modifier = 0; type_def = 0 }

-- The type of an argument, Any behind the parameters
abbrev pub beyond : Bool → Option TypeRef
beyond true = some any_type
beyond false = none

abbrev pub param_type : Parameters → ℕ → Option TypeRef
param_type fn i = elim (get_elem? fn.param_types i) [
  | some t ↦ some t
  | none ↦ beyond fn.has_var_arg
]

abbrev pub bound_fn : Binding → Parameters
bound_fn (bound s fn f) = fn
bound_fn (unbound s fn) = fn

module _ (world : World) where
  -- calc_local_var_ref_stack_base_ptr
  abbrev pub local_base : Reference → ℕ
  local_base r = calc_stack_addr (world.context_stack r.pointer) r.index

  -- calc_coroutine_local_var_ref_stack_base_ptr
  abbrev pub coroutine_base : Reference → ℕ
  coroutine_base r = elim (world.coroutine r.pointer).cur_context [
    | bound s fn f ↦ calc_stack_addr s (r.index + (world.coroutine r.pointer).off_stack_top)
    | unbound s fn ↦ calc_stack_addr s r.index
  ]

  -- The data behind the header of a local variable
  abbrev pub local_data : ℕ → Memory → ℕ
  local_data base m = (if is_located_with_def (type_at base m) then base + 8 else base) + 2

  -- The cases of _locate_value_base_ptr that look at no other reference
  unfoldable pub locate_plain : Memory → Reference → ReferenceKind → Option ℕ
  locate_plain m r ReferenceKind.static_field_ref = do
    f ← get_elem? (world.module_fields r.pointer) r.index
    some (world.local_field_storage r.pointer + f.offset)
  locate_plain m r ReferenceKind.local_var_ref = some (local_data (local_base r) m)
  locate_plain m r ReferenceKind.coroutine_local_var_ref = some (local_data (coroutine_base r) m)
  locate_plain m r ReferenceKind.object_field_ref = do
    f ← get_elem? (world.instance_fields r.pointer) r.index
    some (world.raw_field_data r.pointer + f.offset)
  locate_plain m r ReferenceKind.array_element_ref = do
    require (ltb r.index (world.array r.pointer).length)
    some ((world.array r.pointer).elements + r.index * (world.array r.pointer).element_size)
  locate_plain m r ReferenceKind.init_object_layout_field_ref = do
    f ← get_elem? (world.layout_fields r.pointer) r.index
    require (not (world.init_data r.pointer == 0))
    some (world.init_data r.pointer + f.offset)
  locate_plain m r ReferenceKind.default_struct_value_ref = do
    require (not (world.init_data r.pointer == 0))
    some (world.init_data r.pointer)
  locate_plain m r _ = none

  -- The type of a local variable. The type definition is read where the header begins.
  abbrev pub local_type : ℕ → ℕ → Memory → TypeRef
  local_type base def m =
      if is_typed_with_def (type_at base m)
      then record (header base m) { type_def = load 8 def m }
      else header base m

  -- The cases of _typeof_var that look at no other reference
  unfoldable pub typeof_plain : Memory → Reference → ReferenceKind → Option TypeRef
  typeof_plain m r ReferenceKind.static_field_ref = do
    f ← get_elem? (world.module_fields r.pointer) r.index
    some f.type
  typeof_plain m r ReferenceKind.local_var_ref = some (local_type (local_base r) (local_base r) m)
  typeof_plain m r ReferenceKind.coroutine_local_var_ref =
      some (local_type (coroutine_base r) (coroutine_base r + 2) m)
  typeof_plain m r ReferenceKind.object_field_ref = do
    f ← get_elem? (world.instance_fields r.pointer) r.index
    some f.type
  typeof_plain m r ReferenceKind.array_element_ref = do
    require (ltb r.index (world.array r.pointer).length)
    some (world.array r.pointer).element_type
  typeof_plain m r ReferenceKind.arg_ref = param_type (world.frame r.pointer).cur_fn r.index
  typeof_plain m r ReferenceKind.coroutine_arg_ref =
      param_type (bound_fn (world.coroutine r.pointer).cur_context) r.index
  typeof_plain m r ReferenceKind.init_object_layout_field_ref = do
    f ← get_elem? (world.layout_fields r.pointer) r.index
    some f.type
  typeof_plain m r _ = none

  -- The field of the struct that the inner reference is to
  unfoldable pub struct_field : Memory → Reference → ReferenceKind → Option FieldRecord
  unfolding typeof_plain
  struct_field m r inner = do
    t ← typeof_plain m r inner
    fields ← world.struct_fields t.type_def
    get_elem? fields r.struct_field_index

  unfoldable pub locate_by : Memory → Reference → Option ReferenceKind → Option ℕ
  unfolding locate_plain struct_field
  locate_by m r none = locate_plain m r r.kind
  locate_by m r (some inner) = do
    f ← struct_field m r inner
    base ← locate_plain m r inner
    some (base + f.offset)

  -- _locate_value_base_ptr
  unfoldable pub locate_value_base_ptr : Memory → Reference → Option ℕ
  unfolding locate_by
  locate_value_base_ptr m r = locate_by m r (inner_kind r.kind)

  unfoldable pub typeof_by : Memory → Reference → Option ReferenceKind → Option TypeRef
  unfolding typeof_plain struct_field
  typeof_by m r none = typeof_plain m r r.kind
  typeof_by m r (some inner) = do f ← struct_field m r inner; some f.type

  -- typeof_var
  unfoldable pub typeof_var : Memory → Reference → Option TypeRef
  unfolding typeof_by
  typeof_var m r = typeof_by m r (inner_kind r.kind)
