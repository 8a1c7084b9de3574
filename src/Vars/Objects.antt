-- ===== src/Vars/Objects.antt =====
-- What slake/rt/var_access.cc reads of the objects behind a reference, and the memory that holds
-- the variables. A pointer is its address.
use slake.Prelude.{ℕ, ◌+◌, Bool, true, false, Option, none, some, List, get_or}
use slake.Types.Kinds.{TypeId, all_types}
use slake.Types.TypeRef.{TypeRef}
use slake.Types.Reference.{Reference, ReferenceKind}
use slake.Types.Value.{Value}
use slake.Layout.Fields.{FieldRecord, ObjectFieldRecord}
use slake.Frames.Stack.{DataStack}
use slake.Exec.Memory.{Memory}
use slake.Exec.Machine.{ValueBytes}

-- FnOverloadingObject: its parameters and OL_VARG
pub record Parameters : Type 0 where
  pub param_types : List TypeRef
  pub has_var_arg : Bool

-- MajorFrame with the stack of its context. `off_stack_top` is that of its coroutine, else 0.
pub record ArgFrame : Type 0 where
  pub cur_fn : Parameters
  pub stack : DataStack
  pub off_args : ℕ
  pub off_stack_top : ℕ

-- CoroutineObject: bound to a context, with the function of its bound frame and the current frame
-- there, or with a stack of its own.
pub data Binding : Type 0 where
  bound : DataStack → Parameters → ArgFrame → Binding
  unbound : DataStack → Parameters → Binding

pub record Coroutine : Type 0 where
  pub cur_context : Binding
  pub off_stack_top : ℕ

-- ArrayObject
pub record ArrayObject : Type 0 where
  pub element_type : TypeRef
  pub element_size : ℕ
  pub length : ℕ
  pub elements : ℕ

-- The objects by their addresses. `struct_fields` is `none` where the type object is no struct,
-- `enum_base` where it is no
-- enumeration; one without a base type has the type id Invalid there.
-- `is_compatible_type` is is_compatible on a value of a value type whose member is not set.
pub record World : Type 0 where
  pub module_fields : ℕ → List FieldRecord
  pub local_field_storage : ℕ → ℕ
  pub context_stack : ℕ → DataStack
  pub coroutine : ℕ → Coroutine
  pub instance_fields : ℕ → List ObjectFieldRecord
  pub raw_field_data : ℕ → ℕ
  pub array : ℕ → ArrayObject
  pub layout_fields : ℕ → List ObjectFieldRecord
  pub init_data : ℕ → ℕ
  pub frame : ℕ → ArgFrame
  pub struct_fields : ℕ → Option (List FieldRecord)
  pub enum_base : ℕ → Option TypeRef
  pub sizeof_type : TypeRef → Option ℕ
  pub is_compatible : TypeRef → Value → Bool
  pub is_compatible_type : TypeRef → ℕ → Bool
  pub load_reference : ℕ → Memory → Reference
  pub sizeof_reference : ℕ
  pub sizeof_value : ℕ
  pub value_bytes : ValueBytes sizeof_value

-- `none` is a call of std::terminate, an assertion that fails or an index out of range.
infixl 5 ◌>>=◌ ◌>>◌
abbrev pub ◌>>=◌ : {A B : Type 0} → Option A → (A → Option B) → Option B
none >>= f = none
some a >>= f = f a

abbrev pub ◌>>◌ : {B : Type 0} → Option (Unit {0}) → Option B → Option B
m >> k = m >>= λ _. k

abbrev pub require : Bool → Option (Unit {0})
require b = elim b [ true ↦ some tt | false ↦ none ]

-- The type id and the modifier in the two bytes of a local variable's header. A byte that is no
-- TypeId falls into the default of every switch, as TypeId::Unknown does.
abbrev pub type_at : ℕ → Memory → TypeId
type_at a m = get_or all_types (m a) TypeId.unknown

abbrev pub header : ℕ → Memory → TypeRef
header a m = record { type_id = type_at a m; type_modifier = m (a + 1); type_def = 0 }

-- The kind of a struct field's reference with bit 7 cleared
abbrev pub inner_kind : ReferenceKind → Option ReferenceKind
inner_kind ReferenceKind.static_field_struct_field_ref = some ReferenceKind.static_field_ref
inner_kind ReferenceKind.local_var_struct_field_ref = some ReferenceKind.local_var_ref
inner_kind ReferenceKind.coroutine_local_var_struct_field_ref =
    some ReferenceKind.coroutine_local_var_ref
inner_kind ReferenceKind.object_field_struct_field_ref = some ReferenceKind.object_field_ref
inner_kind ReferenceKind.array_element_struct_field_ref = some ReferenceKind.array_element_ref
inner_kind ReferenceKind.arg_struct_field_ref = some ReferenceKind.arg_ref
inner_kind ReferenceKind.coroutine_arg_struct_field_ref = some ReferenceKind.coroutine_arg_ref
inner_kind _ = none
