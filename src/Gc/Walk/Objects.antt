-- ===== src/Gc/Walk/Objects.antt =====
-- Runtime::_gc_walk(context, Object *) of rt/gc_heapless.cc: what is visited per object kind.
use slake.Prelude.{ℕ, ◌+◌, Option, none, some, List, [], ◌∷◌, ◌==◌, if◌then◌else◌}
use slake.Types.Kinds.{TypeId, type_code}
use slake.Types.TypeRef.{TypeRef}
use slake.Types.Reference.{Reference, ReferenceKind}
use slake.Types.Value.{Value}
use slake.Gc.Heap.{
  Memory, Object, TypeDef, MethodTable, GenericParam, BasicModule, OverloadingKind, FnOverloading,
  IdRef, ObjectField,
}
use slake.Gc.Walk.{
  Visits, walk, nothing, push_object, for_each, ◌⨾◌, walk_type, walk_method_table,
  walk_generic_param_list, walk_generic_params, walk_context,
}

-- case ObjectKind::TypeDef
unfoldable pub walk_type_def : TypeDef → Visits
walk_type_def d = elim d [
  | TypeDef.custom_type_def type_object ↦ push_object type_object
  | TypeDef.array_type_def element_type ↦ push_object element_type
  | TypeDef.ref_type_def referenced_type ↦ push_object referenced_type
  | TypeDef.generic_arg_type_def owner name ↦ push_object owner ⨾ push_object name
  | TypeDef.fn_type_def return_type params ↦ push_object return_type ⨾ for_each push_object params
  | TypeDef.param_type_list_type_def params ↦ for_each push_object params
  | TypeDef.tuple_type_def elements ↦ for_each push_object elements
  | TypeDef.simd_type_def t ↦ push_object t
  | TypeDef.unpacking_type_def t ↦ push_object t
  | TypeDef.other_type_def ↦ none
]

-- case ObjectKind::Instance: the fields whose type is a string, an instance, an array or a
-- reference hold an object's address.
unfoldable pub walk_instance_field : (ℕ → ℕ) → ObjectField → Visits
walk_instance_field raw_field_data i = elim i.field_type.type_id [
  | TypeId.string ↦ push_object (raw_field_data i.offset)
  | TypeId.instance ↦ push_object (raw_field_data i.offset)
  | TypeId.array ↦ push_object (raw_field_data i.offset)
  | TypeId.ref ↦ push_object (raw_field_data i.offset)
  | _ ↦ nothing
]

unfoldable pub walk_instance : Memory → ℕ → (ℕ → ℕ) → Visits
unfolding walk_instance_field
walk_instance memory class_ raw_field_data = push_object class_ ⨾ elim (memory.layout_of class_) [
  | none ↦ nothing
  | some fields ↦ for_each (walk_instance_field raw_field_data) fields
]

-- case ObjectKind::Array: the elements of an array of instances are walked, no others.
unfoldable pub walk_array : TypeRef → List ℕ → Visits
walk_array element_type data_ =
    walk_type element_type
    ⨾ elim element_type.type_id [ TypeId.instance ↦ for_each push_object data_ | _ ↦ nothing ]

-- StaticFieldRef(owner, i)
abbrev static_field : ℕ → ℕ → Reference
static_field owner i = record {
  kind = ReferenceKind.static_field_ref;
  pointer = owner;
  index = i;
  struct_field_index = 0;
}

module _ (walk_value : Value → Visits) (memory : Memory) where
  -- The loops over field_records: the value of each static field, and its type before it where
  -- `typed` walks it.
  unfoldable pub walk_fields : (TypeRef → Visits) → ℕ → ℕ → List TypeRef → Visits
  walk_fields typed owner i [] = nothing
  walk_fields typed owner i (t ∷ ts) =
      typed t
      ⨾ walk_value (memory.read_var (static_field owner i))
      ⨾ walk_fields typed owner (i + 1) ts

  abbrev untyped : TypeRef → Visits
  untyped t = nothing

  abbrev walk_members : BasicModule → Visits
  walk_members m = for_each push_object m.members ⨾ push_object m.parent

  -- case ObjectKind::Module
  unfoldable pub walk_module : ℕ → BasicModule → List ℕ → Visits
  unfolding walk_fields
  walk_module v m unnamed_imports =
      for_each push_object m.members
      ⨾ walk_fields untyped v 0 m.field_types
      ⨾ push_object m.parent
      ⨾ for_each push_object unnamed_imports

  -- case ObjectKind::Class
  unfoldable pub walk_class :
      ℕ
      → BasicModule
      → Option MethodTable
      → List TypeRef
      → List GenericParam
      → List TypeRef
      → TypeRef
      → Visits
  unfolding walk_fields walk_method_table walk_generic_params walk_generic_param_list
  walk_class v m mt impl_types generic_params generic_args base_type =
      walk_members m
      ⨾ walk_method_table mt
      ⨾ walk_fields walk_type v 0 m.field_types
      ⨾ for_each walk_type impl_types
      ⨾ walk_generic_params generic_params
      ⨾ for_each walk_type generic_args
      ⨾ walk_type base_type
      ⨾ walk_generic_param_list generic_params

  -- case ObjectKind::Struct
  unfoldable pub walk_struct : ℕ → BasicModule → List GenericParam → List TypeRef → Visits
  unfolding walk_fields walk_generic_params walk_generic_param_list
  walk_struct v m generic_params generic_args =
      walk_members m
      ⨾ walk_fields walk_type v 0 m.field_types
      ⨾ walk_generic_params generic_params
      ⨾ for_each walk_type generic_args
      ⨾ walk_generic_param_list generic_params

  -- case ObjectKind::ScopedEnum
  unfoldable pub walk_scoped_enum : ℕ → BasicModule → TypeRef → Visits
  unfolding walk_fields
  walk_scoped_enum v m base_type =
      walk_members m
      ⨾ (if type_code base_type.type_id == 0
          then nothing
          else walk_fields walk_type v 0 m.field_types)

  -- case ObjectKind::UnionEnum
  unfoldable pub walk_union_enum : BasicModule → List GenericParam → List TypeRef → Visits
  unfolding walk_generic_params walk_generic_param_list
  walk_union_enum m generic_params generic_args =
      walk_members m
      ⨾ walk_generic_params generic_params
      ⨾ for_each walk_type generic_args
      ⨾ walk_generic_param_list generic_params

  -- case ObjectKind::UnionEnumItem
  unfoldable pub walk_union_enum_item : ℕ → BasicModule → Visits
  unfolding walk_fields
  walk_union_enum_item v m = push_object m.parent ⨾ walk_fields walk_type v 0 m.field_types

  -- case ObjectKind::Interface
  unfoldable pub walk_interface :
      ℕ → BasicModule → List TypeRef → List GenericParam → List TypeRef → Visits
  unfolding walk_fields walk_generic_params walk_generic_param_list
  walk_interface v m impl_types generic_params generic_args =
      walk_members m
      ⨾ walk_fields untyped v 0 m.field_types
      ⨾ for_each walk_type impl_types
      ⨾ walk_generic_params generic_params
      ⨾ for_each walk_type generic_args
      ⨾ walk_generic_param_list generic_params

-- case ObjectKind::FnOverloading: the pooled objects of a regular function are walked at once,
-- its pooled types are pushed.
unfoldable pub walk_overloading_kind : OverloadingKind → Visits
walk_overloading_kind k = elim k [
  | OverloadingKind.regular objects types ↦
      for_each (λ i. some (walk i ∷ [])) objects ⨾ for_each walk_type types
  | OverloadingKind.native ↦ nothing
  | OverloadingKind.invalid_overloading ↦ none
]

unfoldable pub walk_fn_overloading : FnOverloading → Visits
unfolding walk_overloading_kind walk_generic_params walk_generic_param_list
walk_fn_overloading f =
    push_object f.fn_object
    ⨾ walk_generic_params f.generic_params
    ⨾ for_each walk_type f.mapped_generic_args
    ⨾ for_each walk_type f.param_types
    ⨾ walk_type f.return_type
    ⨾ walk_overloading_kind f.overloading_kind
    ⨾ walk_generic_param_list f.generic_params

-- case ObjectKind::IdRef
unfoldable pub walk_id_ref : IdRef → Visits
walk_id_ref i =
    for_each (for_each walk_type) i.entries
    ⨾ elim i.param_types [ none ↦ nothing | some types ↦ for_each walk_type types ]

-- The switch over the object kind; the kinds it does not name end in the panic of its default.
unfoldable pub visits_of : (Value → Visits) → Memory → ℕ → Object → Visits
unfolding walk_type_def walk_instance walk_array walk_module walk_class walk_struct walk_scoped_enum
    walk_union_enum walk_union_enum_item walk_interface walk_fn_overloading walk_id_ref walk_context
visits_of walk_value memory v object = elim object [
  | Object.string ↦ nothing
  | Object.heap_type t ↦ walk_type t
  | Object.type_def d ↦ walk_type_def d
  | Object.instance_of c raw ↦ walk_instance memory c raw
  | Object.array t data_ ↦ walk_array t data_
  | Object.module_object m imports ↦ walk_module walk_value memory v m imports
  | Object.class_object m mt impls ps args base ↦
      walk_class walk_value memory v m mt impls ps args base
  | Object.struct_object m ps args ↦ walk_struct walk_value memory v m ps args
  | Object.scoped_enum m base ↦ walk_scoped_enum walk_value memory v m base
  | Object.union_enum m ps args ↦ walk_union_enum walk_value memory m ps args
  | Object.union_enum_item m ↦ walk_union_enum_item walk_value memory v m
  | Object.interface m impls ps args ↦ walk_interface walk_value memory v m impls ps args
  | Object.fn parent overloadings ↦ push_object parent ⨾ for_each push_object overloadings
  | Object.fn_overloading f ↦ walk_fn_overloading f
  | Object.id_ref i ↦ walk_id_ref i
  | Object.context_object frames ↦ walk_context walk_value frames
  | Object.other_object ↦ none
]

-- _gc_walk(context, Object *) of a ready object: the visits of the object at an address
unfoldable pub object_visits : (Value → Visits) → Memory → ℕ → Visits
unfolding visits_of
object_visits walk_value memory v = visits_of walk_value memory v (memory.object_at v)
