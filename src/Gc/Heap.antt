-- ===== src/Gc/Heap.antt =====
-- The objects the collector walks: the parts of each object kind of slake/obj that
-- rt/gc_heapless.cc reads. A pointer is its address, nullptr is 0.
use slake.Prelude.{ℕ, Option, List}
use slake.Types.TypeRef.{TypeRef}
use slake.Types.Reference.{Reference}
use slake.Types.Value.{Value}

-- MethodTable
pub record MethodTable : Type 0 where
  pub methods : List ℕ
  pub destructors : List ℕ

-- GenericParam
pub record GenericParam : Type 0 where
  pub base_type : TypeRef
  pub interfaces : List TypeRef

-- The TypeDefKind of a TypeDefObject with the pointers of its class.
pub data TypeDef : Type 0 where
  custom_type_def array_type_def ref_type_def : ℕ → TypeDef
  generic_arg_type_def : ℕ → ℕ → TypeDef
  fn_type_def : ℕ → List ℕ → TypeDef
  param_type_list_type_def tuple_type_def : List ℕ → TypeDef
  simd_type_def unpacking_type_def : ℕ → TypeDef
  other_type_def : TypeDef

-- BasicModuleObject: its members, its parent and the types of its field records.
pub record BasicModule : Type 0 where
  pub members : List ℕ
  pub parent : ℕ
  pub field_types : List TypeRef

-- FnOverloadingKind with the pools of a RegularFnOverloadingObject
pub data OverloadingKind : Type 0 where
  regular : List ℕ → List TypeRef → OverloadingKind
  native : OverloadingKind
  invalid_overloading : OverloadingKind

-- FnOverloadingObject
pub record FnOverloading : Type 0 where
  pub fn_object : ℕ
  pub generic_params : List GenericParam
  pub mapped_generic_args : List TypeRef
  pub param_types : List TypeRef
  pub return_type : TypeRef
  pub overloading_kind : OverloadingKind

-- IdRefObject: the generic arguments of its entries and its parameter types.
pub record IdRef : Type 0 where
  pub entries : List (List TypeRef)
  pub param_types : Option (List TypeRef)

-- ObjectFieldRecord
pub record ObjectField : Type 0 where
  pub field_type : TypeRef
  pub offset : ℕ

-- MajorFrame: the values behind its offsets into the data stack. A frame of a regular function
-- has Object and Any registers, one without a current function the register of the outermost call.
pub data FrameRegisters : Type 0 where
  regular_registers : List ℕ → List Value → FrameRegisters
  no_registers : FrameRegisters
  outermost : Value → FrameRegisters

pub record MajorFrame : Type 0 where
  pub cur_fn : ℕ
  pub cur_coroutine : ℕ
  pub this_object : ℕ
  pub args : List Value
  pub next_args : List Value
  pub except_handlers : List (List TypeRef)
  pub registers : FrameRegisters

-- The object kinds with what is walked of them.
pub data Object : Type 0 where
  string : Object
  heap_type : TypeRef → Object
  type_def : TypeDef → Object
  instance_of : ℕ → (ℕ → ℕ) → Object
  array : TypeRef → List ℕ → Object
  module_object : BasicModule → List ℕ → Object
  class_object :
      BasicModule
      → Option MethodTable
      → List TypeRef
      → List GenericParam
      → List TypeRef
      → TypeRef
      → Object
  struct_object : BasicModule → List GenericParam → List TypeRef → Object
  scoped_enum : BasicModule → TypeRef → Object
  union_enum : BasicModule → List GenericParam → List TypeRef → Object
  union_enum_item : BasicModule → Object
  interface : BasicModule → List TypeRef → List GenericParam → List TypeRef → Object
  fn : ℕ → List ℕ → Object
  fn_overloading : FnOverloading → Object
  id_ref : IdRef → Object
  context_object : List MajorFrame → Object
  other_object : Object

-- The memory a collection reads: the object at an address, the cached layout of a class, what
-- read_var finds behind a reference, and the frames of a context, the current one first.
pub record Memory : Type 0 where
  pub object_at : ℕ → Object
  pub layout_of : ℕ → Option (List ObjectField)
  pub read_var : Reference → Value
  pub frames_of : ℕ → List MajorFrame
