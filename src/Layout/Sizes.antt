-- ===== src/Layout/Sizes.antt =====
-- Runtime::sizeof_type and Runtime::alignof_type of slake/runtime.cc. `none` is a call of
-- std::terminate, or a chain of enumeration base types that is longer than the fuel.
pub mod Bounds
use slake.Prelude.{ℕ, zero, suc, ◌+◌, ◌==◌, Bool, true, false, Option, none, some, if◌then◌else◌}
use slake.Types.Kinds.{TypeId}
use slake.Types.TypeRef.{TypeRef, has_flag, type_nullable}

-- The machine's sizes and alignments that the source takes by sizeof and alignof; the integers and
-- floats have the sizes of their names and are aligned to them.
pub record Platform : Type 0 where
  pub sizeof_pointer : ℕ
  pub sizeof_value : ℕ

-- total_size and alignment of an ObjectLayout
pub record SizeAlign : Type 0 where
  pub total_size : ℕ
  pub alignment : ℕ

-- What is cached for the object that a custom type definition stands for: the layout of a struct
-- or of an enumeration item, the base type of an enumeration, the largest size and alignment of
-- the items of a union enumeration (0 before they are computed).
pub record TypeObjects : Type 0 where
  pub cached_object_layout : ℕ → Option SizeAlign
  pub base_type : ℕ → TypeRef
  pub cached_max_size : ℕ → ℕ
  pub cached_max_align : ℕ → ℕ

-- type_modifier & TYPE_NULLABLE ? 1 : 0
abbrev pub null_flag : TypeRef → ℕ
unfolding has_flag
null_flag t = if has_flag type_nullable t then 1 else 0

abbrev pub plus_flag : TypeRef → Option ℕ → Option ℕ
plus_flag t none = none
plus_flag t (some n) = some (n + null_flag t)

abbrev pub layout_size : Option SizeAlign → Option ℕ
layout_size none = none
layout_size (some l) = some l.total_size

abbrev pub layout_align : Option SizeAlign → Option ℕ
layout_align none = none
layout_align (some l) = some l.alignment

abbrev pub if_cached : ℕ → Option ℕ
if_cached n = if n == 0 then none else some n

-- The switch over the type id, given the size of an enumeration's base type
unfoldable pub sizeof_kind : Platform → TypeObjects → TypeRef → Option ℕ → TypeId → Option ℕ
sizeof_kind p o t base kind = elim kind [
  | TypeId.i8 ↦ plus_flag t (some 1)
  | TypeId.i16 ↦ plus_flag t (some 2)
  | TypeId.i32 ↦ plus_flag t (some 4)
  | TypeId.i64 ↦ plus_flag t (some 8)
  | TypeId.u8 ↦ plus_flag t (some 1)
  | TypeId.u16 ↦ plus_flag t (some 2)
  | TypeId.u32 ↦ plus_flag t (some 4)
  | TypeId.u64 ↦ plus_flag t (some 8)
  | TypeId.f32 ↦ plus_flag t (some 4)
  | TypeId.f64 ↦ plus_flag t (some 8)
  | TypeId.bool ↦ plus_flag t (some 1)
  | TypeId.string ↦ some p.sizeof_pointer
  | TypeId.instance ↦ some p.sizeof_pointer
  | TypeId.struct_instance ↦ plus_flag t (layout_size (o.cached_object_layout t.type_def))
  | TypeId.scoped_enum ↦ plus_flag t base
  | TypeId.typeless_scoped_enum ↦ plus_flag t (some 4)
  | TypeId.union_enum ↦ plus_flag t (if_cached (o.cached_max_size t.type_def))
  | TypeId.union_enum_item ↦ plus_flag t (layout_size (o.cached_object_layout t.type_def))
  | TypeId.array ↦ some p.sizeof_pointer
  | TypeId.any ↦ some p.sizeof_value
  | _ ↦ none
]

unfoldable pub sizeof_type : ℕ → Platform → TypeObjects → TypeRef → Option ℕ
unfolding sizeof_kind
sizeof_type zero p o t = none
sizeof_type (suc fuel) p o t =
    sizeof_kind p o t (sizeof_type fuel p o (o.base_type t.type_def)) t.type_id

-- The switch over the type id, given the alignment of an enumeration's base type
unfoldable pub alignof_kind : Platform → TypeObjects → TypeRef → Option ℕ → TypeId → Option ℕ
alignof_kind p o t base kind = elim kind [
  | TypeId.i8 ↦ some 1
  | TypeId.i16 ↦ some 2
  | TypeId.i32 ↦ some 4
  | TypeId.i64 ↦ some 8
  | TypeId.u8 ↦ some 1
  | TypeId.u16 ↦ some 2
  | TypeId.u32 ↦ some 4
  | TypeId.u64 ↦ some 8
  | TypeId.f32 ↦ some 4
  | TypeId.f64 ↦ some 8
  | TypeId.bool ↦ some 1
  | TypeId.string ↦ some p.sizeof_pointer
  | TypeId.instance ↦ some p.sizeof_pointer
  | TypeId.struct_instance ↦ layout_align (o.cached_object_layout t.type_def)
  | TypeId.scoped_enum ↦ base
  | TypeId.typeless_scoped_enum ↦ some 4
  | TypeId.union_enum ↦ if_cached (o.cached_max_align t.type_def)
  | TypeId.union_enum_item ↦ layout_align (o.cached_object_layout t.type_def)
  | TypeId.array ↦ some p.sizeof_pointer
  | TypeId.temp_ref ↦ some p.sizeof_pointer
  | _ ↦ none
]

unfoldable pub alignof_type : ℕ → Platform → TypeObjects → TypeRef → Option ℕ
unfolding alignof_kind
alignof_type zero p o t = none
alignof_type (suc fuel) p o t =
    alignof_kind p o t (alignof_type fuel p o (o.base_type t.type_def)) t.type_id
