-- ===== src/Layout/Fields.antt =====
-- The layout of an object's fields, Runtime::init_object_layout_for_module of slake/rt/new.cc, and
-- the storage of static fields of slake/obj/module.cc. Names are numbers.
pub mod Objects
pub mod Statics
use Prim.Native.Nat.{bit_and, max}
use slake.Prelude.{
  ℕ, suc, ◌+◌, ◌-◌, ◌%◌, Bool, true, false, not, Option, none, some, List, [], ◌∷◌, ◌++◌, ◌==◌, ltb,
  if◌then◌else◌, length,
}
use slake.Types.TypeRef.{TypeRef}

-- FieldRecord
pub record FieldRecord : Type 0 where
  pub name : ℕ
  pub access_modifier : ℕ
  pub offset : ℕ
  pub type : TypeRef

-- ObjectFieldRecord
pub record ObjectFieldRecord : Type 0 where
  pub offset : ℕ
  pub idx_init_field_record : ℕ
  pub type : TypeRef
  pub name : ℕ

-- ObjectLayout, less its initial data
pub record ObjectLayout : Type 0 where
  pub field_records : List ObjectFieldRecord
  pub field_name_map : List (ℕ × ℕ)
  pub total_size : ℕ
  pub alignment : ℕ

-- access_modifier & ACCESS_STATIC
abbrev pub is_static : FieldRecord → Bool
is_static f = not (bit_and f.access_modifier 4 == 0)

-- The offset behind `size` bytes that the alignment asks for
unfoldable pub align_offset : ℕ → ℕ → ℕ
align_offset size align =
    if ltb 1 align
    then (if size % align == 0 then size else size + (align - size % align))
    else size

abbrev pub then_layout :
    Option ObjectLayout → (ObjectLayout → Option ObjectLayout) → Option ObjectLayout
then_layout none next = none
then_layout (some l) next = next l

module _ (sizeof_type alignof_type : TypeRef → Option ℕ) where
  -- One field with its index, its size and its alignment
  unfoldable pub add_field :
      ℕ → FieldRecord → Option ℕ → Option ℕ → ObjectLayout → Option ObjectLayout
  unfolding align_offset
  add_field i f (some size) (some align) l = some (record {
    field_records =
        l.field_records
        ++ record {
          offset = align_offset l.total_size align;
          idx_init_field_record = i;
          type = f.type;
          name = f.name;
        }
          ∷ [];
    field_name_map = (f.name, length l.field_records) ∷ l.field_name_map;
    total_size = align_offset l.total_size align + size;
    alignment = max align l.alignment;
  })
  add_field i f _ _ l = none

  -- The loop over the field records
  unfoldable pub init_object_layout : ℕ → List FieldRecord → ObjectLayout → Option ObjectLayout
  unfolding add_field
  init_object_layout i [] l = some l
  init_object_layout i (f ∷ rest) l =
      if is_static f
      then init_object_layout (suc i) rest l
      else then_layout (add_field i f (sizeof_type f.type) (alignof_type f.type) l)
          (λ m. init_object_layout (suc i) rest m)

-- BasicModuleObject::append_field_space: the new size of the storage with the offset that is
-- returned, which is set again after its alignment. `resizes` tells whether the allocation does.
unfoldable pub append_field_space : Bool → ℕ → ℕ → ℕ → Option (ℕ × ℕ)
append_field_space resizes original_size size alignment =
    let padding =
      if ltb 1 alignment
      then (if original_size % alignment == 0
          then 0
          else size + (alignment - original_size % alignment))
      else 0 in
    if resizes then some (original_size + (padding + size), original_size) else none

-- append_typed_field_space, where a type without a size or an alignment terminates the program
abbrev pub append_typed : Bool → ℕ → Option ℕ → Option ℕ → Option (ℕ × ℕ)
unfolding append_field_space
append_typed resizes storage (some size) (some align) =
    append_field_space resizes storage size align
append_typed resizes storage _ _ = none

abbrev pub then_space :
    Option (ℕ × ℕ) → (ℕ × ℕ → Option (ℕ × List FieldRecord)) → Option (ℕ × List FieldRecord)
then_space none next = none
then_space (some s) next = next s

abbrev pub add_placed :
    FieldRecord → ℕ → Option (ℕ × List FieldRecord) → Option (ℕ × List FieldRecord)
add_placed f begin_off none = none
add_placed f begin_off (some (total, placed)) =
    some (total, record f { offset = begin_off } ∷ placed)

module _ (sizeof_type alignof_type : TypeRef → Option ℕ) where
  -- BasicModuleObject::realloc_field_spaces with allocations that succeed: the size of the storage
  -- and the records with their offsets.
  unfoldable pub realloc_field_spaces : ℕ → List FieldRecord → Option (ℕ × List FieldRecord)
  unfolding append_field_space
  realloc_field_spaces storage [] = some (storage, [])
  realloc_field_spaces storage (f ∷ rest) =
      then_space (append_typed true storage (sizeof_type f.type) (alignof_type f.type))
        (λ s. add_placed f s.1 (realloc_field_spaces s.0 rest))
