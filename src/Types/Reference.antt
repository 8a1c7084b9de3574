-- ===== src/Types/Reference.antt =====
-- `Reference` of slake/value.h and its comparisons in type.cc. A reference is its kind, the
-- pointer and the index of the union's active member, and the struct field index; a pointer is its
-- address. `none` is a call of std::terminate.
pub mod Compare
use slake.Prelude.{
  ℕ, ◌-◌, ◌%◌, ◌^◌, Bool, true, false, not, Option, none, some, ◌==◌, ltb, if◌then◌else◌,
}

pub data ReferenceKind : Type 0 where
  invalid local_var_ref coroutine_local_var_ref array_element_ref arg_ref : ReferenceKind
  coroutine_arg_ref static_field_ref object_field_ref init_object_layout_field_ref : ReferenceKind
  default_struct_value_ref arg_pack_ref aot_ptr_ref : ReferenceKind
  local_var_struct_field_ref coroutine_local_var_struct_field_ref : ReferenceKind
  array_element_struct_field_ref arg_struct_field_ref : ReferenceKind
  coroutine_arg_struct_field_ref static_field_struct_field_ref : ReferenceKind
  object_field_struct_field_ref : ReferenceKind

-- The underlying uint8_t; a struct field reference has bit 7 of its inner kind set.
abbrev pub kind_code : ReferenceKind → ℕ
kind_code invalid = 0
kind_code local_var_ref = 1
kind_code coroutine_local_var_ref = 2
kind_code array_element_ref = 3
kind_code arg_ref = 4
kind_code coroutine_arg_ref = 5
kind_code static_field_ref = 6
kind_code object_field_ref = 7
kind_code init_object_layout_field_ref = 8
kind_code default_struct_value_ref = 9
kind_code arg_pack_ref = 10
kind_code aot_ptr_ref = 11
kind_code local_var_struct_field_ref = 129
kind_code coroutine_local_var_struct_field_ref = 130
kind_code array_element_struct_field_ref = 131
kind_code arg_struct_field_ref = 132
kind_code coroutine_arg_struct_field_ref = 133
kind_code static_field_struct_field_ref = 134
kind_code object_field_struct_field_ref = 135

pub record Reference : Type 0 where
  pub kind : ReferenceKind
  pub pointer : ℕ
  pub index : ℕ
  pub struct_field_index : ℕ

-- The array index is read through `as_static_field.index`, a uint32_t at the place of a size_t:
-- its low 32 bits on a little-endian machine.
abbrev pub low_index : Reference → ℕ
low_index r = r.index % 2 ^ 32

-- What is compared behind equal kinds: a pointer and an index, a pointer alone, or nothing.
pub data Comparand : Type 0 where
  pair : ℕ → ℕ → Comparand
  address : ℕ → Comparand
  terminates : Comparand

abbrev less_comparand : ReferenceKind → Reference → Comparand
less_comparand static_field_ref r = pair r.pointer r.index
less_comparand array_element_ref r = pair r.pointer (low_index r)
less_comparand object_field_ref r = pair r.pointer r.index
less_comparand local_var_ref r = pair r.pointer r.index
less_comparand arg_ref r = pair r.pointer r.index
less_comparand aot_ptr_ref r = address r.pointer
less_comparand _ r = terminates

abbrev equal_comparand : ReferenceKind → Reference → Comparand
equal_comparand static_field_ref r = pair r.pointer r.index
equal_comparand array_element_ref r = pair r.pointer (low_index r)
equal_comparand object_field_ref r = pair r.pointer r.index
equal_comparand local_var_ref r = pair r.pointer r.index
equal_comparand arg_ref r = pair r.pointer r.index
equal_comparand _ r = terminates

abbrev less_by : Comparand → Comparand → Option Bool
less_by (pair p i) (pair q j) =
    if ltb p q then some true else if ltb q p then some false else some (ltb i j)
less_by (address p) (address q) = some (ltb p q)
less_by _ _ = none

abbrev greater_by : Comparand → Comparand → Option Bool
greater_by (pair p i) (pair q j) =
    if ltb q p then some true else if ltb p q then some false else some (ltb j i)
greater_by (address p) (address q) = some (ltb q p)
greater_by _ _ = none

abbrev equal_by : Comparand → Comparand → Option Bool
equal_by (pair p i) (pair q j) = if p == q then some (i == j) else some false
equal_by _ _ = none

-- Reference::operator==
pub equals : Reference → Reference → Option Bool
equals lhs rhs =
    if kind_code lhs.kind == kind_code rhs.kind
    then equal_by (equal_comparand lhs.kind lhs) (equal_comparand lhs.kind rhs)
    else some false

-- Reference::operator<
pub less_than : Reference → Reference → Option Bool
less_than lhs rhs =
    if ltb (kind_code lhs.kind) (kind_code rhs.kind)
    then some true
    else if ltb (kind_code rhs.kind) (kind_code lhs.kind)
    then some false
    else less_by (less_comparand lhs.kind lhs) (less_comparand lhs.kind rhs)

-- Reference::operator>
pub greater_than : Reference → Reference → Option Bool
greater_than lhs rhs =
    if ltb (kind_code rhs.kind) (kind_code lhs.kind)
    then some true
    else if ltb (kind_code lhs.kind) (kind_code rhs.kind)
    then some false
    else greater_by (less_comparand lhs.kind lhs) (less_comparand lhs.kind rhs)
