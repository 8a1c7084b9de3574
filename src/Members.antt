-- ===== src/Members.antt =====
-- The objects with names, and how a member is found in one: get_member of slake/obj/module.cc,
-- class.cc, instance.cc and object.cc, get_generic_args of member.cc and class.cc. A name is a
-- number, an object its address, nullptr is 0; a map is the list of its keys and values.
pub mod Resolve
pub mod Paths
use slake.Prelude.{ℕ, Bool, true, false, Option, none, some, List, []}
use slake.Types.TypeRef.{TypeRef}
use slake.Types.Reference.{Reference, ReferenceKind}
use slake.Signatures.{FnSignature, find}
use slake.Exec.Machine.{Error, Result, MemberQueryResult}

-- The ObjectKinds that get_member, get_generic_args and the functions on names tell apart
pub data MemberKind : Type 0 where
  module_object class_object interface_object struct_object : MemberKind
  scoped_enum union_enum union_enum_item fn instance : MemberKind
  other : MemberKind

-- MemberObject, with the maps of BasicModuleObject, the generic arguments of ClassObject,
-- InterfaceObject and StructObject, and the method table and the field names of the class of an
-- InstanceObject
pub record Member : Type 0 where
  pub kind : MemberKind
  pub name : ℕ
  pub parent : ℕ
  pub generic_args : List TypeRef
  pub members : List (ℕ × ℕ)
  pub field_record_indices : List (ℕ × ℕ)
  pub of_class : ℕ
  pub methods : List (ℕ × ℕ)
  pub field_name_map : List (ℕ × ℕ)

-- The objects of a runtime, its root object, the overloadings of a function by their signature and
-- the instantiation of a generic object.
pub record Scope : Type 0 where
  pub member_at : ℕ → Member
  pub root_object : ℕ
  pub overloading : ℕ → FnSignature → Option ℕ
  pub instantiate_generic_object : ℕ → List TypeRef → Result ℕ

abbrev pub kind_at : Scope → ℕ → MemberKind
kind_at s v = (s.member_at v).kind

abbrev reference_to : ReferenceKind → ℕ → ℕ → Reference
reference_to k p i = record { kind = k; pointer = p; index = i; struct_field_index = 0 }

abbrev pub object_or : MemberQueryResult → Option ℕ → MemberQueryResult
object_or rest none = rest
object_or rest (some o) = MemberQueryResult.object_found o

abbrev pub field_or : ReferenceKind → ℕ → MemberQueryResult → Option ℕ → MemberQueryResult
field_or k owner rest none = rest
field_or k owner rest (some i) = MemberQueryResult.reference_found (reference_to k owner i)

-- BasicModuleObject::get_member
abbrev pub get_module_member : Scope → ℕ → ℕ → MemberQueryResult
get_module_member s v name =
    field_or ReferenceKind.static_field_ref v
      (object_or MemberQueryResult.none_found (find name (s.member_at v).members))
      (find name (s.member_at v).field_record_indices)

-- UnionEnumObject::get_member
abbrev pub get_union_member : Scope → ℕ → ℕ → MemberQueryResult
get_union_member s v name =
    object_or MemberQueryResult.none_found (find name (s.member_at v).members)

-- InstanceObject::get_member
abbrev pub get_instance_member : Scope → ℕ → ℕ → MemberQueryResult
get_instance_member s v name =
    object_or
      (field_or ReferenceKind.object_field_ref v MemberQueryResult.none_found
        (find name (s.member_at (s.member_at v).of_class).field_name_map))
      (find name (s.member_at (s.member_at v).of_class).methods)

abbrev pub get_member_of : MemberKind → Scope → ℕ → ℕ → MemberQueryResult
get_member_of MemberKind.union_enum = get_union_member
get_member_of MemberKind.instance = get_instance_member
get_member_of MemberKind.fn = λ s v name. MemberQueryResult.none_found
get_member_of MemberKind.other = λ s v name. MemberQueryResult.none_found
get_member_of _ = get_module_member

-- Object::get_member and its overrides
unfoldable pub get_member : Scope → ℕ → ℕ → MemberQueryResult
get_member s v name = get_member_of (kind_at s v) s v name

-- MemberObject::get_generic_args and its overrides; a nullptr adds no arguments to a path.
abbrev pub generic_args_of : MemberKind → Member → List TypeRef
generic_args_of MemberKind.class_object m = m.generic_args
generic_args_of MemberKind.interface_object m = m.generic_args
generic_args_of MemberKind.struct_object m = m.generic_args
generic_args_of _ m = []

abbrev pub get_generic_args : Member → List TypeRef
get_generic_args m = generic_args_of m.kind m

-- The member that a result holds, where it holds an object
abbrev pub object_in : MemberQueryResult → Option ℕ
object_in (MemberQueryResult.object_found o) = some o
object_in _ = none
