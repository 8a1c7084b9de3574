-- ===== src/Vars/Defaults.antt =====
-- Runtime::default_value_of of slake/runtime.cc, which fields and local variables begin with.
pub mod Results
use slake.Prelude.{ℕ, Option, none, some, if◌then◌else◌}
use slake.Types.Kinds.{TypeId}
use slake.Types.TypeRef.{TypeRef}
use slake.Types.Reference.{Reference, ReferenceKind}
use slake.Types.Value.{Value, Payload}
use slake.Exec.Scalars.{ScalarType, scalar_payload}
use slake.Vars.Values.{sized_scalar_of, is_nullable, null_value}

abbrev pub reference_value : ReferenceKind → ℕ → ℕ → Value
reference_value k p i = record {
  payload = Payload.reference (record { kind = k; pointer = p; index = i; struct_field_index = 0 });
  value_flags = 0;
}

-- ObjectFieldRef(nullptr, UINT32_MAX)
abbrev pub no_field : Value
no_field = reference_value ReferenceKind.object_field_ref 0 4294967295

abbrev pub layout_value : Option ℕ → Option Value
layout_value none = none
layout_value (some l) = some (reference_value ReferenceKind.default_struct_value_ref l 0)

-- The cases that are no numbers, with the layout of a struct by its type definition, `none` where
-- the type object is no struct
abbrev pub default_object : (ℕ → Option ℕ) → TypeId → ℕ → Option Value
default_object layout TypeId.string type_def = some null_value
default_object layout TypeId.instance type_def = some null_value
default_object layout TypeId.array type_def = some null_value
default_object layout TypeId.ref type_def = some no_field
default_object layout TypeId.temp_ref type_def = some no_field
default_object layout TypeId.struct_instance type_def = layout_value (layout type_def)
default_object layout _ type_def = none

abbrev pub default_number : Option ScalarType → Option Value → Option Value
default_number none rest = rest
default_number (some s) rest = some (record { payload = scalar_payload s 0; value_flags = 0 })

-- Runtime::default_value_of; `none` is a call of std::terminate or an assertion that fails.
unfoldable pub default_value_of : (ℕ → Option ℕ) → TypeRef → Option Value
unfolding is_nullable scalar_payload
default_value_of layout t =
    if is_nullable t
    then some null_value
    else default_number (sized_scalar_of t.type_id) (default_object layout t.type_id t.type_def)
