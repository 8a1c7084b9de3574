-- ===== src/Vars/Values.antt =====
-- The types and values that slake/rt/var_access.cc tells apart when it reads and writes.
use Prim.Native.Nat.{bit_or}
use slake.Prelude.{ℕ, Bool, true, false, Option, none, some, if◌then◌else◌}
use slake.Types.Kinds.{TypeId}
use slake.Types.TypeRef.{TypeRef, has_flag, type_local, type_nullable}
use slake.Types.Reference.{ReferenceKind}
use slake.Types.Value.{Value, Payload}
use slake.Exec.Memory.{Memory, load}
use slake.Exec.Scalars.{IntType, FloatType, ScalarType, int, float, scalar_size, scalar_payload}

-- The number type of a variable
abbrev pub scalar_of : TypeId → Option ScalarType
scalar_of TypeId.i8 = some (int IntType.i8)
scalar_of TypeId.i16 = some (int IntType.i16)
scalar_of TypeId.i32 = some (int IntType.i32)
scalar_of TypeId.i64 = some (int IntType.i64)
scalar_of TypeId.isize = some (int IntType.isize)
scalar_of TypeId.u8 = some (int IntType.u8)
scalar_of TypeId.u16 = some (int IntType.u16)
scalar_of TypeId.u32 = some (int IntType.u32)
scalar_of TypeId.u64 = some (int IntType.u64)
scalar_of TypeId.usize = some (int IntType.usize)
scalar_of TypeId.f32 = some (float FloatType.f32)
scalar_of TypeId.f64 = some (float FloatType.f64)
scalar_of TypeId.bool = some ScalarType.bool
scalar_of _ = none

-- Where ISize and USize have no case
abbrev pub sized_scalar_of : TypeId → Option ScalarType
sized_scalar_of TypeId.isize = none
sized_scalar_of TypeId.usize = none
sized_scalar_of t = scalar_of t

unfoldable pub is_nullable : TypeRef → Bool
unfolding has_flag
is_nullable t = has_flag type_nullable t

unfoldable pub is_local : TypeRef → Bool
unfolding has_flag
is_local t = has_flag type_local t

-- `value_out = nullptr`: nullptr is taken as a DefaultStructValueRef.
abbrev pub null_value : Value
null_value = record {
  payload = Payload.reference (record {
    kind = ReferenceKind.default_struct_value_ref;
    pointer = 0;
    index = 0;
    struct_field_index = 0;
  });
  value_flags = 0;
}

-- Value::set_local, which asserts that the value is a reference.
abbrev pub set_local : ℕ → Payload → Option Value
set_local flags (Payload.reference r) =
    some (record { payload = Payload.reference r; value_flags = bit_or flags 1 })
set_local flags _ = none

unfoldable pub with_local : TypeRef → Value → Option Value
unfolding is_local
with_local t v = if is_local t then set_local v.value_flags v.payload else some v

abbrev pub is_object_type : TypeId → Bool
is_object_type TypeId.string = true
is_object_type TypeId.instance = true
is_object_type TypeId.array = true
is_object_type TypeId.fn = true
is_object_type _ = false

unfoldable pub read_scalar_at : ScalarType → ℕ → Value → Memory → Value
unfolding load scalar_payload
read_scalar_at s a old m = record old { payload = scalar_payload s (load (scalar_size s) a m) }

abbrev pub object_at : ℕ → Value → Memory → Value
object_at a old m = record old { payload = Payload.object (load 8 a m) }
