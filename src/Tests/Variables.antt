-- ===== src/Tests/Variables.antt =====
-- Examples of local variables, static fields and array elements that hold numbers.
use slake.Prelude.{ℕ, ◌≡◌, refl, true, false, none, some, [], ◌∷◌, ◌==◌, if◌then◌else◌, arith}
use slake.Words.{ℤ}
use slake.Types.Kinds.{TypeId}
use slake.Types.TypeRef.{TypeRef, has_flag}
use slake.Types.Reference.{Reference, ReferenceKind}
use slake.Types.Value.{Value, Payload}
use slake.Layout.Fields.{FieldRecord}
use slake.Frames.Stack.{DataStack}
use slake.Exec.Memory.{Memory, load}
use slake.Exec.Scalars.{IntType, int, scalar_payload}
use slake.Vars.Objects.{World, Parameters, unbound}
use slake.Vars.Read.{read_var}
use slake.Vars.Values.{is_nullable}
use slake.Vars.Write.{write_var}
use slake.Vars.Locals.{write_var-read_var_local}
use slake.Vars.Fields.Results.{write_var-read_var_static, write_var-nullable}
use slake.Tests.ValueCells.{value_cells}

abbrev pub type : TypeId → ℕ → TypeRef
type t flags = record { type_id = t; type_modifier = flags; type_def = 0 }

abbrev pub stack : DataStack
stack = record { data_stack = 4096; stack_size = 1024; stack_top = 64 }

abbrev pub no_parameters : Parameters
no_parameters = record { param_types = []; has_var_arg = false }

abbrev pub field : ℕ → TypeRef → FieldRecord
field offset t = record { name = 0; access_modifier = 4; offset = offset; type = t }

abbrev pub short : FieldRecord
short = field 0 (type TypeId.i16 0)

abbrev pub wide : FieldRecord
wide = field 8 (type TypeId.u64 0)

abbrev pub optional : FieldRecord
optional = field 16 (type TypeId.u32 4)

abbrev pub world : World
world = record {
  module_fields = λ o. short ∷ wide ∷ optional ∷ [];
  local_field_storage = λ o. 8192;
  context_stack = λ o. stack;
  coroutine = λ o. record { cur_context = unbound stack no_parameters; off_stack_top = 0 };
  instance_fields = λ o. [];
  raw_field_data = λ o. 0;
  array = λ o. record {
    element_type = type TypeId.u16 0;
    element_size = 2;
    length = 4;
    elements = 9216;
  };
  layout_fields = λ o. [];
  init_data = λ o. 0;
  frame = λ o. record { cur_fn = no_parameters; stack = stack; off_args = 0; off_stack_top = 0 };
  struct_fields = λ o. none;
  enum_base = λ o. none;
  sizeof_type = λ t. none;
  is_compatible = λ t v. true;
  is_compatible_type = λ t n. true;
  load_reference = λ a m. record {
    kind = ReferenceKind.invalid;
    pointer = 0;
    index = 0;
    struct_field_index = 0;
  };
  sizeof_reference = 24;
  sizeof_value = 32;
  value_bytes = value_cells 26;
}

abbrev pub reference : ReferenceKind → ℕ → Reference
reference k i = record { kind = k; pointer = 1; index = i; struct_field_index = 0 }

abbrev local_var : Reference
local_var = reference ReferenceKind.local_var_ref 64

-- A local variable with a type id and a modifier, at 5056.
abbrev declared : ℕ → ℕ → Memory
declared t flags b = if b == 5056 then t else if b == 5057 then flags else 7

abbrev pub old : Value
old = record { payload = Payload.invalid; value_flags = 0 }

write_var-read_var_local_example :
    (k : Memory) × (write_var world local_var
        (record { payload = Payload.i32 (ℤ.negsuc 0); value_flags = 0 })
        (declared 4 4)
      ≡ some (true, k))
    × (read_var world local_var old k
        ≡ some (record { payload = Payload.i32 (ℤ.negsuc 0); value_flags = 0 }))
unfolding scalar_payload
write_var-read_var_local_example =
    write_var-read_var_local world local_var (int IntType.i32) 4294967295 0 old (declared 4 4) refl
      refl refl (omega arith)

abbrev pub static : ℕ → Reference
static i = reference ReferenceKind.static_field_ref i

write_var-read_var_static_example :
    (k : Memory) × (write_var world
        (static 0)
        (record { payload = Payload.i16 (ℤ.pos 300); value_flags = 0 })
        (λ b. 7)
      ≡ some (true, k))
    × (read_var world (static 0) old k
        ≡ some (record { payload = Payload.i16 (ℤ.pos 300); value_flags = 0 }))
unfolding scalar_payload is_nullable has_flag
write_var-read_var_static_example =
    write_var-read_var_static world (static 0) short (int IntType.i16) 300 0 old (λ b. 7)
      (refl, refl) refl refl (omega arith)

abbrev big : Value
big = record { payload = Payload.u64 1; value_flags = 0 }

write_var-nullable_example :
    (k : Memory) × (write_var world (static 2) big (λ b. 7) ≡ some (true, k))
    × (load 4 8208 k ≡ load 4 8208 (λ b. 7))
unfolding is_nullable has_flag
write_var-nullable_example =
    write_var-nullable world (static 2) optional (int IntType.u32) big (λ b. 7) (refl, refl) refl
      refl refl refl
