-- ===== src/Tests/Creations.antt =====
-- Examples of local variables that slake/rt/exec.cc creates.
use slake.Prelude.{◌≡◌, refl, none, some, arith}
use slake.Words.{ℤ}
use slake.Types.Kinds.{TypeId}
use slake.Types.TypeRef.{has_flag}
use slake.Types.Value.{Payload}
use slake.Frames.Stack.{DataStack, stack_alloc, aligned_stack_alloc}
use slake.Frames.Major.{FrameError}
use slake.Exec.Machine.{Machine, Error, Result, pure}
use slake.Exec.Memory.{store}
use slake.Exec.Effects.{Reads}
use slake.Exec.Scalars.{IntType, int, scalar_payload}
use slake.Vars.Values.{is_nullable}
use slake.Vars.Read.{read_var}
use slake.Vars.Creation.{
  Creation, alloc, alloc_aligned, alloc_data, alloc_header, alloc_flag, alloc_type_info,
  alloc_variable_record, alloc_alloca_record, alloc_local_var, local_var_ref, add_local_var,
}
use slake.Vars.Creation.Begins.{HasRoom}
use slake.Vars.Creation.Errors.{add_local_var-Unchanged}
use slake.Vars.Creation.Initial.{add_local_var-read_var, add_local_var-terminates}
use slake.Tests.Execution.{machine}
use slake.Tests.Variables.{world, stack, type, old}

abbrev creation : Creation
creation = record {
  sizeof_type = λ t. some 4;
  alignof_type = λ t. some 4;
  prepare = λ t. pure tt;
  layout = λ o. none;
  sizeof_alloca_record = 16;
  alignof_alloca_record = 8;
}

abbrev on_stack : DataStack → Machine
on_stack s = record (machine (λ a. 7)) { context = record (machine (λ a. 7)).context { stack = s } }

abbrev full : DataStack
full = record stack { stack_top = 1012 }

prepare-Reads : Reads (creation.prepare (type TypeId.i32 0))
unfolding Reads
prepare-Reads m = refl

-- The header fits, but the record behind it does not.
abbrev headed : Machine
headed = record (on_stack full) { memory = store 1 4102 4 (store 1 4103 0 (λ a. 7)) }

overflows :
    add_local_var world creation 1 16 (type TypeId.i32 0) 3 (on_stack full)
    ≡ (Result.thrown (Error.frame_error FrameError.stack_overflow), headed)
unfolding add_local_var alloc_local_var alloc_data alloc_aligned alloc_header alloc alloc_type_info
    alloc_flag alloc_variable_record alloc_alloca_record aligned_stack_alloc stack_alloc is_nullable
overflows = refl

add_local_var-Unchanged_example : record headed { memory = λ a. 7 } ≡ on_stack full
add_local_var-Unchanged_example =
    add_local_var-Unchanged world creation 1 16 (type TypeId.i32 0) 3 prepare-Reads (on_stack full)
      (Error.frame_error FrameError.stack_overflow) headed overflows

number_fits : HasRoom creation (type TypeId.i32 0) (on_stack stack) 4 4 68
unfolding has_flag is_nullable
number_fits = record {
  sized = refl;
  aligned = refl;
  start = refl;
  room = omega arith;
  bounded = omega arith;
}

optional_fits : HasRoom creation (type TypeId.i32 4) (on_stack stack) 4 4 68
unfolding has_flag is_nullable
optional_fits = record {
  sized = refl;
  aligned = refl;
  start = refl;
  room = omega arith;
  bounded = omega arith;
}

add_local_var-read_var_example :
    (k : Machine) × (add_local_var world creation 1 16 (type TypeId.i32 0) 3 (on_stack stack)
      ≡ (Result.ok (local_var_ref 1 70), k))
    × (read_var world (local_var_ref 1 70) old k.memory
        ≡ some (record old { payload = Payload.i32 (ℤ.pos 0) }))
unfolding is_nullable scalar_payload has_flag
add_local_var-read_var_example =
    add_local_var-read_var world creation 1 16 (type TypeId.i32 0) 3 (on_stack stack)
      (int IntType.i32) 4 4 68 old refl refl (omega arith) (refl, refl) number_fits

add_local_var-terminates_example :
    (k : Machine) × (add_local_var world creation 1 16 (type TypeId.i32 4) 3 (on_stack stack)
      ≡ (Result.terminated, k))
unfolding is_nullable has_flag
add_local_var-terminates_example =
    add_local_var-terminates world creation 1 16 (type TypeId.i32 4) 3 (on_stack stack)
      (int IntType.i32) 4 4 68 refl refl (omega arith) (refl, refl) optional_fits
