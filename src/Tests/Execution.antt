-- ===== src/Tests/Execution.antt =====
-- A machine with a few registers, and examples of its instructions.
use slake.Prelude.{
  ℕ, ◌%◌, ◌≤◌, ◌<◌, ◌≡◌, ◌⊎◌, refl, true, false, none, some, [], ◌∷◌, ◌==◌, if◌then◌else◌, arith,
}
use slake.Words.{ℤ}
use slake.Types.Kinds.{TypeId}
use slake.Types.Value.{Payload}
use slake.Frames.Stack.{size_max}
use slake.Frames.Major.{
  FrameSizes, InsRegType, FnOverloadingKind, FnOverloadingObject, MajorFrame, Context,
}
use slake.Exec.Memory.{Memory, load}
use slake.Exec.Scalars.{IntType, int, int_value}
use slake.Exec.Arith.{ArithOp, Floats, int_arith, carried, signed_op, add_ℤ, scalar_cast}
use slake.Exec.Arith.Casts.{scalar_cast-int}
use slake.Exec.Opcode.{Opcode, Instruction, invalid_reg}
use slake.Exec.Machine.{
  Machine, MinorFrame, ContextChangeType, Env, RegularFn, ObjectKind, MemberQueryResult, Result,
  pure,
}
use slake.Exec.Moves.{plain, arg_ref}
use slake.Exec.Numeric.Results.{int_register}
use slake.Exec.Ins.{exec_ins}
use slake.Exec.Ins.Fetches.{exec_ins-int_register}
use slake.Tests.ValueCells.{value_cells}

abbrev pub sizes : FrameSizes
sizes = record {
  sizeof_major_frame = 320;
  alignof_major_frame = 8;
  sizeof_minor_frame = 40;
  alignof_minor_frame = 8;
  sizeof_value = 32;
  alignof_value = 8;
}

abbrev pub no_floats : Floats
no_floats = record {
  float_arith = λ op t a b. 0;
  float_compare = λ op t a b. false;
  of_int = λ t z. 0;
  to_int = λ t s x. some 0;
  to_float = λ t s x. 0;
  is_nonzero = λ t x. false;
}

abbrev pub four_registers : InsRegType → ℕ
four_registers t = 4

abbrev pub function_at : ℕ → FnOverloadingObject
function_at a = record {
  address = a;
  overloading_kind = FnOverloadingKind.regular;
  return_type = record { type_id = TypeId.void; type_modifier = 0; type_def = 0 };
  param_types = [];
  num_registers = none;
}

-- Object 64 is an identifier reference, object 80 is a function.
abbrev pub object_kind : ℕ → ObjectKind
object_kind a =
    if a == 64
    then ObjectKind.id_ref
    else if a == 80
    then ObjectKind.fn_overloading (function_at 80)
    else ObjectKind.other

abbrev pub env : Env
env = record {
  sizes = sizes;
  floats = no_floats;
  value_bytes = value_cells 26;
  is_compatible = λ t v. true;
  object_at = object_kind;
  read_var = λ r. pure (plain (Payload.u8 0));
  write_var = λ r v. pure true;
  resolve_id_ref = λ id scope. pure (MemberQueryResult.reference_found (arg_ref 0 0));
  new_class_instance = λ t. pure none;
  frame_bytes = λ c b. b;
  add_local_var = λ off t reg. pure (arg_ref 0 0);
}

abbrev pub frame : MajorFrame
frame = record {
  off_prev_frame = size_max;
  off_next_frame = size_max;
  cur_fn = some (function_at 48);
  this_object = 0;
  off_args = size_max;
  num_args = 0;
  cur_ins = 0;
  off_next_args = size_max;
  off_next_args_begin = 96;
  num_next_args = 0;
  off_cur_minor_frame = 48;
  minor_stack_base = 16;
  regs_base_off = λ t. 0;
  return_value_out_reg = invalid_reg;
  prev_stack_top = 0;
}

abbrev pub context : Context
context = record {
  stack = record { data_stack = 4096; stack_size = 1024; stack_top = 96 };
  frames = λ o. frame;
  off_cur_major_frame = 16;
  num_major_frames = 1;
}

abbrev pub minor_frame : MinorFrame
minor_frame = record {
  off_last_minor_frame = size_max;
  stack_base = 0;
  off_alloca_records = size_max;
}

abbrev pub machine : Memory → Machine
machine memory = record {
  memory = memory;
  context = context;
  minor_frames = λ o. minor_frame;
  alloca_records = λ o. record { off_next = size_max; def_reg = 0 };
  cur_ins_ptr = 0;
  context_changes = ContextChangeType.no_change;
}

abbrev pub instruction : Opcode → ℕ → Instruction
instruction code flags = record {
  opcode = code;
  flags = flags;
  reg0_type_hint = none;
  reg_out = 3;
  reg0 = 1;
  reg1 = 2;
  operand0 = 1;
  operand1 = 0;
}

abbrev pub code : Opcode → RegularFn
code c = record {
  num_registers = four_registers;
  instructions = instruction c 3 ∷ [];
  ins_object_set = [];
  ins_type_set = [];
}

-- Each byte is its address modulo 256.
abbrev counting : Memory
counting b = b % 256

abbrev add_u8 : Opcode
add_u8 = Opcode.int_arith_op ArithOp.add IntType.u8

sum : int_arith ArithOp.add IntType.u8 (load 1 5119 counting) (load 1 5118 counting) ≡ some 253
unfolding int_arith carried signed_op add_ℤ load
sum = refl

exec_ins-int_register_example :
    (k : Machine) × (exec_ins env 1 (code add_u8) 16 (machine counting) ≡ (Result.ok tt, k))
    × (k.cur_ins_ptr ≡ 1)
    × (int_register env (code add_u8) 16 IntType.u8 3 k ≡ 253)
    × ((b : ℕ) → (b < 5117) ⊎ (5118 ≤ b) → k.memory b ≡ b % 256)
    × (k.context ≡ context)
exec_ins-int_register_example =
    exec_ins-int_register env 1 (code add_u8) 16 ArithOp.add IntType.u8 (instruction add_u8 3)
      (machine counting) 253 (λ b. omega arith) refl refl refl refl refl refl refl sum

scalar_cast-int_example :
    (r : ℕ) × (scalar_cast no_floats (int IntType.i16) (int IntType.i8) 255 ≡ some r)
    × (int_value IntType.i16 r ≡ ℤ.negsuc 0)
scalar_cast-int_example = scalar_cast-int no_floats IntType.i16 IntType.i8 255 refl
