-- ===== src/Tests/Instructions.antt =====
-- Examples of the number instructions, the shifts, LOAD and the loop over the instructions.
use slake.Prelude.{◌%◌, ◌≡◌, refl, false, not, ◌&&◌, none, some, [], ◌∷◌, if◌then◌else◌, arith}
use slake.Types.Value.{Payload}
use slake.Frames.Stack.{stack_alloc, aligned_stack_alloc}
use slake.Frames.Major.{
  InsRegType, create_new_major_frame, build_frame, set_args, alloc_registers, alloc_regular,
  finish_frame, link_frame,
}
use slake.Exec.Scalars.{IntType, int, int_value}
use slake.Exec.Arith.{ArithOp, add_ℤ, fits, int_arith}
use slake.Exec.Arith.Modular.{int_arith-add, may_overflow}
use slake.Exec.Opcode.{Opcode, invalid_reg}
use slake.Exec.Machine.{Machine, RegularFn, frame_at, pure, read_value}
use slake.Exec.Effects.{Register}
use slake.Exec.Moves.{plain, any_register}
use slake.Exec.Calls.{callee, call, exec_call}
use slake.Exec.Ins.{dispatch, exec_ins}
use slake.Exec.Ins.Writes.{dispatch-Register}
use slake.Exec.Ins.Shifts.{dispatch-shr}
use slake.Exec.Loop.{LoopEnv, at_instruction, next, run}
use slake.Exec.Loop.Resumes.{run-exec_call}
use slake.Tests.Execution.{function_at, env, machine, instruction, code}

abbrev halted : Machine
halted = machine (λ b. b % 256)

int_arith-add_example : int_arith ArithOp.add IntType.i32 4294967295 3 ≡ (
    if may_overflow IntType.i32
      && not (fits 32 (add_ℤ (int_value IntType.i32 4294967295) (int_value IntType.i32 3)))
    then none
    else some 2)
int_arith-add_example = int_arith-add IntType.i32 4294967295 3 (omega arith) (omega arith)

dispatch-Register_example :
    Register env
      (code (Opcode.cmp_int IntType.u8))
      16
      InsRegType.i32
      4
      3
      halted
      (dispatch env 1
        (code (Opcode.cmp_int IntType.u8))
        16
        (Opcode.cmp_int IntType.u8)
        (instruction (Opcode.cmp_int IntType.u8) 3)
        halted).1
dispatch-Register_example =
    dispatch-Register env 1 (code (Opcode.cmp_int IntType.u8)) 16 (Opcode.cmp_int IntType.u8)
      (int IntType.i32) (instruction (Opcode.cmp_int IntType.u8) 3) halted refl

dispatch-shr_example :
    dispatch env 1
      (code (Opcode.shr IntType.u32))
      16
      (Opcode.shr IntType.u32)
      (instruction (Opcode.shr IntType.u32) 3)
      halted
    ≡ dispatch env 1
        (code (Opcode.shr IntType.u32))
        16
        (Opcode.shl IntType.u32)
        (instruction (Opcode.shr IntType.u32) 3)
        halted
dispatch-shr_example =
    dispatch-shr env 1 (code (Opcode.shr IntType.u32)) 16 IntType.u32
      (instruction (Opcode.shr IntType.u32) 3) halted refl

abbrev loop : LoopEnv
loop = record {
  code_of = λ f. code Opcode.retvoid;
  callback = λ f. pure tt;
  is_dead = λ m. false;
  gc_is_due = λ m. false;
  gc = λ m. m;
}

-- Register 1 holds function 80; no register takes its value.
abbrev calling : RegularFn
calling = record (code Opcode.call) {
  instructions = record (instruction Opcode.call 0) { reg_out = invalid_reg } ∷ [];
}

abbrev holding : Machine
holding = machine (env.value_bytes.store_value 5088 (plain (Payload.object 80)) (λ b. 0))

abbrev called : Machine
called = (exec_ins env 1 calling 16 holding).1

run-exec_call_example :
    (begun : Machine) × (run env loop 1 1 3 (at_instruction calling 16) holding
      ≡ next (at_instruction (code Opcode.retvoid) begun.context.off_cur_major_frame) begun)
    × (begun.context.off_cur_major_frame ≡ called.context.off_cur_major_frame)
    × ((frame_at begun.context.off_cur_major_frame begun).cur_fn ≡ some (function_at 80))
    × (begun.cur_ins_ptr ≡ 1)
    × ((frame_at 16 begun).cur_ins ≡ 0)
unfolding exec_ins dispatch exec_call callee any_register read_value call create_new_major_frame
    build_frame aligned_stack_alloc stack_alloc set_args alloc_registers alloc_regular finish_frame
    link_frame
run-exec_call_example =
    run-exec_call env loop 1 1 calling 16 holding called
      (record (instruction Opcode.call 0) { reg_out = invalid_reg }) (function_at 80)
      (function_at 48) (instruction Opcode.retvoid 3) [] refl refl refl refl refl refl refl refl
      refl refl refl refl refl
