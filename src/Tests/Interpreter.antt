-- ===== src/Tests/Interpreter.antt =====
-- Examples of calls, minor frames, registers and moves of the interpreter.
use slake.Prelude.{ℕ, ◌≡◌, refl, Bool, true, arith}
use slake.Flib.Operand.{ins_operand_as_unsigned}
use slake.Types.Value.{Value, Payload}
use slake.Frames.Stack.{DataStack, stack_alloc, aligned_stack_alloc}
use slake.Frames.Major.{
  InsRegType, alloc_bank, alloc_regular, alloc_registers, set_args, build_frame, link_frame,
  finish_frame, create_new_major_frame,
}
use slake.Exec.Memory.{Memory}
use slake.Exec.Opcode.{Opcode, invalid_reg}
use slake.Exec.Machine.{Machine, ContextChangeType, Result, frame_at, reg_addr}
use slake.Exec.Machine.Banks.{alloc_bank-reg_addr}
use slake.Exec.Moves.{plain, exec_rload}
use slake.Exec.Calls.{alloc_on_stack, call, exec_retvoid}
use slake.Exec.Calls.Returns.{call-exec_retvoid}
use slake.Exec.MinorFrames.{exec_enter, exec_leave}
use slake.Exec.MinorFrames.Restores.{exec_enter-exec_leave}
use slake.Tests.Execution.{sizes, function_at, env, frame, context, machine, instruction, code}

abbrev any_value : slake.Types.TypeRef.TypeRef → Value → Bool
any_value t v = true

abbrev stack : DataStack
stack = record { data_stack = 4096; stack_size = 1024; stack_top = 16 }

abbrev three : InsRegType → ℕ
three t = 3

abbrev two_banks : Machine
two_banks = record (machine (λ b. 0)) {
  context = record context {
    frames = λ o.
        (alloc_bank sizes any_value three (InsRegType.u64, (InsRegType.u64, (8, 8)))
          (alloc_bank sizes any_value three (InsRegType.i64, (InsRegType.i64, (8, 8))) stack
            frame).1.0
          (alloc_bank sizes any_value three (InsRegType.i64, (InsRegType.i64, (8, 8))) stack
            frame).1.1).1.1;
  };
}

alloc_bank-reg_addr_example :
    reg_addr 16 InsRegType.i64 8 3 two_banks ≡ reg_addr 16 InsRegType.u64 8 0 two_banks
unfolding alloc_bank aligned_stack_alloc stack_alloc
alloc_bank-reg_addr_example =
    alloc_bank-reg_addr sizes any_value three InsRegType.i64 InsRegType.u64 8 8 8 stack
      (record stack { stack_top = 40 }) (record stack { stack_top = 64 }) frame _ _ 16 two_banks
      refl refl refl refl (omega arith, omega arith) (omega arith) refl refl refl

abbrev halted : Machine
halted = machine (λ b. 0)

abbrev after_call : Machine
after_call = (call env (code Opcode.retvoid) 16 0 (function_at 80) invalid_reg halted).1

call-exec_retvoid_example :
    (e : Machine) × (exec_retvoid env
        (code Opcode.retvoid)
        after_call.context.off_cur_major_frame
        after_call
      ≡ (Result.ok tt, e))
    × (e.context.stack ≡ context.stack)
    × (e.context.off_cur_major_frame ≡ 16)
    × (e.context.num_major_frames ≡ 1)
    × (e.context_changes ≡ ContextChangeType.fn_kind_changed)
unfolding call create_new_major_frame build_frame aligned_stack_alloc stack_alloc set_args
    alloc_registers alloc_regular finish_frame link_frame
call-exec_retvoid_example =
    call-exec_retvoid env (code Opcode.retvoid) 16 0 (function_at 80) (code Opcode.retvoid) halted
      after_call after_call refl refl (refl, refl, refl, refl, refl, refl, refl)

abbrev after_enter : Machine
after_enter = (exec_enter env (code Opcode.enter) 16 halted).1

exec_enter-exec_leave_example :
    (e : Machine) × (exec_leave env
        (code Opcode.leave)
        16
        1
        (instruction Opcode.leave 0)
        after_enter
      ≡ (Result.ok tt, e))
    × (e.context.stack ≡ context.stack)
    × ((frame_at 16 e).off_cur_minor_frame ≡ 48)
    × (e.context.off_cur_major_frame ≡ 16)
unfolding exec_enter alloc_on_stack aligned_stack_alloc stack_alloc ins_operand_as_unsigned
exec_enter-exec_leave_example =
    exec_enter-exec_leave env (code Opcode.leave) 16 0 (instruction Opcode.leave 0) halted
      after_enter after_enter refl refl (refl, refl, refl) refl

-- Register 1 holds the object 7, register 2 the identifier reference 64.
abbrev objects : Memory
objects =
    env.value_bytes.store_value 5056 (plain (Payload.object 64))
      (env.value_bytes.store_value 5088 (plain (Payload.object 7)) (λ b. 0))

abbrev loaded : Machine
loaded = (exec_rload env (code Opcode.rload) 16 (instruction Opcode.rload 0) (machine objects)).1
