-- ===== src/Exec/Calls.antt =====
-- The instructions of _exec_ins of slake/rt/exec.cc that jump, call, return and enter and leave
-- minor frames.
pub mod Returns
pub mod Enters
use slake.Prelude.{
  ℕ, zero, suc, ◌+◌, ◌-◌, ◌%◌, ◌^◌, ◌*◌, Bool, true, false, not, Option, none, some, ◌==◌, ltb,
  if◌then◌else◌, length,
}
use slake.Flib.Operand.{ins_operand_as_unsigned}
use slake.Types.Reference.{Reference}
use slake.Types.Value.{Value, Payload}
use slake.Frames.Stack.{DataStack, size_max, aligned_stack_alloc}
use slake.Frames.Major.{
  InsRegType, FnOverloadingKind, FnOverloadingObject, MajorFrame, Context, FrameError,
  create_new_major_frame, leave_major_frame,
}
use slake.Exec.Scalars.{ScalarType}
use slake.Exec.Opcode.{Instruction, invalid_reg}
use slake.Exec.Machine.{
  Machine, MinorFrame, AllocaRecord, ContextChangeType, Action, Env, RegularFn, ObjectKind, Error,
  Result, ◌>>=◌, ◌>>◌, pure, throw, gets, modify, or_throw, require, invalid_operands, frame_at,
  set_frame_at, check_reg_index, read_scalar, read_value, write_value,
}
use slake.Exec.Moves.{any_register, object_of, non_null, address_of}

-- Go on where the target is in the function, else std::terminate.
unfoldable pub jump : RegularFn → ℕ → Action (Unit {0})
jump ol target m =
    let moved = record m { cur_ins_ptr = target } in
    if ltb target (length ol.instructions)
    then (Result.ok tt, moved)
    else (Result.terminated, moved)

abbrev pub overloading_of : ObjectKind → Option FnOverloadingObject
overloading_of (ObjectKind.fn_overloading f) = some f
overloading_of _ = none

abbrev pub kind_number : FnOverloadingKind → ℕ
kind_number FnOverloadingKind.regular = 0
kind_number FnOverloadingKind.native = 1
kind_number FnOverloadingKind.jit_compiled = 2

abbrev pub kind_of : Option FnOverloadingObject → ℕ
kind_of none = 0
kind_of (some f) = kind_number f.overloading_kind

-- context_changes_out after a call
abbrev pub change_of : FnOverloadingObject → Option FnOverloadingObject → ContextChangeType
change_of fn cur_fn =
    if fn.address == address_of cur_fn
    then ContextChangeType.major_frame_changed
    else if kind_number fn.overloading_kind == kind_of cur_fn
    then ContextChangeType.fn_changed
    else ContextChangeType.fn_kind_changed

-- A minor frame as it is constructed
abbrev pub new_minor_frame : ℕ → ℕ → MinorFrame
new_minor_frame off_last stack_base = record {
  off_last_minor_frame = off_last;
  stack_base = stack_base;
  off_alloca_records = size_max;
}

abbrev pub set_minor_frame : ℕ → MinorFrame → Machine → Machine
set_minor_frame at mf m = record m { minor_frames = λ o. if o == at then mf else m.minor_frames o }

-- A result of a function on the context
abbrev pub set_context : Context → Machine → Machine
set_context c m = record m { context = c }

-- The first minor frame of the current major frame, which _create_new_major_frame constructs.
abbrev pub first_minor_frame : Machine → Machine
first_minor_frame m =
    let f = frame_at m.context.off_cur_major_frame m in
    set_minor_frame f.off_cur_minor_frame (new_minor_frame size_max f.minor_stack_base) m

abbrev pub framed : Option FrameError × Context → Machine → Result (Unit {0}) × Machine
framed (some e, c) m = (Result.thrown (Error.frame_error e), set_context c m)
framed (none, c) m = (Result.ok tt, first_minor_frame (set_context c m))

abbrev pub stacked : Option ℕ × DataStack → Machine → Result (Unit {0}) × Machine
stacked (none, s) m = (
  Result.thrown (Error.frame_error FrameError.stack_overflow),
  set_context (record m.context { stack = s }) m,
)
stacked (some a, s) m = (Result.ok tt, set_context (record m.context { stack = s }) m)

-- aligned_stack_alloc, or a StackOverflowError
unfoldable pub alloc_on_stack : ℕ → ℕ → Action (Unit {0})
unfolding aligned_stack_alloc
alloc_on_stack size alignment m = stacked (aligned_stack_alloc size alignment m.context.stack) m

module _ (env : Env) (ol : RegularFn) (off : ℕ) where
  -- JMP
  unfoldable pub exec_jmp : Instruction → Action (Unit {0})
  unfolding jump ins_operand_as_unsigned
  exec_jmp ins = jump ol (ins_operand_as_unsigned 32 ins.operand0)

  -- BR: the first operand is the target if the register is true.
  unfoldable pub exec_br : Instruction → Action (Unit {0})
  unfolding jump ins_operand_as_unsigned read_scalar
  exec_br ins = do
    check_reg_index env ol off ins.reg0 InsRegType.bool
    x ← read_scalar env ol off ScalarType.bool ins.reg0
    jump ol (ins_operand_as_unsigned 32 (if x == 0 then ins.operand1 else ins.operand0))

  -- PUSHARG. The bytes of the argument are written at the top of the stack.
  unfoldable pub exec_pusharg : Instruction → Action (Unit {0})
  unfolding any_register alloc_on_stack
  exec_pusharg ins = do
    arg ← any_register env ol off ins.reg0
    prev ← gets (λ m. m.context.stack.stack_top)
    alloc_on_stack env.sizes.sizeof_value env.sizes.alignof_value
    new_off ← gets (λ m. m.context.stack.stack_top)
    modify (λ m. record m {
      memory =
          env.value_bytes.store_value
            (m.context.stack.data_stack + m.context.stack.stack_size - new_off) arg m.memory;
    })
    f ← gets (frame_at off)
    require (
        if f.num_next_args == 0
        then true
        else (new_off + 2 ^ 64 - f.off_next_args) % 2 ^ 64 == env.sizes.sizeof_value)
    modify (λ m.
        set_frame_at off
          (record f {
            off_next_args_begin = if f.num_next_args == 0 then prev else f.off_next_args_begin;
            off_next_args = new_off;
            num_next_args = f.num_next_args + 1;
          })
          m)

  -- The function overloading in an Any register
  unfoldable pub callee : ℕ → Action FnOverloadingObject
  unfolding any_register
  callee reg = do
    v ← any_register env ol off reg
    o ← or_throw (non_null (object_of v.payload)) invalid_operands
    or_throw (overloading_of (env.object_at o)) invalid_operands

  -- The register of the returned value; INVALID_REG is not checked.
  abbrev pub output_register : ℕ → Action ℕ
  output_register reg = do
    require (if reg == invalid_reg then true else ltb reg (ol.num_registers InsRegType.any))
    pure reg

  -- _create_new_major_frame with the arguments on the stack, what it writes to the registers'
  -- bytes, and the reset of the caller's next arguments.
  unfoldable pub call : ℕ → FnOverloadingObject → ℕ → Action (Unit {0})
  unfolding create_new_major_frame
  call this_object fn output = do
    f ← gets (frame_at off)
    (λ m.
        framed
          (create_new_major_frame env.sizes env.is_compatible this_object (some fn) none
            f.off_next_args (f.num_next_args % 2 ^ 32) output m.context)
          m)
    modify (λ m. record m { memory = env.frame_bytes m.context m.memory })
    modify (λ m.
        set_frame_at off (record (frame_at off m) { off_next_args = size_max; num_next_args = 0 })
          m)
    modify (λ m. record m { context_changes = change_of fn f.cur_fn })

  -- CALL
  unfoldable pub exec_call : Instruction → Action (Unit {0})
  unfolding callee call
  exec_call ins = do fn ← callee ins.reg0; output ← output_register ins.reg_out; call 0 fn output

  unfoldable pub this_register : ℕ → Action ℕ
  unfolding any_register
  this_register reg = do
    v ← any_register env ol off reg
    or_throw (non_null (object_of v.payload)) invalid_operands

  -- MCALL
  unfoldable pub exec_mcall : Instruction → Action (Unit {0})
  unfolding callee this_register call
  exec_mcall ins = do
    fn ← callee ins.reg0
    this_object ← this_register ins.reg1
    output ← output_register ins.reg_out
    call this_object fn output

  -- CTORCALL
  unfoldable pub exec_ctorcall : Instruction → Action (Unit {0})
  unfolding callee this_register call
  exec_ctorcall ins = do
    fn ← callee ins.reg0
    this_object ← this_register ins.reg1
    call this_object fn invalid_reg

  -- _leave_major_frame and the change of the context, after the returned value is written.
  unfoldable pub leave_frame : Action (Unit {0})
  unfolding leave_major_frame
  leave_frame = modify (λ m. record m {
    context = leave_major_frame m.context;
    context_changes = ContextChangeType.fn_kind_changed;
  })

  -- RETVOID
  unfoldable pub exec_retvoid : Action (Unit {0})
  unfolding leave_frame
  exec_retvoid = do
    f ← gets (frame_at off)
    require (f.return_value_out_reg == invalid_reg)
    leave_frame

  abbrev pub compatible : Option FnOverloadingObject → Value → Bool
  compatible none v = true
  compatible (some fn) v = env.is_compatible fn.return_type v

  abbrev pub terminate_unless : Bool → Action (Unit {0})
  terminate_unless true m = (Result.ok tt, m)
  terminate_unless false m = (Result.terminated, m)

  -- The write of a returned value. The caller's register is checked against the register number of
  -- the function that returns.
  unfoldable pub return_value : MajorFrame → Instruction → Bool → Action (Unit {0})
  unfolding any_register write_value
  return_value f ins true = pure tt
  return_value f ins false = do
    v ← any_register env ol off ins.reg0
    terminate_unless (compatible f.cur_fn v)
    require (ltb f.return_value_out_reg (ol.num_registers InsRegType.any))
    write_value env ol f.off_prev_frame f.return_value_out_reg v

  -- RET
  unfoldable pub exec_ret : Instruction → Action (Unit {0})
  unfolding return_value leave_frame
  exec_ret ins = do
    f ← gets (frame_at off)
    return_value f ins (f.return_value_out_reg == invalid_reg)
    leave_frame
