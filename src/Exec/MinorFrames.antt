-- ===== src/Exec/MinorFrames.antt =====
-- ENTER and LEAVE of _exec_ins of slake/rt/exec.cc.
pub mod Restores
use slake.Prelude.{ℕ, zero, suc, ◌+◌, Bool, true, false, Option, none, some, ◌==◌, if◌then◌else◌}
use slake.Flib.Operand.{ins_operand_as_unsigned}
use slake.Types.Value.{Value, Payload}
use slake.Frames.Stack.{size_max}
use slake.Frames.Major.{InsRegType, MajorFrame, Context}
use slake.Exec.Opcode.{Instruction}
use slake.Exec.Machine.{
  Machine, MinorFrame, AllocaRecord, Action, Env, RegularFn, Error, Result, ◌>>=◌, ◌>>◌, pure,
  throw, gets, modify, frame_at, set_frame_at, check_reg_index, read_value, write_value,
}
use slake.Exec.Calls.{alloc_on_stack, set_minor_frame, new_minor_frame}

module _ (env : Env) (ol : RegularFn) (off : ℕ) where
  -- ENTER
  unfoldable pub exec_enter : Action (Unit {0})
  unfolding alloc_on_stack
  exec_enter = do
    prev ← gets (λ m. m.context.stack.stack_top)
    alloc_on_stack env.sizes.sizeof_minor_frame env.sizes.alignof_minor_frame
    mf_off ← gets (λ m. m.context.stack.stack_top)
    f ← gets (frame_at off)
    modify (set_minor_frame mf_off (new_minor_frame f.off_cur_minor_frame prev))
    modify (set_frame_at off (record f { off_cur_minor_frame = mf_off }))

  -- `*reg = InvalidValueState{}`, which keeps the flags
  unfoldable pub invalidate : ℕ → Action (Unit {0})
  unfolding read_value write_value
  invalidate reg = do
    check_reg_index env ol off reg InsRegType.any
    old ← read_value env ol off reg
    write_value env ol off reg (record old { payload = Payload.invalid })

  abbrev pub out_of_fuel : Action (Unit {0})
  out_of_fuel m = (Result.undefined, m)

  -- The loop over the alloca records of a minor frame, with fuel
  unfoldable pub invalidate_records : ℕ → ℕ → Action (Unit {0})
  unfolding invalidate
  invalidate_records zero record_off = out_of_fuel
  invalidate_records (suc fuel) record_off = if record_off == size_max then pure tt else (do
    ar ← gets (λ m. m.alloca_records record_off)
    invalidate ar.def_reg
    invalidate_records fuel ar.off_next)

  -- The change of the context once the records are done
  abbrev pub drop_minor_frame : MinorFrame → Machine → Machine
  drop_minor_frame mf m =
      set_frame_at off (record (frame_at off m) { off_cur_minor_frame = mf.off_last_minor_frame })
        (record m {
          context = record m.context {
            stack = record m.context.stack { stack_top = mf.stack_base };
          };
        })

  -- One round of LEAVE
  unfoldable pub leave_minor_frame : ℕ → Action (Unit {0})
  unfolding invalidate_records
  leave_minor_frame fuel = do
    mf ← gets (λ m. m.minor_frames (frame_at off m).off_cur_minor_frame)
    (if mf.off_last_minor_frame == size_max then throw Error.frame_boundary_exceeded else pure tt)
    invalidate_records fuel mf.off_alloca_records
    modify (drop_minor_frame mf)

  unfoldable pub leave_levels : ℕ → ℕ → Action (Unit {0})
  unfolding leave_minor_frame
  leave_levels fuel zero = pure tt
  leave_levels fuel (suc level) = do leave_minor_frame fuel; leave_levels fuel level

  -- LEAVE
  unfoldable pub exec_leave : ℕ → Instruction → Action (Unit {0})
  unfolding leave_levels ins_operand_as_unsigned
  exec_leave fuel ins = leave_levels fuel (ins_operand_as_unsigned 32 ins.operand0)
