-- ===== src/Exec/Ins.antt =====
-- Runtime::_exec_ins of slake/rt/exec.cc: one instruction.
pub mod Writes
pub mod Fetches
pub mod Shifts
use Prim.Native.Nat.Ordering.{lt, eq, gt}
use slake.Prelude.{ℕ, suc, Bool, true, false, not, ◌||◌, Option, none, some, ◌==◌, get_elem?}
use slake.Exec.Scalars.{IntType, FloatType, ScalarType, int, float}
use slake.Exec.Arith.{
  ArithOp, BitOp, CompareOp, int_arith, bit_op, int_compare, and_op, or_op, equal, not_equal,
}
use slake.Exec.Arith
use slake.Exec.Opcode.{Opcode, Instruction}
use slake.Exec.Machine.{
  Machine, Action, Env, RegularFn, Error, ◌>>=◌, ◌>>◌, throw, gets, modify, defined,
}
use slake.Exec.Numeric.{
  float_result, cmp_float_as, exec_arith, exec_compare, exec_cmp, exec_compare_objects, exec_cast,
}
use slake.Exec.Shifts.{shift_left, shift_right, exec_shift}
use slake.Exec.Moves.{
  exec_lvalue_scalar, exec_lvalue, exec_store_scalar, exec_store, exec_lobj, exec_ltype,
  exec_compare_types, exec_load, exec_rload, exec_lcurfn, exec_larg, exec_lvar, exec_lthis,
  exec_new,
}
use slake.Exec.ObjectCasts.{exec_cast_obj, exec_cast_any}
use slake.Exec.Calls.{
  exec_jmp, exec_br, exec_pusharg, exec_call, exec_mcall, exec_ctorcall, exec_retvoid, exec_ret,
}
use slake.Exec.MinorFrames.{exec_enter, exec_leave}

-- The operators on bools, whose operands are 0 or 1
abbrev pub bool_bits : BitOp → ℕ → ℕ → Option ℕ
bool_bits op a b = some (bit_op op a b)

module _ (env : Env) (fuel : ℕ) (ol : RegularFn) (off : ℕ) where
  -- The switch over the opcode
  unfoldable pub dispatch : Opcode → Instruction → Action (Unit {0})
  dispatch (Opcode.lvalue_scalar t) ins = exec_lvalue_scalar env ol off t ins
  dispatch Opcode.lvalue ins = exec_lvalue env ol off ins
  dispatch (Opcode.store_scalar t) ins = exec_store_scalar env ol off t ins
  dispatch Opcode.store ins = exec_store env ol off ins
  dispatch Opcode.lobj ins = exec_lobj env ol off ins
  dispatch Opcode.ltype ins = exec_ltype env ol off ins
  dispatch Opcode.jmp ins = exec_jmp env ol off ins
  dispatch Opcode.br ins = exec_br env ol off ins
  dispatch (Opcode.int_arith_op op t) ins = exec_arith env ol off (int t) (int_arith op t) ins
  dispatch (Opcode.float_arith_op op t) ins =
      exec_arith env ol off (float t) (λ a b. some (float_result env.floats op t a b)) ins
  dispatch (Opcode.int_bit_op op t) ins =
      exec_arith env ol off (int t) (λ a b. some (bit_op op a b)) ins
  dispatch Opcode.and_bool ins = exec_arith env ol off ScalarType.bool (bool_bits and_op) ins
  dispatch Opcode.or_bool ins = exec_arith env ol off ScalarType.bool (bool_bits or_op) ins
  dispatch (Opcode.int_compare_op op t) ins = exec_compare env ol off (int t) (int_compare op t) ins
  dispatch (Opcode.lt_float t) ins =
      exec_compare env ol off (float t) (env.floats.float_compare CompareOp.lt t) ins
  dispatch (Opcode.gt_float t) ins =
      exec_compare env ol off (float t) (env.floats.float_compare CompareOp.gt t) ins
  dispatch (Opcode.lteq_float t) ins =
      exec_compare env ol off (float t) (env.floats.float_compare CompareOp.lteq t) ins
  dispatch (Opcode.gteq_float t) ins =
      exec_compare env ol off (float t) (env.floats.float_compare CompareOp.gteq t) ins
  dispatch Opcode.eq_bool ins = exec_compare env ol off ScalarType.bool (λ a b. a == b) ins
  dispatch Opcode.neq_bool ins = exec_compare env ol off ScalarType.bool (λ a b. not (a == b)) ins
  dispatch Opcode.eq_obj ins = exec_compare_objects env ol off (λ same. same) ins
  dispatch Opcode.neq_obj ins = exec_compare_objects env ol off not ins
  dispatch Opcode.eq_type ins = exec_compare_types env ol off (λ same. same) ins
  dispatch Opcode.neq_type ins = exec_compare_types env ol off not ins
  dispatch (Opcode.shl t) ins = exec_shift env ol off t (shift_left t) ins
  dispatch (Opcode.shr t) ins = exec_shift env ol off t (shift_right t) ins
  dispatch (Opcode.cmp_int t) ins = exec_cmp env ol off t ins
  dispatch (Opcode.cmp_float t) ins = exec_cmp env ol off (cmp_float_as t) ins
  dispatch Opcode.load ins = exec_load env ol off ins
  dispatch Opcode.rload ins = exec_rload env ol off ins
  dispatch Opcode.lcurfn ins = exec_lcurfn env ol off ins
  dispatch Opcode.larg ins = exec_larg env ol off ins
  dispatch Opcode.lvar ins = exec_lvar env ol off ins
  dispatch Opcode.enter ins = exec_enter env ol off
  dispatch Opcode.leave ins = exec_leave env ol off fuel ins
  dispatch Opcode.pusharg ins = exec_pusharg env ol off ins
  dispatch Opcode.call ins = exec_call env ol off ins
  dispatch Opcode.mcall ins = exec_mcall env ol off ins
  dispatch Opcode.ctorcall ins = exec_ctorcall env ol off ins
  dispatch Opcode.retvoid ins = exec_retvoid env ol off
  dispatch Opcode.ret ins = exec_ret env ol off ins
  dispatch Opcode.lthis ins = exec_lthis env ol off ins
  dispatch Opcode.new ins = exec_new env ol off ins
  dispatch (Opcode.cast_scalar t) ins = exec_cast env ol off t ins
  dispatch Opcode.cast_obj ins = exec_cast_obj env ol off ins
  dispatch Opcode.cast_any ins = exec_cast_any env ol off ins
  dispatch (Opcode.other code) ins = throw (Error.invalid_opcode code)

  -- _exec_ins on the frame at `off`. There is no instruction behind the last one.
  unfoldable pub exec_ins : Action (Unit {0})
  unfolding dispatch
  exec_ins = do
    ins ← (λ m. defined (get_elem? ol.instructions m.cur_ins_ptr) m)
    modify (λ m. record m { cur_ins_ptr = suc m.cur_ins_ptr })
    dispatch ins.opcode ins
