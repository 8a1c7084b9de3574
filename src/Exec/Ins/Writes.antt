-- ===== src/Exec/Ins/Writes.antt =====
-- What the number instructions of _exec_ins of slake/rt/exec.cc change, on every branch.
use mathlib.Core.Path.{subst}
use slake.Prelude.{ℕ, ◌≡◌, Option, none, some}
use slake.Exec.Scalars.{IntType, ScalarType, int, float, scalar_bank, scalar_size}
use slake.Exec.Opcode.{Opcode, Instruction}
use slake.Exec.Machine.{Machine, Action, Env, RegularFn}
use slake.Exec.Numeric.{cmp_float_as}
use slake.Exec.Shifts.{shift_banks}
use slake.Exec.Ins.{dispatch}
use slake.Exec.Effects.{Relates, Register}
use slake.Exec.Numeric.Writes.{
  exec_arith-Relates, exec_compare-Relates, exec_compare_objects-Relates,
  exec_compare_types-Relates, exec_shift-Relates, exec_cmp-Relates, exec_cast-Relates,
}

-- The type of the register that a number instruction writes
abbrev pub written : Opcode → Option ScalarType
written (Opcode.int_arith_op op t) = some (int t)
written (Opcode.float_arith_op op t) = some (float t)
written (Opcode.int_bit_op op t) = some (int t)
written Opcode.and_bool = some ScalarType.bool
written Opcode.or_bool = some ScalarType.bool
written (Opcode.int_compare_op op t) = some ScalarType.bool
written (Opcode.lt_float t) = some ScalarType.bool
written (Opcode.gt_float t) = some ScalarType.bool
written (Opcode.lteq_float t) = some ScalarType.bool
written (Opcode.gteq_float t) = some ScalarType.bool
written Opcode.eq_bool = some ScalarType.bool
written Opcode.neq_bool = some ScalarType.bool
written Opcode.eq_obj = some ScalarType.bool
written Opcode.neq_obj = some ScalarType.bool
written Opcode.eq_type = some ScalarType.bool
written Opcode.neq_type = some ScalarType.bool
written (Opcode.shl t) = some (int (shift_banks t).out)
written (Opcode.shr t) = some (int (shift_banks t).out)
written (Opcode.cmp_int t) = some (int IntType.i32)
written (Opcode.cmp_float t) = some (int IntType.i32)
written (Opcode.cast_scalar t) = some t
written _ = none

module _ (env : Env) (fuel : ℕ) (ol : RegularFn) (off : ℕ) where
  abbrev WritesTo : Option ScalarType → Instruction → Action (Unit {0}) → Type 0
  WritesTo none ins a = Unit {0}
  WritesTo (some t) ins a =
      Relates (Register env ol off (scalar_bank t) (scalar_size t) ins.reg_out) a

  dispatch-WritesTo :
      (op : Opcode) (ins : Instruction)
      → WritesTo (written op) ins (dispatch env fuel ol off op ins)
  unfolding dispatch
  dispatch-WritesTo (Opcode.int_arith_op op t) ins = exec_arith-Relates env ol off (int t) _ ins
  dispatch-WritesTo (Opcode.float_arith_op op t) ins = exec_arith-Relates env ol off (float t) _ ins
  dispatch-WritesTo (Opcode.int_bit_op op t) ins = exec_arith-Relates env ol off (int t) _ ins
  dispatch-WritesTo Opcode.and_bool ins = exec_arith-Relates env ol off ScalarType.bool _ ins
  dispatch-WritesTo Opcode.or_bool ins = exec_arith-Relates env ol off ScalarType.bool _ ins
  dispatch-WritesTo (Opcode.int_compare_op op t) ins = exec_compare-Relates env ol off (int t) _ ins
  dispatch-WritesTo (Opcode.lt_float t) ins = exec_compare-Relates env ol off (float t) _ ins
  dispatch-WritesTo (Opcode.gt_float t) ins = exec_compare-Relates env ol off (float t) _ ins
  dispatch-WritesTo (Opcode.lteq_float t) ins = exec_compare-Relates env ol off (float t) _ ins
  dispatch-WritesTo (Opcode.gteq_float t) ins = exec_compare-Relates env ol off (float t) _ ins
  dispatch-WritesTo Opcode.eq_bool ins = exec_compare-Relates env ol off ScalarType.bool _ ins
  dispatch-WritesTo Opcode.neq_bool ins = exec_compare-Relates env ol off ScalarType.bool _ ins
  dispatch-WritesTo Opcode.eq_obj ins = exec_compare_objects-Relates env ol off _ ins
  dispatch-WritesTo Opcode.neq_obj ins = exec_compare_objects-Relates env ol off _ ins
  dispatch-WritesTo Opcode.eq_type ins = exec_compare_types-Relates env ol off _ ins
  dispatch-WritesTo Opcode.neq_type ins = exec_compare_types-Relates env ol off _ ins
  dispatch-WritesTo (Opcode.shl t) ins = exec_shift-Relates env ol off t _ ins
  dispatch-WritesTo (Opcode.shr t) ins = exec_shift-Relates env ol off t _ ins
  dispatch-WritesTo (Opcode.cmp_int t) ins = exec_cmp-Relates env ol off t ins
  dispatch-WritesTo (Opcode.cmp_float t) ins = exec_cmp-Relates env ol off (cmp_float_as t) ins
  dispatch-WritesTo (Opcode.cast_scalar t) ins = exec_cast-Relates env ol off t ins
  dispatch-WritesTo _ ins = tt

  -- An instruction that computes a number changes no byte outside of one register of its output
  -- type, and nothing else of the state, also where it throws an exception.
  pub dispatch-Register :
      (op : Opcode) (t : ScalarType) (ins : Instruction) (m : Machine)
      → written op ≡ some t
      → Register env ol off
          (scalar_bank t)
          (scalar_size t)
          ins.reg_out
          m
          (dispatch env fuel ol off op ins m).1
  unfolding Relates
  dispatch-Register op t ins m e =
      subst (λ (w : Option ScalarType). WritesTo w ins (dispatch env fuel ol off op ins)) e
        (dispatch-WritesTo op ins) m
