-- ===== src/Exec/Numeric/Writes.antt =====
-- What the number instructions of slake/rt/exec.cc change, on every branch.
use slake.Prelude.{ℕ, Bool, true, false, Option, none, some}
use slake.Frames.Major.{InsRegType}
use slake.Exec.Scalars.{IntType, ScalarType, int, scalar_bank, scalar_size, int_bank, int_size}
use slake.Exec.Opcode.{Instruction}
use slake.Exec.Machine.{Env, RegularFn}
use slake.Exec.Numeric.{
  operand, operands, exec_arith, exec_compare, exec_cmp, exec_compare_objects, exec_cast, cast_from,
  cast_number, bank_scalar, immediate,
}
use slake.Exec.Shifts.{shift_banks, exec_shift, shift_operand, shift_count, shift_immediate}
use slake.Exec.Moves.{exec_compare_types}
use slake.Exec.Effects.{Relates, Reads, Register, pure-Reads, reads_rules, write_rules}

module _ (env : Env) (ol : RegularFn) (off : ℕ) where
  operand-Reads : (t : ScalarType) (b : Bool) (reg imm : ℕ) → Reads (operand env ol off t b reg imm)
  unfolding operand
  operand-Reads t true reg imm = search reads_rules
  operand-Reads t false reg imm = pure-Reads env ol off (immediate t imm)

  operands-Reads : (t : ScalarType) (ins : Instruction) → Reads (operands env ol off t ins)
  unfolding operands
  operands-Reads t ins = search (reads_rules, operand-Reads)

  pub exec_arith-Relates :
      (t : ScalarType) (op : ℕ → ℕ → Option ℕ) (ins : Instruction)
      → Relates
          (Register env ol off (scalar_bank t) (scalar_size t) ins.reg_out)
          (exec_arith env ol off t op ins)
  unfolding exec_arith
  exec_arith-Relates t op ins = search (write_rules, operands-Reads)

  pub exec_compare-Relates :
      (t : ScalarType) (op : ℕ → ℕ → Bool) (ins : Instruction)
      → Relates
          (Register env ol off InsRegType.bool 1 ins.reg_out)
          (exec_compare env ol off t op ins)
  unfolding exec_compare
  exec_compare-Relates t op ins = search (write_rules, operands-Reads)

  pub exec_cmp-Relates :
      (t : IntType) (ins : Instruction)
      → Relates (Register env ol off InsRegType.i32 4 ins.reg_out) (exec_cmp env ol off t ins)
  unfolding exec_cmp
  exec_cmp-Relates t ins = search (write_rules, operands-Reads)

  pub exec_compare_objects-Relates :
      (result : Bool → Bool) (ins : Instruction)
      → Relates
          (Register env ol off InsRegType.bool 1 ins.reg_out)
          (exec_compare_objects env ol off result ins)
  unfolding exec_compare_objects
  exec_compare_objects-Relates result ins = search write_rules depth 14

  pub exec_compare_types-Relates :
      (result : Bool → Bool) (ins : Instruction)
      → Relates
          (Register env ol off InsRegType.bool 1 ins.reg_out)
          (exec_compare_types env ol off result ins)
  unfolding exec_compare_types
  exec_compare_types-Relates result ins = search write_rules depth 14

  shift_operand-Reads :
      (t : IntType) (b : Bool) (reg imm : ℕ) → Reads (shift_operand env ol off t b reg imm)
  unfolding shift_operand
  shift_operand-Reads t true reg imm = search reads_rules
  shift_operand-Reads t false reg imm = pure-Reads env ol off (immediate (shift_immediate t) imm)

  shift_count-Reads :
      (t : IntType) (b : Bool) (reg imm : ℕ) → Reads (shift_count env ol off t b reg imm)
  unfolding shift_count
  shift_count-Reads t true reg imm = search reads_rules
  shift_count-Reads t false reg imm = pure-Reads env ol off (immediate (int IntType.u32) imm)

  pub exec_shift-Relates :
      (t : IntType) (op : ℕ → ℕ → ℕ) (ins : Instruction)
      → Relates
          (Register env ol off
            (int_bank (shift_banks t).out)
            (int_size (shift_banks t).out)
            ins.reg_out)
          (exec_shift env ol off t op ins)
  unfolding exec_shift
  exec_shift-Relates t op ins = search (write_rules, shift_operand-Reads, shift_count-Reads)

  cast_number-Relates :
      (t : ScalarType) (ins : Instruction) (s : Option ScalarType)
      → Relates
          (Register env ol off (scalar_bank t) (scalar_size t) ins.reg_out)
          (cast_number env ol off t ins s)
  unfolding cast_number
  cast_number-Relates t ins none = search write_rules
  cast_number-Relates t ins (some s) = search write_rules

  cast_from-Relates :
      (t : ScalarType) (ins : Instruction) (hint : Option InsRegType)
      → Relates
          (Register env ol off (scalar_bank t) (scalar_size t) ins.reg_out)
          (cast_from env ol off t ins hint)
  unfolding cast_from
  cast_from-Relates t ins none = search write_rules
  cast_from-Relates t ins (some InsRegType.any) = search write_rules
  cast_from-Relates t ins (some bank) = cast_number-Relates t ins (bank_scalar env ol off bank)

  pub exec_cast-Relates :
      (t : ScalarType) (ins : Instruction)
      → Relates
          (Register env ol off (scalar_bank t) (scalar_size t) ins.reg_out)
          (exec_cast env ol off t ins)
  unfolding exec_cast
  exec_cast-Relates t ins = search (write_rules, cast_from-Relates)
