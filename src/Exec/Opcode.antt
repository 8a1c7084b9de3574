-- ===== src/Exec/Opcode.antt =====
-- The instructions of slake/obj/fn.h and the opcodes of slake/opcode.h. The opcodes that a macro
-- of slake/rt/exec.cc defines for many types are one constructor with the type.
use slake.Prelude.{ℕ, ◌/◌, ◌%◌, Bool, Option, ◌==◌}
use slake.Exec.Scalars.{IntType, FloatType, ScalarType}
use slake.Exec.Arith.{ArithOp, BitOp, CompareOp}
use slake.Frames.Major.{InsRegType}

-- `other` is an opcode by its number that _exec_ins has no case for.
pub data Opcode : Type 0 where
  lvalue_scalar store_scalar cast_scalar : ScalarType → Opcode
  lvalue store lobj ltype jmp br : Opcode
  int_arith_op : ArithOp → IntType → Opcode
  float_arith_op : ArithOp → FloatType → Opcode
  int_bit_op : BitOp → IntType → Opcode
  and_bool or_bool eq_bool neq_bool : Opcode
  int_compare_op : CompareOp → IntType → Opcode
  lt_float gt_float lteq_float gteq_float : FloatType → Opcode
  eq_obj neq_obj eq_type neq_type : Opcode
  shl shr cmp_int : IntType → Opcode
  cmp_float : FloatType → Opcode
  load rload lcurfn larg lvar enter leave pusharg call mcall ctorcall retvoid ret lthis new : Opcode
  cast_obj cast_any : Opcode
  other : ℕ → Opcode

pub record Instruction : Type 0 where
  pub opcode : Opcode
  pub flags : ℕ
  pub reg0_type_hint : Option InsRegType
  pub reg_out : ℕ
  pub reg0 : ℕ
  pub reg1 : ℕ
  pub operand0 : ℕ
  pub operand1 : ℕ

-- `flags & INS_OP0_REG` and `flags & INS_OP1_REG`
abbrev pub op0_reg : Instruction → Bool
op0_reg ins = ins.flags % 2 == 1

abbrev pub op1_reg : Instruction → Bool
op1_reg ins = ins.flags / 2 % 2 == 1

-- INVALID_REG
abbrev pub invalid_reg : ℕ
invalid_reg = 4294967295
