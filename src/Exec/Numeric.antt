-- ===== src/Exec/Numeric.antt =====
-- The instructions of _exec_ins of slake/rt/exec.cc that compute with numbers.
pub mod Results
pub mod Writes
use Prim.Native.Nat.Ordering.{lt, eq, gt}
use slake.Prelude.{
  ℕ, ◌%◌, ◌^◌, Bool, true, false, not, Option, none, some, Ordering, ◌==◌, if◌then◌else◌,
}
use slake.Flib.Bitop.{
  Width, w8, w16, w32, w64, shl_signed_at, shl_unsigned_at, shr_signed, shr_unsigned_overload,
}
use slake.Flib.Cmp.{compare_signed, compare_unsigned}
use slake.Flib.Operand.{ins_operand_as_signed, ins_operand_as_unsigned}
use slake.Types.Value.{Value}
use slake.Frames.Major.{InsRegType}
use slake.Exec.Scalars.{
  IntType, FloatType, ScalarType, int, float, int_bits, is_signed, scalar_bank, get_scalar,
  scalar_payload,
}
use slake.Exec.Arith.{
  ArithOp, BitOp, CompareOp, Floats, bool_pattern, int_arith, bit_op, int_compare, scalar_cast,
}
use slake.Exec.Opcode.{Instruction, op0_reg, op1_reg}
use slake.Exec.Machine.{
  Action, Env, RegularFn, ◌>>=◌, ◌>>◌, pure, throw, defined, or_throw, invalid_operands,
  check_reg_index, read_scalar, write_scalar, read_object, read_value, write_value,
}

-- ins_operand_as_i8 .. ins_operand_as_bool
unfoldable pub immediate : ScalarType → ℕ → ℕ
unfolding ins_operand_as_unsigned ins_operand_as_signed
immediate (int t) operand =
    if is_signed t
    then ins_operand_as_signed (int_bits t) operand
    else ins_operand_as_unsigned (int_bits t) operand
immediate (float FloatType.f32) operand = operand % 2 ^ 32
immediate (float FloatType.f64) operand = operand
immediate ScalarType.bool operand = bool_pattern (not (operand == 0))

-- The number that a register or an operand gives; a bool is 0 or 1.
abbrev pub as_number : ScalarType → ℕ → ℕ
as_number ScalarType.bool x = bool_pattern (not (x == 0))
as_number _ x = x

-- -1, 0 and 1 as an int32_t
abbrev pub ordering_pattern : Ordering → ℕ
ordering_pattern lt = 4294967295
ordering_pattern eq = 0
ordering_pattern gt = 1

unfoldable pub three_way_int : IntType → ℕ → ℕ → ℕ
unfolding compare_signed compare_unsigned
three_way_int t a b =
    ordering_pattern (if is_signed t then compare_signed (int_bits t) a b else compare_unsigned a b)

-- CMPF32 and CMPF64 compare the unsigned registers of the same size.
abbrev pub cmp_float_as : FloatType → IntType
cmp_float_as FloatType.f32 = IntType.u32
cmp_float_as FloatType.f64 = IntType.u64

-- fmodf, also for MODF64: the operands and the result are converted.
abbrev pub float_result : Floats → ArithOp → FloatType → ℕ → ℕ → ℕ
float_result f ArithOp.mod_op FloatType.f64 a b = f.to_float FloatType.f64 FloatType.f32 (
    f.float_arith ArithOp.mod_op FloatType.f32 (f.to_float FloatType.f32 FloatType.f64 a)
      (f.to_float FloatType.f32 FloatType.f64 b))
float_result f op t a b = f.float_arith op t a b

module _ (env : Env) (ol : RegularFn) (off : ℕ) where
  -- An operand in a register, if the flag is set, or in the instruction.
  unfoldable pub operand : ScalarType → Bool → ℕ → ℕ → Action ℕ
  unfolding read_scalar immediate
  operand t true reg imm = do
    check_reg_index env ol off reg (scalar_bank t)
    x ← read_scalar env ol off t reg
    pure (as_number t x)
  operand t false reg imm = pure (immediate t imm)

  unfoldable pub operands : ScalarType → Instruction → Action (ℕ × ℕ)
  unfolding operand
  operands t ins = do
    a ← operand t (op0_reg ins) ins.reg0 ins.operand0
    b ← operand t (op1_reg ins) ins.reg1 ins.operand1
    pure (a, b)

  -- _basic_arithm_opcode, MODF32 and MODF64
  unfoldable pub exec_arith : ScalarType → (ℕ → ℕ → Option ℕ) → Instruction → Action (Unit {0})
  unfolding operands write_scalar
  exec_arith t op ins = do
    (a, b) ← operands t ins
    check_reg_index env ol off ins.reg_out (scalar_bank t)
    r ← defined (op a b)
    write_scalar env ol off t ins.reg_out r

  -- _basic_comparison_opcode
  unfoldable pub exec_compare : ScalarType → (ℕ → ℕ → Bool) → Instruction → Action (Unit {0})
  unfolding operands write_scalar
  exec_compare t op ins = do
    check_reg_index env ol off ins.reg_out InsRegType.bool
    (a, b) ← operands t ins
    write_scalar env ol off ScalarType.bool ins.reg_out (bool_pattern (op a b))

  -- _basic_cmp_op_opcode. The output register is checked as a Bool and written as an I32.
  unfoldable pub exec_cmp : IntType → Instruction → Action (Unit {0})
  unfolding operands write_scalar three_way_int
  exec_cmp t ins = do
    check_reg_index env ol off ins.reg_out InsRegType.bool
    (a, b) ← operands (int t) ins
    write_scalar env ol off (int IntType.i32) ins.reg_out (three_way_int t a b)

  -- EQOBJ and NEQOBJ
  unfoldable pub exec_compare_objects : (Bool → Bool) → Instruction → Action (Unit {0})
  unfolding read_object write_scalar
  exec_compare_objects result ins = do
    check_reg_index env ol off ins.reg0 InsRegType.object
    a ← read_object env ol off ins.reg0
    check_reg_index env ol off ins.reg1 InsRegType.object
    b ← read_object env ol off ins.reg1
    check_reg_index env ol off ins.reg_out InsRegType.bool
    write_scalar env ol off ScalarType.bool ins.reg_out (bool_pattern (result (a == b)))

  -- The number type of a bank, for the type hint of a cast
  abbrev pub bank_scalar : InsRegType → Option ScalarType
  bank_scalar InsRegType.i8 = some (int IntType.i8)
  bank_scalar InsRegType.i16 = some (int IntType.i16)
  bank_scalar InsRegType.i32 = some (int IntType.i32)
  bank_scalar InsRegType.i64 = some (int IntType.i64)
  bank_scalar InsRegType.isize = some (int IntType.isize)
  bank_scalar InsRegType.u8 = some (int IntType.u8)
  bank_scalar InsRegType.u16 = some (int IntType.u16)
  bank_scalar InsRegType.u32 = some (int IntType.u32)
  bank_scalar InsRegType.u64 = some (int IntType.u64)
  bank_scalar InsRegType.usize = some (int IntType.usize)
  bank_scalar InsRegType.f32 = some (float FloatType.f32)
  bank_scalar InsRegType.f64 = some (float FloatType.f64)
  bank_scalar InsRegType.bool = some ScalarType.bool
  bank_scalar _ = none

  -- Where the hint is the bank of a number
  unfoldable pub cast_number : ScalarType → Instruction → Option ScalarType → Action (Unit {0})
  unfolding read_scalar write_scalar scalar_cast
  cast_number t ins none = throw invalid_operands
  cast_number t ins (some s) = do
    check_reg_index env ol off ins.reg0 (scalar_bank s)
    x ← read_scalar env ol off s ins.reg0
    r ← defined (scalar_cast env.floats t s (as_number s x))
    write_scalar env ol off t ins.reg_out r

  -- The switch over the type hint
  unfoldable pub cast_from : ScalarType → Instruction → Option InsRegType → Action (Unit {0})
  unfolding cast_number read_value get_scalar write_scalar
  cast_from t ins none = throw invalid_operands
  cast_from t ins (some InsRegType.any) = do
    check_reg_index env ol off ins.reg0 InsRegType.any
    v ← read_value env ol off ins.reg0
    x ← or_throw (get_scalar t v.payload) invalid_operands
    write_scalar env ol off t ins.reg_out x
  cast_from t ins (some bank) = cast_number t ins (bank_scalar bank)

  -- _arithm_cast_opcode
  unfoldable pub exec_cast : ScalarType → Instruction → Action (Unit {0})
  unfolding cast_from
  exec_cast t ins = do
    check_reg_index env ol off ins.reg_out (scalar_bank t)
    cast_from t ins ins.reg0_type_hint

  -- CASTANY of a number: the flags of the value that was in the register stay.
  unfoldable pub any_number : Instruction → Option ScalarType → Action (Unit {0})
  unfolding read_scalar read_value write_value scalar_payload
  any_number ins none = throw invalid_operands
  any_number ins (some s) = do
    check_reg_index env ol off ins.reg0 (scalar_bank s)
    x ← read_scalar env ol off s ins.reg0
    old ← read_value env ol off ins.reg_out
    write_value env ol off ins.reg_out (record old { payload = scalar_payload s x })
