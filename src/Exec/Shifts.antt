-- ===== src/Exec/Shifts.antt =====
-- The shifts of _exec_ins of slake/rt/exec.cc.
use slake.Prelude.{ℕ, Bool, true, false, if◌then◌else◌}
use slake.Flib.Bitop.{
  Width, w8, w16, w32, w64, shl_signed_at, shl_unsigned_at, shr_signed, shr_unsigned_overload,
}
use slake.Exec.Scalars.{IntType, ScalarType, int, is_signed, scalar_bank}
use slake.Exec.Opcode.{Instruction, op0_reg, op1_reg}
use slake.Exec.Machine.{
  Action, Env, RegularFn, ◌>>=◌, ◌>>◌, pure, check_reg_index, read_scalar, write_scalar,
}
use slake.Exec.Numeric.{immediate}

-- The types of a shift's left operand, of the check of its count, of the check of its output
-- register and of the register that is written.
pub record ShiftBanks : Type 0 where
  pub left : IntType
  pub count_check : IntType
  pub out_check : IntType
  pub out : IntType

abbrev pub same_banks : IntType → ShiftBanks
same_banks t = record { left = t; count_check = t; out_check = t; out = t }

abbrev pub unsigned_banks : IntType → IntType → ShiftBanks
unsigned_banks u i = record { left = u; count_check = i; out_check = u; out = i }

abbrev pub shift_banks : IntType → ShiftBanks
shift_banks IntType.u8 = unsigned_banks IntType.u8 IntType.i8
shift_banks IntType.u16 = unsigned_banks IntType.u16 IntType.i16
shift_banks IntType.u32 = unsigned_banks IntType.u32 IntType.i32
shift_banks IntType.u64 = unsigned_banks IntType.u64 IntType.i64
shift_banks IntType.usize = same_banks IntType.isize
shift_banks t = same_banks t

-- The immediate left operand of a shift: that of an unsigned shift is read as a signed number.
abbrev pub shift_immediate : IntType → ScalarType
shift_immediate IntType.u8 = int IntType.i8
shift_immediate IntType.u16 = int IntType.i16
shift_immediate IntType.u32 = int IntType.i32
shift_immediate IntType.u64 = int IntType.i64
shift_immediate t = int t

abbrev pub width : IntType → Width
width IntType.i8 = w8
width IntType.i16 = w16
width IntType.i32 = w32
width IntType.u8 = w8
width IntType.u16 = w16
width IntType.u32 = w32
width _ = w64

unfoldable pub shift_left : IntType → ℕ → ℕ → ℕ
unfolding shl_signed_at shl_unsigned_at
shift_left t lhs rhs =
    if is_signed t then shl_signed_at (width t) lhs rhs else shl_unsigned_at (width t) lhs rhs

-- SHRU8 .. SHRU64 are made by the macro of SHLU8 .. SHLU64, SHRUSIZE calls shr_unsigned.
unfoldable pub shift_right : IntType → ℕ → ℕ → ℕ
unfolding shr_signed shl_unsigned_at shr_unsigned_overload
shift_right IntType.usize lhs rhs = shr_unsigned_overload w64 lhs rhs
shift_right t lhs rhs =
    if is_signed t then shr_signed (width t) lhs rhs else shl_unsigned_at (width t) lhs rhs

module _ (env : Env) (ol : RegularFn) (off : ℕ) where
  -- The count of a shift
  unfoldable pub shift_count : IntType → Bool → ℕ → ℕ → Action ℕ
  unfolding read_scalar immediate
  shift_count t true reg imm = do
    check_reg_index env ol off reg (scalar_bank (int t))
    read_scalar env ol off (int IntType.u32) reg
  shift_count t false reg imm = pure (immediate (int IntType.u32) imm)

  unfoldable pub shift_operand : IntType → Bool → ℕ → ℕ → Action ℕ
  unfolding read_scalar immediate
  shift_operand t true reg imm = do
    check_reg_index env ol off reg (scalar_bank (int (shift_banks t).left))
    read_scalar env ol off (int (shift_banks t).left) reg
  shift_operand t false reg imm = pure (immediate (shift_immediate t) imm)

  -- The macros for shifts, SHLISIZE, SHLUSIZE, SHRISIZE and SHRUSIZE
  unfoldable pub exec_shift : IntType → (ℕ → ℕ → ℕ) → Instruction → Action (Unit {0})
  unfolding shift_count shift_operand write_scalar
  exec_shift t op ins = do
    a ← shift_operand t (op0_reg ins) ins.reg0 ins.operand0
    n ← shift_count (shift_banks t).count_check (op1_reg ins) ins.reg1 ins.operand1
    check_reg_index env ol off ins.reg_out (scalar_bank (int (shift_banks t).out_check))
    write_scalar env ol off (int (shift_banks t).out) ins.reg_out (op a n)
