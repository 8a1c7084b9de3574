-- ===== src/Exec/Ins/Shifts.antt =====
-- The unsigned shifts of _exec_ins of slake/rt/exec.cc.
use slake.Prelude.{ℕ, ◌≡◌, refl, false}
use slake.Flib.Bitop.{shr_unsigned_overload}
use slake.Exec.Scalars.{IntType, is_signed}
use slake.Exec.Opcode.{Opcode, Instruction}
use slake.Exec.Machine.{Machine, Env, RegularFn}
use slake.Exec.Shifts.{shift_left, shift_right}
use slake.Exec.Ins.{dispatch}

-- An unsigned right shift computes what the left shift computes.
shift_right-shift_left : (t : IntType) → is_signed t ≡ false → shift_right t ≡ shift_left t
unfolding shift_right shift_left shr_unsigned_overload
shift_right-shift_left IntType.u8 h = refl
shift_right-shift_left IntType.u16 h = refl
shift_right-shift_left IntType.u32 h = refl
shift_right-shift_left IntType.u64 h = refl
shift_right-shift_left IntType.usize h = refl
shift_right-shift_left _ h = cc h

-- The instructions SHRU8 .. SHRU64 and SHRUSIZE do what SHLU8 .. SHLU64 and SHLUSIZE do, in every
-- state: they shift to the left.
pub dispatch-shr :
    (env : Env) (fuel : ℕ) (ol : RegularFn) (off : ℕ) (t : IntType) (ins : Instruction)
    (m : Machine)
    → is_signed t ≡ false
    → dispatch env fuel ol off (Opcode.shr t) ins m ≡ dispatch env fuel ol off (Opcode.shl t) ins m
unfolding dispatch
dispatch-shr env fuel ol off t ins m h = rw (shift_right-shift_left t h)
