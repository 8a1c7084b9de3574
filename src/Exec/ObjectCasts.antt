-- ===== src/Exec/ObjectCasts.antt =====
-- CASTOBJ and CASTANY of _exec_ins of slake/rt/exec.cc.
use slake.Prelude.{ℕ, Option, none, some}
use slake.Types.Value.{Payload}
use slake.Frames.Major.{InsRegType}
use slake.Exec.Opcode.{Instruction}
use slake.Exec.Machine.{
  Action, Env, RegularFn, ◌>>=◌, ◌>>◌, throw, or_throw, invalid_operands, check_reg_index,
  read_object, write_value,
}
use slake.Exec.Numeric.{any_number, bank_scalar}
use slake.Exec.Moves.{object_of, plain, any_register}

module _ (env : Env) (ol : RegularFn) (off : ℕ) where
  -- `Object` of a cast to a value: the register is checked as an Any and read as an Object.
  unfoldable pub object_to_any : Instruction → Action (Unit {0})
  unfolding read_object write_value
  object_to_any ins = do
    check_reg_index env ol off ins.reg0 InsRegType.any
    o ← read_object env ol off ins.reg0
    write_value env ol off ins.reg_out (plain (Payload.object o))

  unfoldable pub cast_obj_from : Instruction → Option InsRegType → Action (Unit {0})
  unfolding any_register write_value object_to_any
  cast_obj_from ins (some InsRegType.object) = object_to_any ins
  cast_obj_from ins (some InsRegType.any) = do
    source ← any_register env ol off ins.reg0
    o ← or_throw (object_of source.payload) invalid_operands
    write_value env ol off ins.reg_out (plain (Payload.object o))
  cast_obj_from ins _ = throw invalid_operands

  -- CASTOBJ
  unfoldable pub exec_cast_obj : Instruction → Action (Unit {0})
  unfolding cast_obj_from
  exec_cast_obj ins = do
    check_reg_index env ol off ins.reg_out InsRegType.any
    cast_obj_from ins ins.reg0_type_hint

  unfoldable pub cast_any_from : Instruction → Option InsRegType → Action (Unit {0})
  unfolding any_register write_value object_to_any any_number
  cast_any_from ins none = throw invalid_operands
  cast_any_from ins (some InsRegType.object) = object_to_any ins
  cast_any_from ins (some InsRegType.any) = do
    v ← any_register env ol off ins.reg0
    write_value env ol off ins.reg_out v
  cast_any_from ins (some bank) = any_number env ol off ins (bank_scalar env ol off bank)

  -- CASTANY
  unfoldable pub exec_cast_any : Instruction → Action (Unit {0})
  unfolding cast_any_from
  exec_cast_any ins = do
    check_reg_index env ol off ins.reg_out InsRegType.any
    cast_any_from ins ins.reg0_type_hint
