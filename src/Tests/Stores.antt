-- ===== src/Tests/Stores.antt =====
-- An example of an instruction that stores to a variable and one that loads it.
use slake.Prelude.{◌≡◌, inl, refl, ◌==◌, if◌then◌else◌, arith}
use slake.Exec.Memory.{Memory, load}
use slake.Exec.Scalars.{IntType, int, scalar_payload}
use slake.Exec.Opcode.{Opcode}
use slake.Exec.Machine.{Machine, Result}
use slake.Exec.Moves.{exec_store_scalar, exec_lvalue_scalar}
use slake.Exec.Numeric.Results.{HasBytes}
use slake.Vars.Values.{is_nullable}
use slake.Types.TypeRef.{has_flag}
use slake.Vars.Instructions.{with_vars, register, exec_store_scalar-exec_lvalue_scalar}
use slake.Tests.Execution.{env, code, machine, instruction}
use slake.Tests.Variables.{world, old, static, short}

-- The Any register 1 refers to the first static field of module 1; the I16 register 2 holds 300.
abbrev registers : Memory
registers b =
    if b == 5089
    then 15
    else if b == 5090
    then 6
    else if b == 5091
    then 1
    else if b == 5116
    then 44
    else if b == 5117
    then 1
    else 0

registers-HasBytes : HasBytes registers
registers-HasBytes b = ground arith

exec_store_scalar-exec_lvalue_scalar_example :
    (k l : Machine) × (exec_store_scalar
        (with_vars world old env)
        (code (Opcode.store_scalar (int IntType.i16)))
        16
        (int IntType.i16)
        (instruction (Opcode.store_scalar (int IntType.i16)) 0)
        (machine registers)
      ≡ (Result.ok tt, k))
    × (exec_lvalue_scalar
          (with_vars world old env)
          (code (Opcode.store_scalar (int IntType.i16)))
          16
          (int IntType.i16)
          (instruction (Opcode.lvalue_scalar (int IntType.i16)) 0)
          k
        ≡ (Result.ok tt, l))
    × (scalar_payload (int IntType.i16) (register 16 (int IntType.i16) 3 l)
        ≡ scalar_payload (int IntType.i16) 300)
unfolding is_nullable has_flag load
exec_store_scalar-exec_lvalue_scalar_example =
    exec_store_scalar-exec_lvalue_scalar world old env
      (code (Opcode.store_scalar (int IntType.i16))) 16 (static 0) short (int IntType.i16)
      (instruction (Opcode.store_scalar (int IntType.i16)) 0)
      (instruction (Opcode.lvalue_scalar (int IntType.i16)) 0) (machine registers)
      registers-HasBytes refl refl refl refl refl refl (inl (omega arith)) (refl, refl) refl refl
