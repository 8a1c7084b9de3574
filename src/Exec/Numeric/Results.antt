-- ===== src/Exec/Numeric/Results.antt =====
-- What the arithmetic instructions of slake/rt/exec.cc do to the registers.
use slake.Prelude.{ℕ, ◌+◌, ◌≤◌, ◌<◌, ◌^◌, ◌≡◌, ◌⊎◌, refl, true, some, ltb, arith}
use slake.Exec.Memory.{Memory, load, store, store-other, load-store, load-lt}
use slake.Exec.Scalars.{IntType, int, int_bits, int_size, int_bank}
use slake.Exec.Arith.{ArithOp, int_arith}
use slake.Exec.Arith.Bounds.{int_arith-lt}
use slake.Exec.Opcode.{Instruction, op0_reg, op1_reg}
use slake.Exec.Machine.{
  Machine, Env, RegularFn, Result, reg_addr, read_scalar, read_bank, write_scalar, write_bank,
}
use slake.Exec.Numeric.{operand, operands, exec_arith}

-- The bytes of a register hold the patterns of its type.
bits-size : (t : IntType) (x : ℕ) → x < 2 ^ int_bits t → x < 256 ^ int_size t
bits-size IntType.i8 x h = omega (arith, h)
bits-size _ x h = omega (arith, h)

size-bits : (t : IntType) (x : ℕ) → x < 256 ^ int_size t → x < 2 ^ int_bits t
size-bits IntType.i8 x h = omega (arith, h)
size-bits _ x h = omega (arith, h)

abbrev pub HasBytes : Memory → Type 0
HasBytes m = (b : ℕ) → m b < 256

module _ (env : Env) (ol : RegularFn) (off : ℕ) where
  abbrev pub int_addr : IntType → ℕ → Machine → ℕ
  int_addr t reg m = reg_addr off (int_bank t) (int_size t) reg m

  -- The number in an integer register
  abbrev pub int_register : IntType → ℕ → Machine → ℕ
  int_register t reg m = load (int_size t) (int_addr t reg m) m.memory

  abbrev pub InBank : IntType → ℕ → Type 0
  InBank t reg = ltb reg (ol.num_registers (int_bank t)) ≡ true

  exec_arith-written :
      (op : ArithOp) (t : IntType) (ins : Instruction) (m : Machine) (r : ℕ)
      → op0_reg ins ≡ true
      → op1_reg ins ≡ true
      → InBank t ins.reg0
      → InBank t ins.reg1
      → InBank t ins.reg_out
      → int_arith op t (int_register t ins.reg0 m) (int_register t ins.reg1 m) ≡ some r
      → exec_arith env ol off (int t) (int_arith op t) ins m ≡ (
        Result.ok tt,
        record m { memory = store (int_size t) (int_addr t ins.reg_out m) r m.memory },
      )
  unfolding exec_arith operands operand read_scalar read_bank write_scalar write_bank
  exec_arith-written op t ins m r f g a b c e = simp (f, g, a, b, c, e)

  -- Where both operands of an arithmetic instruction are registers, the three registers are in
  -- their bank and the operation is defined on what the operands hold, the instruction succeeds;
  -- behind it the output register holds the result, and every byte outside of the output register
  -- and the rest of the state are as before.
  pub exec_arith-int_register :
      (op : ArithOp) (t : IntType) (ins : Instruction) (m : Machine) (r : ℕ)
      → HasBytes m.memory
      → op0_reg ins ≡ true
      → op1_reg ins ≡ true
      → InBank t ins.reg0
      → InBank t ins.reg1
      → InBank t ins.reg_out
      → int_arith op t (int_register t ins.reg0 m) (int_register t ins.reg1 m) ≡ some r
      → (k : Machine) × (exec_arith env ol off (int t) (int_arith op t) ins m ≡ (Result.ok tt, k))
        × (int_register t ins.reg_out k ≡ r)
        × ((b : ℕ)
            → (b < int_addr t ins.reg_out m) ⊎ (int_addr t ins.reg_out m + int_size t ≤ b)
            → k.memory b ≡ m.memory b)
        × (record k { memory = m.memory } ≡ m)
  exec_arith-int_register op t ins m r bytes f g a b c e =
      let at = int_addr t ins.reg_out m in
      let small =
        int_arith-lt op t _ _ r (size-bits t _ (load-lt (int_size t) _ m.memory bytes)) e in
      (
        record m { memory = store (int_size t) at r m.memory },
        exec_arith-written op t ins m r f g a b c e,
        load-store (int_size t) at r m.memory (bits-size t r small),
        store-other (int_size t) at r m.memory,
        refl,
      )
