-- ===== src/Exec/Ins/Fetches.antt =====
-- An instruction of slake/rt/exec.cc from its fetch to its result.
use slake.Prelude.{ℕ, suc, ◌+◌, ◌≤◌, ◌<◌, ◌≡◌, ◌⊎◌, ap, ◌∙◌, true, Option, some, get_elem?}
use slake.Exec.Scalars.{IntType, int_size}
use slake.Exec.Arith.{ArithOp, int_arith}
use slake.Exec.Opcode.{Opcode, Instruction, op0_reg, op1_reg}
use slake.Exec.Machine.{Machine, Env, RegularFn, Result, ◌>>=◌, defined}
use slake.Exec.Numeric.Results.{HasBytes, int_addr, int_register, InBank, exec_arith-int_register}
use slake.Exec.Ins.{dispatch, exec_ins}

module _ (env : Env) (fuel : ℕ) (ol : RegularFn) (off : ℕ) where
  abbrev pub stepped : Machine → Machine
  stepped m = record m { cur_ins_ptr = suc m.cur_ins_ptr }

  -- An instruction is fetched at the index, which is advanced, and dispatched.
  pub exec_ins-dispatch :
      (ins : Instruction) (m : Machine)
      → get_elem? ol.instructions m.cur_ins_ptr ≡ some ins
      → exec_ins env fuel ol off m ≡ dispatch env fuel ol off ins.opcode ins (stepped m)
  unfolding exec_ins
  exec_ins-dispatch ins m e =
      ap
        (λ (o : Option Instruction).
          ((λ k. defined o k) >>= λ i k. dispatch env fuel ol off i.opcode i (stepped k)) m)
        e

  -- Where the next instruction is an integer operation on two registers, its three registers are
  -- in their bank and the operation is defined on what the operands hold, the instruction succeeds:
  -- its index is advanced by one, the output register holds the result, every byte outside of the
  -- output register is as before and so are the frames and the stack.
  pub exec_ins-int_register :
      (op : ArithOp) (t : IntType) (ins : Instruction) (m : Machine) (r : ℕ)
      → HasBytes m.memory
      → get_elem? ol.instructions m.cur_ins_ptr ≡ some ins
      → ins.opcode ≡ Opcode.int_arith_op op t
      → op0_reg ins ≡ true
      → op1_reg ins ≡ true
      → InBank env ol off t ins.reg0
      → InBank env ol off t ins.reg1
      → InBank env ol off t ins.reg_out
      → int_arith op t (int_register env ol off t ins.reg0 m) (int_register env ol off t ins.reg1 m)
        ≡ some r
      → (k : Machine) × (exec_ins env fuel ol off m ≡ (Result.ok tt, k))
        × (k.cur_ins_ptr ≡ suc m.cur_ins_ptr)
        × (int_register env ol off t ins.reg_out k ≡ r)
        × ((b : ℕ)
            → (b < int_addr env ol off t ins.reg_out m)
              ⊎ (int_addr env ol off t ins.reg_out m + int_size t ≤ b)
            → k.memory b ≡ m.memory b)
        × (k.context ≡ m.context)
  unfolding dispatch
  exec_ins-int_register op t ins m r bytes fetched code f g a b c e =
      let (k, done, holds, others, same) =
        exec_arith-int_register env ol off op t ins (stepped m) r bytes f g a b c e in
      (
        k,
        exec_ins-dispatch ins m fetched
            ∙ ap (λ (o : Opcode). dispatch env fuel ol off o ins (stepped m)) code
            ∙ done,
        ap (λ (x : Machine). x.cur_ins_ptr) same,
        holds,
        others,
        ap (λ (x : Machine). x.context) same,
      )
