-- ===== src/Exec/Calls/Enters.antt =====
-- What a CALL of slake/rt/exec.cc leaves for the loop: the index, the frames and the change.
use mathlib.Core.Path.{subst}
use slake.Prelude.{
  ℕ, ◌%◌, ◌^◌, ◌≡◌, refl, ap, ◌∙◌, sym, Bool, true, false, Option, none, some, ◌==◌, ltb,
  if◌then◌else◌, arith,
}
use slake.Frames.Stack.{size_max}
use slake.Frames.Major.{InsRegType, FnOverloadingObject, Context, FrameError}
use slake.Frames.Major.Functions.{Enters, create_new_major_frame-Enters}
use slake.Exec.Opcode.{Instruction, invalid_reg}
use slake.Exec.Machine.{Machine, Env, RegularFn, Result, ◌>>=◌, ◌>>◌, pure, require, frame_at}
use slake.Exec.Calls.{call, callee, exec_call, output_register, change_of}
use slake.Exec.Calls.Returns.{called}

-- The state `k` behind a call of `fn` in the frame at `off` of the state `m`
pub record Entered (off : ℕ) (fn : FnOverloadingObject) (m k : Machine) : Type 0 where
  pub same_index : k.cur_ins_ptr ≡ m.cur_ins_ptr
  pub change : k.context_changes ≡ change_of fn (frame_at off m).cur_fn
  pub new_fn : (frame_at k.context.off_cur_major_frame k).cur_fn ≡ some fn
  pub kept_index : (frame_at off k).cur_ins ≡ (frame_at off m).cur_ins

module _ (env : Env) (ol : RegularFn) (off : ℕ) (fn : FnOverloadingObject) where
  called-Entered :
      (p : Option FrameError × Context) (m k : Machine)
      → Enters env.sizes env.is_compatible m.context fn p
      → called env ol off (frame_at off m).cur_fn fn p m ≡ (Result.ok tt, k)
      → (k.context.off_cur_major_frame == off) ≡ false
      → Entered off fn m k
  called-Entered (some x, d) m k h e n = cc e
  called-Entered (none, d) m k (new, others) e n =
      let at = ap (λ (p : Result (Unit {0}) × Machine). p.1.context.off_cur_major_frame) e in
      let apart : (d.off_cur_major_frame == off) ≡ false = ap (λ o. o == off) at ∙ n in
      let other : (off == d.off_cur_major_frame) ≡ false = ground (arith, apart) in
      subst (Entered off fn m) (ap (λ (p : Result (Unit {0}) × Machine). p.1) e) (record {
        same_index = refl;
        change = refl;
        new_fn =
            ap
              (λ (b : Bool).
                (if b
                  then record (d.frames off) { off_next_args = size_max; num_next_args = 0 }
                  else d.frames d.off_cur_major_frame).cur_fn)
              apart
            ∙ new;
        kept_index = ground (arith, others off other);
      })

  -- A CALL whose register holds the function, where it succeeds with a frame of its own
  pub exec_call-Entered :
      (ins : Instruction) (m k : Machine)
      → callee env ol off ins.reg0 m ≡ (Result.ok fn, m)
      → exec_call env ol off ins m ≡ (Result.ok tt, k)
      → (k.context.off_cur_major_frame == off) ≡ false
      → Entered off fn m k
  unfolding exec_call call
  exec_call-Entered ins m k held e n =
      let f = frame_at off m in
      let rest = λ (g : FnOverloadingObject).
        output_register env ol off ins.reg_out >>= λ output. call env ol off 0 g output in
      let behind : rest fn m ≡ (Result.ok tt, k) =
        sym (ap (λ s. ((λ (l : Machine). s) >>= rest) m) held) ∙ e in
      by_output
        (if ins.reg_out == invalid_reg
          then true
          else ltb ins.reg_out (ol.num_registers InsRegType.any))
        behind
    where
      by_output :
          (b : Bool)
          → ((require b >> pure ins.reg_out) >>= λ output. call env ol off 0 fn output) m
            ≡ (Result.ok tt, k)
          → Entered off fn m k
      by_output false h = cc h
      by_output true h =
          let f = frame_at off m in
          called-Entered _ m k
            (create_new_major_frame-Enters env.sizes env.is_compatible m.context fn 0
              f.off_next_args (f.num_next_args % 2 ^ 32) ins.reg_out)
            h n
