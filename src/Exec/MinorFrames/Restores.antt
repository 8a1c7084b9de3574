-- ===== src/Exec/MinorFrames/Restores.antt =====
-- ENTER of slake/rt/exec.cc and the LEAVE that answers it.
use slake.Prelude.{ℕ, suc, ◌≡◌, refl, ap, ◌∙◌, sym, false, Option, none, some, ◌==◌, arith}
use slake.Flib.Operand.{ins_operand_as_unsigned}
use slake.Frames.Stack.{DataStack, size_max, stack_alloc, aligned_stack_alloc}
use slake.Frames.Major.{MajorFrame}
use slake.Exec.Opcode.{Instruction}
use slake.Exec.Machine.{
  Machine, MinorFrame, Env, RegularFn, Result, ◌>>=◌, ◌>>◌, pure, gets, modify, frame_at,
  set_frame_at,
}
use slake.Exec.Calls.{stacked, alloc_on_stack, new_minor_frame, set_minor_frame}
use slake.Exec.MinorFrames.{
  invalidate_records, drop_minor_frame, leave_minor_frame, leave_levels, exec_enter, exec_leave,
}

module _ (env : Env) (ol : RegularFn) (off : ℕ) where
  -- The minor frame that a major frame is in
  abbrev pub innermost : Machine → MinorFrame
  innermost m = m.minor_frames (frame_at off m).off_cur_minor_frame

  -- The same minor frame, and the stack at the same place
  abbrev pub StaysIn : Machine → Machine → Type 0
  StaysIn k l =
      (innermost l ≡ innermost k)
      × (l.context.stack.data_stack ≡ k.context.stack.data_stack)
      × (l.context.stack.stack_size ≡ k.context.stack.stack_size)

  -- ENTER behind its allocation
  abbrev entered : ℕ → Result (Unit {0}) × Machine → Result (Unit {0}) × Machine
  entered prev r =
      ((λ (m : Machine). r) >> (do
        mf_off ← gets (λ m. m.context.stack.stack_top)
        f ← gets (frame_at off)
        modify (set_minor_frame mf_off (new_minor_frame f.off_cur_minor_frame prev))
        modify (set_frame_at off (record f { off_cur_minor_frame = mf_off }))))
        r.1

  own-minor_frame :
      (at : ℕ) (f : MajorFrame) (mf : MinorFrame) (m : Machine)
      → innermost
          (set_frame_at off (record f { off_cur_minor_frame = at }) (set_minor_frame at mf m))
        ≡ mf
  own-minor_frame at f mf m = ground arith

  alloc-place :
      (size alignment : ℕ) (s : DataStack)
      → ((aligned_stack_alloc size alignment s).1.data_stack ≡ s.data_stack)
        × ((aligned_stack_alloc size alignment s).1.stack_size ≡ s.stack_size)
  unfolding aligned_stack_alloc stack_alloc
  alloc-place size alignment s = (ground arith, ground arith)

  entered-innermost :
      (s : DataStack) (p : Option ℕ × DataStack) (m k : Machine)
      → (p.1.data_stack ≡ s.data_stack) × (p.1.stack_size ≡ s.stack_size)
      → entered s.stack_top (stacked p m) ≡ (Result.ok tt, k)
      → (innermost k ≡ new_minor_frame (frame_at off m).off_cur_minor_frame s.stack_top)
        × (k.context.stack.data_stack ≡ s.data_stack)
        × (k.context.stack.stack_size ≡ s.stack_size)
  entered-innermost s (none, t) m k (d, z) e = cc e
  entered-innermost s (some a, t) m k (d, z) e = (
    sym (ap (λ (r : Result (Unit {0}) × Machine). innermost r.1) e)
        ∙ own-minor_frame t.stack_top (frame_at off m)
            (new_minor_frame (frame_at off m).off_cur_minor_frame s.stack_top)
            (record m { context = record m.context { stack = t } }),
    sym (ap (λ (r : Result (Unit {0}) × Machine). r.1.context.stack.data_stack) e) ∙ d,
    sym (ap (λ (r : Result (Unit {0}) × Machine). r.1.context.stack.stack_size) e) ∙ z,
  )

  leave_minor_frame-drop :
      (fuel : ℕ) (l : Machine) (mf : MinorFrame)
      → innermost l ≡ mf
      → (mf.off_last_minor_frame == size_max) ≡ false
      → mf.off_alloca_records ≡ size_max
      → leave_minor_frame env ol off (suc fuel) l ≡ (Result.ok tt, drop_minor_frame env ol off mf l)
  unfolding leave_minor_frame invalidate_records
  leave_minor_frame-drop fuel l mf e b a = simp (e, b, a)

  drop_minor_frame-stack :
      (m l : Machine)
      → l.context.stack.data_stack ≡ m.context.stack.data_stack
      → l.context.stack.stack_size ≡ m.context.stack.stack_size
      → (drop_minor_frame env ol off
          (new_minor_frame (frame_at off m).off_cur_minor_frame m.context.stack.stack_top)
          l).context.stack
        ≡ m.context.stack
  drop_minor_frame-stack m l d z =
      λ i. record { data_stack = d i; stack_size = z i; stack_top = m.context.stack.stack_top }

  -- ENTER and then LEAVE of one level, within a major frame that has a minor frame already: where
  -- ENTER succeeds and the instructions between keep the new minor frame and make no local
  -- variable in it, LEAVE succeeds, and the stack and the current minor frame are what they were.
  pub exec_enter-exec_leave :
      (fuel : ℕ) (ins : Instruction) (m k l : Machine)
      → ((frame_at off m).off_cur_minor_frame == size_max) ≡ false
      → exec_enter env ol off m ≡ (Result.ok tt, k)
      → StaysIn k l
      → ins_operand_as_unsigned 32 ins.operand0 ≡ 1
      → (e : Machine) × (exec_leave env ol off (suc fuel) ins l ≡ (Result.ok tt, e))
        × (e.context.stack ≡ m.context.stack)
        × ((frame_at off e).off_cur_minor_frame ≡ (frame_at off m).off_cur_minor_frame)
        × (e.context.off_cur_major_frame ≡ l.context.off_cur_major_frame)
  unfolding exec_enter alloc_on_stack exec_leave leave_levels
  exec_enter-exec_leave fuel ins m k l nested e (stays, d, z) one =
      let mf = new_minor_frame (frame_at off m).off_cur_minor_frame m.context.stack.stack_top in
      let (own, d', z') =
        entered-innermost m.context.stack
          (aligned_stack_alloc env.sizes.sizeof_minor_frame env.sizes.alignof_minor_frame
            m.context.stack)
          m k
          (alloc-place env.sizes.sizeof_minor_frame env.sizes.alignof_minor_frame m.context.stack)
          e in
      let left = leave_minor_frame-drop fuel l mf (stays ∙ own) nested refl in
      (
        drop_minor_frame env ol off mf l,
        ap (λ n. leave_levels env ol off (suc fuel) n l) one
            ∙ ap (λ (r : Result (Unit {0}) × Machine). ((λ (x : Machine). r) >> pure tt) l) left,
        drop_minor_frame-stack m l (d ∙ d') (z ∙ z'),
        ground arith,
        refl,
      )
