-- ===== src/Exec/Calls/Returns.antt =====
-- A call of slake/rt/exec.cc and the return from it.
use slake.Prelude.{
  ℕ, ◌-◌, ◌%◌, ◌^◌, ◌≡◌, refl, ap, ◌∙◌, sym, Bool, false, Option, none, some, ◌==◌, if◌then◌else◌,
}
use slake.Frames.Stack.{DataStack, size_max}
use slake.Frames.Major.{FnOverloadingObject, MajorFrame, Context, FrameError, leave_major_frame}
use slake.Frames.Major.Balance.{IsBalanced, create_new_major_frame-IsBalanced}
use slake.Frames.Major.Results.{ReturnsTo, create_new_major_frame-ReturnsTo}
use slake.Exec.Opcode.{invalid_reg}
use slake.Exec.Machine.{
  Machine, ContextChangeType, Action, Env, RegularFn, Result, ◌>>◌, modify, require, frame_at,
  set_frame_at,
}
use slake.Exec.Calls.{framed, call, leave_frame, exec_retvoid, change_of}

-- The current major frame
abbrev pub mine : Machine → MajorFrame
mine m = m.context.frames m.context.off_cur_major_frame

-- What a called function leaves of its frame when it comes to its return.
abbrev pub Kept : Machine → Machine → Type 0
Kept k l =
    (l.context.off_cur_major_frame ≡ k.context.off_cur_major_frame)
    × (l.context.num_major_frames ≡ k.context.num_major_frames)
    × (l.context.stack.data_stack ≡ k.context.stack.data_stack)
    × (l.context.stack.stack_size ≡ k.context.stack.stack_size)
    × ((mine l).return_value_out_reg ≡ (mine k).return_value_out_reg)
    × ((mine l).prev_stack_top ≡ (mine k).prev_stack_top)
    × ((mine l).off_prev_frame ≡ (mine k).off_prev_frame)

frame-apart : (b : Bool) (f g h : MajorFrame) → b ≡ false → (if b then f else g) ≡ h → h ≡ g
frame-apart b f g h n e = sym e ∙ ap (λ c. if c then f else g) n

same-stack :
    (l : DataStack) {k d c : DataStack} {f g : ℕ}
    → l.data_stack ≡ k.data_stack
    → l.stack_size ≡ k.stack_size
    → d ≡ k
    → f ≡ g
    → record d { stack_top = g } ≡ c
    → record l { stack_top = f } ≡ c
same-stack l {k} {d} {c} {f} {g} addr size place here e =
    let built : record l { stack_top = f } ≡ record d { stack_top = g } = λ i. record {
      data_stack = (addr ∙ sym (ap (λ (s : DataStack). s.data_stack) place)) i;
      stack_size = (size ∙ sym (ap (λ (s : DataStack). s.stack_size) place)) i;
      stack_top = here i;
    } in
    built ∙ e

module _ (env : Env) (ol : RegularFn) (off : ℕ) where
  -- The rest of a call behind the creation of the frame
  abbrev pub called :
      Option FnOverloadingObject
      → FnOverloadingObject
      → Option FrameError × Context
      → Action (Unit {0})
  called cur_fn fn p = do
    (λ m. framed p m)
    modify (λ m. record m { memory = env.frame_bytes m.context m.memory })
    modify (λ m.
        set_frame_at off (record (frame_at off m) { off_next_args = size_max; num_next_args = 0 })
          m)
    modify (λ m. record m { context_changes = change_of fn cur_fn })

  called-leave_major_frame :
      (cur_fn : Option FnOverloadingObject) (fn : FnOverloadingObject)
      (p : Option FrameError × Context) (m k l : Machine)
      → IsBalanced env.sizes env.is_compatible m.context p
      → ReturnsTo env.sizes env.is_compatible m.context invalid_reg p
      → called cur_fn fn p m ≡ (Result.ok tt, k)
      → (k.context.off_cur_major_frame == off) ≡ false
      → Kept k l
      → ((frame_at l.context.off_cur_major_frame l).return_value_out_reg ≡ invalid_reg)
        × (leave_major_frame l.context).stack ≡ m.context.stack
        × (leave_major_frame l.context).off_cur_major_frame ≡ m.context.off_cur_major_frame
        × (leave_major_frame l.context).num_major_frames ≡ m.context.num_major_frames
  unfolding leave_major_frame
  called-leave_major_frame cur_fn fn (some x, d) m k l b r e n kept = cc e
  called-leave_major_frame cur_fn fn (none, d) m k l (stack, (cur, (num, more))) r e n
        (cur_l, num_l, data_l, size_l, ret_l, top_l, prev_l) =
      let at = ap (λ (p : Result (Unit {0}) × Machine). p.1.context.off_cur_major_frame) e in
      let count = ap (λ (p : Result (Unit {0}) × Machine). p.1.context.num_major_frames) e in
      let place = ap (λ (p : Result (Unit {0}) × Machine). p.1.context.stack) e in
      let frame =
        ap (λ (p : Result (Unit {0}) × Machine). p.1.context.frames d.off_cur_major_frame) e in
      let apart : (d.off_cur_major_frame == off) ≡ false = ap (λ o. o == off) at ∙ n in
      let own = frame-apart (d.off_cur_major_frame == off) _ _ _ apart frame in
      let here : mine k ≡ d.frames d.off_cur_major_frame = ap k.context.frames (sym at) ∙ own in
      (
        ret_l ∙ ap (λ (f : MajorFrame). f.return_value_out_reg) here ∙ r,
        same-stack l.context.stack data_l size_l place
            (top_l ∙ ap (λ (f : MajorFrame). f.prev_stack_top) here) stack,
        prev_l ∙ ap (λ (f : MajorFrame). f.off_prev_frame) here ∙ cur,
        ap (λ x. x - 1) (num_l ∙ sym count) ∙ num,
      )

  -- A call for which no register takes a value, and the RETVOID of the
  -- called function: where the call succeeds with a frame of its own and the called function has
  -- kept its frame and the number of frames, RETVOID succeeds, and the top of the stack, the
  -- current frame and the number of frames are what they were before the call.
  pub call-exec_retvoid :
      (this : ℕ) (fn : FnOverloadingObject) (callee : RegularFn) (m k l : Machine)
      → call env ol off this fn invalid_reg m ≡ (Result.ok tt, k)
      → (k.context.off_cur_major_frame == off) ≡ false
      → Kept k l
      → (e : Machine) × (exec_retvoid env callee l.context.off_cur_major_frame l
          ≡ (Result.ok tt, e))
        × (e.context.stack ≡ m.context.stack)
        × (e.context.off_cur_major_frame ≡ m.context.off_cur_major_frame)
        × (e.context.num_major_frames ≡ m.context.num_major_frames)
        × (e.context_changes ≡ ContextChangeType.fn_kind_changed)
  unfolding call exec_retvoid leave_frame
  call-exec_retvoid this fn callee m k l e n kept =
      let f = frame_at off m in
      let (ret, stack, cur, num) =
        called-leave_major_frame f.cur_fn fn _ m k l
          (create_new_major_frame-IsBalanced env.sizes env.is_compatible m.context this (some fn)
            none f.off_next_args (f.num_next_args % 2 ^ 32) invalid_reg)
          (create_new_major_frame-ReturnsTo env.sizes env.is_compatible m.context invalid_reg this
            (some fn) none f.off_next_args (f.num_next_args % 2 ^ 32))
          e n kept in
      (
        record l {
          context = leave_major_frame l.context;
          context_changes = ContextChangeType.fn_kind_changed;
        },
        ap
            (λ (r : ℕ).
              (require (r == invalid_reg) >> leave_frame env callee l.context.off_cur_major_frame)
                l)
            ret,
        stack,
        cur,
        num,
        refl,
      )
