-- ===== src/Frames/Major/Results.antt =====
-- The register of the returned value in a new major frame of slake/rt/exec.cc.
use slake.Prelude.{ℕ, ◌≡◌, Bool, Option, none, some, List, arith}
use slake.Types.TypeRef.{TypeRef}
use slake.Types.Value.{Value}
use slake.Frames.Stack.{DataStack, aligned_stack_alloc}
use slake.Frames.Major.{
  FrameSizes, FnOverloadingObject, Context, FrameError, Step, build_frame, link_frame, finish_frame,
  with_major_frame, create_new_major_frame,
}

module _ (sizes : FrameSizes) (is_compatible : TypeRef → Value → Bool) (c : Context) (ret : ℕ) where
  -- Where a frame was made, its returned value goes to the register `ret`.
  abbrev pub ReturnsTo : Option FrameError × Context → Type 0
  ReturnsTo (some e, d) = Unit {0}
  ReturnsTo (none, d) = (d.frames d.off_cur_major_frame).return_value_out_reg ≡ ret

  finish_frame-ReturnsTo :
      (off : ℕ) (x : Step) → ReturnsTo (finish_frame sizes is_compatible c off ret x)
  unfolding finish_frame link_frame
  finish_frame-ReturnsTo off (some e, (s, f)) = tt
  finish_frame-ReturnsTo off (none, (s, f)) = ground arith

  with_major_frame-ReturnsTo :
      (r : Option ℕ × DataStack) (next : DataStack → Option FrameError × Context)
      → ((s : DataStack) → ReturnsTo (next s))
      → ReturnsTo (with_major_frame sizes is_compatible c r next)
  with_major_frame-ReturnsTo (none, s) next k = tt
  with_major_frame-ReturnsTo (some a, s) next k = k s

  pub create_new_major_frame-ReturnsTo :
      (this : ℕ) (fn : Option FnOverloadingObject) (args : Option (List Value)) (off n : ℕ)
      → ReturnsTo (create_new_major_frame sizes is_compatible this fn args off n ret c)
  unfolding create_new_major_frame
  create_new_major_frame-ReturnsTo this fn args off n =
      with_major_frame-ReturnsTo
        (aligned_stack_alloc sizes.sizeof_major_frame sizes.alignof_major_frame c.stack) _
        (λ s.
          finish_frame-ReturnsTo s.stack_top
            (build_frame sizes is_compatible c this fn args off n s))
