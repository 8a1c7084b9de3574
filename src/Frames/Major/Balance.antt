-- ===== src/Frames/Major/Balance.antt =====
-- Entering and leaving a major frame of slake/rt/exec.cc.
use slake.Prelude.{
  ℕ, ◌+◌, ◌*◌, ◌≡◌, refl, ap, ◌∙◌, Bool, Option, none, some, List, [], ◌∷◌, ◌==◌, ltb, length,
  if-both, arith,
}
use slake.Types.TypeRef.{TypeRef}
use slake.Types.Value.{Value}
use slake.Frames.Stack.{DataStack, stack_alloc, aligned_stack_alloc}
use slake.Frames.Major.{
  FrameSizes, InsRegType, FnOverloadingObject, MajorFrame, Context, FrameError, Step, allocated,
  and_step, first_mismatch, matched, fill_args, banks, alloc_bank, alloc_banks, alloc_regular,
  alloc_registers, set_args, build_frame, link_frame, finish_frame, with_major_frame,
  create_new_major_frame, leave_major_frame,
}

-- The stack lies where the context's stack lies.
abbrev Same : Context → DataStack → Type 0
Same c s = (s.data_stack ≡ c.stack.data_stack) × (s.stack_size ≡ c.stack.stack_size)

-- A step keeps the place of the stack and the link of the new frame to the one before it.
abbrev Keeps : Context → Step → Type 0
Keeps c (e, (s, f)) = Same c s × (f.off_prev_frame ≡ c.off_cur_major_frame)

aligned-Same :
    (c : Context) (size alignment : ℕ) (s : DataStack)
    → Same c s
    → Same c (aligned_stack_alloc size alignment s).1
unfolding aligned_stack_alloc stack_alloc
aligned-Same c size alignment s (d, z) = (ground (arith, d), ground (arith, z))

allocated-Keeps :
    (c : Context) (r : Option ℕ × DataStack) (f : MajorFrame) (next : DataStack → Step)
    → Same c r.1
    → f.off_prev_frame ≡ c.off_cur_major_frame
    → ((s : DataStack) → Same c s → Keeps c (next s))
    → Keeps c (allocated r f next)
allocated-Keeps c (none, s) f next same link k = (same, link)
allocated-Keeps c (some a, s) f next same link k = k s same

and_step-Keeps :
    (c : Context) (x : Step) (next : DataStack → MajorFrame → Step)
    → Keeps c x
    → ((s : DataStack) (f : MajorFrame)
        → Same c s
        → f.off_prev_frame ≡ c.off_cur_major_frame
        → Keeps c (next s f))
    → Keeps c (and_step x next)
and_step-Keeps c (some e, (s, f)) next keeps k = keeps
and_step-Keeps c (none, (s, f)) next (same, link) k = k s f same link

module _ (sizes : FrameSizes) (is_compatible : TypeRef → Value → Bool) (c : Context) where
  matched-Keeps :
      (o : Option TypeRef) (s : DataStack) (f : MajorFrame) (rest : Step)
      → Same c s
      → f.off_prev_frame ≡ c.off_cur_major_frame
      → Keeps c rest
      → Keeps c (matched sizes is_compatible o s f rest)
  matched-Keeps none s f rest same link k = k
  matched-Keeps (some t) s f rest same link k = (same, link)

  fill_args-Keeps :
      (fn : FnOverloadingObject) (args : List Value) (s : DataStack) (f : MajorFrame)
      → Same c s
      → f.off_prev_frame ≡ c.off_cur_major_frame
      → Keeps c (fill_args sizes is_compatible fn args s f)
  unfolding fill_args
  fill_args-Keeps fn args s f same link =
      if-both (Keeps c) (ltb (length args) (length fn.param_types)) (same, link)
        (matched-Keeps (first_mismatch sizes is_compatible fn.param_types args) s f _ same link (
          allocated-Keeps c
            (aligned_stack_alloc (sizes.sizeof_value * length args) sizes.alignof_value s) f _
            (aligned-Same c _ _ s same) link (λ t same_t. (same_t, link))))

  alloc_bank-Keeps :
      (n : InsRegType → ℕ) (b : InsRegType × (InsRegType × (ℕ × ℕ))) (s : DataStack)
      (f : MajorFrame)
      → Same c s
      → f.off_prev_frame ≡ c.off_cur_major_frame
      → Keeps c (alloc_bank sizes is_compatible n b s f)
  unfolding alloc_bank
  alloc_bank-Keeps n (t, (slot, (size, alignment))) s f same link =
      if-both (Keeps c) (n t == 0) (same, link)
        (allocated-Keeps c (aligned_stack_alloc (size * n t) alignment s) f _
          (aligned-Same c _ _ s same) link (λ u same_u. (same_u, link)))

  alloc_banks-Keeps :
      (n : InsRegType → ℕ) (bs : List (InsRegType × (InsRegType × (ℕ × ℕ)))) (s : DataStack)
      (f : MajorFrame)
      → Same c s
      → f.off_prev_frame ≡ c.off_cur_major_frame
      → Keeps c (alloc_banks sizes is_compatible n bs s f)
  unfolding alloc_banks
  alloc_banks-Keeps n [] s f same link = (same, link)
  alloc_banks-Keeps n (b ∷ rest) s f same link =
      and_step-Keeps c (alloc_bank sizes is_compatible n b s f) _
        (alloc_bank-Keeps n b s f same link)
        (λ t g same_t link_g. alloc_banks-Keeps n rest t g same_t link_g)

  alloc_regular-Keeps :
      (o : Option (InsRegType → ℕ)) (s : DataStack) (f : MajorFrame)
      → Same c s
      → f.off_prev_frame ≡ c.off_cur_major_frame
      → Keeps c (alloc_regular sizes is_compatible o s f)
  unfolding alloc_regular
  alloc_regular-Keeps none s f same link = (same, link)
  alloc_regular-Keeps (some n) s f same link =
      alloc_banks-Keeps n (banks sizes is_compatible) s f same link

  alloc_registers-Keeps :
      (fn : Option FnOverloadingObject) (s : DataStack) (f : MajorFrame)
      → Same c s
      → f.off_prev_frame ≡ c.off_cur_major_frame
      → Keeps c (alloc_registers sizes is_compatible fn s f)
  unfolding alloc_registers
  alloc_registers-Keeps none s f same link = (aligned-Same c _ _ s same, link)
  alloc_registers-Keeps (some fn) s f same link = alloc_regular-Keeps fn.num_registers s f same link

  set_args-Keeps :
      (fn : Option FnOverloadingObject) (this : ℕ) (args : Option (List Value)) (off n : ℕ)
      (s : DataStack) (f : MajorFrame)
      → Same c s
      → f.off_prev_frame ≡ c.off_cur_major_frame
      → Keeps c (set_args sizes is_compatible fn this args off n s f)
  unfolding set_args
  set_args-Keeps none this args off n s f same link = (same, link)
  set_args-Keeps (some fn) this (some args) off n s f same link =
      fill_args-Keeps fn args s _ same link
  set_args-Keeps (some fn) this none off n s f same link = (same, link)

  build_frame-Keeps :
      (this : ℕ) (fn : Option FnOverloadingObject) (args : Option (List Value)) (off n : ℕ)
      (s : DataStack)
      → Same c s
      → Keeps c (build_frame sizes is_compatible c this fn args off n s)
  unfolding build_frame
  build_frame-Keeps this fn args off n s same =
      allocated-Keeps c (aligned_stack_alloc sizes.sizeof_minor_frame sizes.alignof_minor_frame s) _
        _ (aligned-Same c _ _ s same) refl
        (λ t same_t.
          and_step-Keeps c (set_args sizes is_compatible fn this args off n t _) _
            (set_args-Keeps fn this args off n t _ same_t refl)
            (λ u g same_u link_g. alloc_registers-Keeps fn u g same_u link_g))

  -- What entering a frame does to a context: after an error the context is as before, and else
  -- leaving the frame gives back the stack, the current frame and the number of frames.
  abbrev pub IsBalanced : Option FrameError × Context → Type 0
  IsBalanced (some e, d) = d ≡ c
  IsBalanced (none, d) =
      ((leave_major_frame d).stack ≡ c.stack)
      × (((leave_major_frame d).off_cur_major_frame ≡ c.off_cur_major_frame)
          × (((leave_major_frame d).num_major_frames ≡ c.num_major_frames)
              × (d.num_major_frames ≡ c.num_major_frames + 1)))

  same_stack :
      (s t : DataStack)
      → s.data_stack ≡ t.data_stack
      → s.stack_size ≡ t.stack_size
      → s.stack_top ≡ t.stack_top
      → s ≡ t
  same_stack s t d z p i = record { data_stack = d i; stack_size = z i; stack_top = p i }

  -- The new frame stands at its offset, with the top of the stack before it.
  linked-frame :
      (off ret : ℕ) (s : DataStack) (f : MajorFrame)
      → (((link_frame sizes is_compatible c off ret s f).frames off).prev_stack_top
          ≡ c.stack.stack_top)
        × (((link_frame sizes is_compatible c off ret s f).frames off).off_prev_frame
            ≡ f.off_prev_frame)
  unfolding link_frame
  linked-frame off ret s f = (ground arith, ground arith)

  finish_frame-IsBalanced :
      (off ret : ℕ) (x : Step)
      → Keeps c x
      → IsBalanced (finish_frame sizes is_compatible c off ret x)
  unfolding finish_frame link_frame leave_major_frame
  finish_frame-IsBalanced off ret (some e, (s, f)) ((d, z), link) =
      ap (λ (t : DataStack). record c { stack = t }) (same_stack _ c.stack d z refl)
  finish_frame-IsBalanced off ret (none, (s, f)) ((d, z), link) =
      let (top, prev) = linked-frame off ret s f in
      (same_stack _ c.stack d z top, (prev ∙ link, (ground arith, refl)))

  with_major_frame-IsBalanced :
      (r : Option ℕ × DataStack) (next : DataStack → Option FrameError × Context)
      → Same c r.1
      → ((s : DataStack) → Same c s → IsBalanced (next s))
      → IsBalanced (with_major_frame sizes is_compatible c r next)
  with_major_frame-IsBalanced (none, s) next (d, z) k =
      ap (λ (t : DataStack). record c { stack = t }) (same_stack _ c.stack d z refl)
  with_major_frame-IsBalanced (some a, s) next same k = k s same

  pub create_new_major_frame-IsBalanced :
      (this : ℕ) (fn : Option FnOverloadingObject) (args : Option (List Value)) (off n ret : ℕ)
      → IsBalanced (create_new_major_frame sizes is_compatible this fn args off n ret c)
  unfolding create_new_major_frame
  create_new_major_frame-IsBalanced this fn args off n ret =
      with_major_frame-IsBalanced
        (aligned_stack_alloc sizes.sizeof_major_frame sizes.alignof_major_frame c.stack) _
        (aligned-Same c _ _ c.stack (refl, refl))
        (λ s same.
          finish_frame-IsBalanced s.stack_top ret
            (build_frame sizes is_compatible c this fn args off n s)
            (build_frame-Keeps this fn args off n s same))
