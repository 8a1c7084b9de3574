-- ===== src/Frames/Major/Functions.antt =====
-- The function of a new major frame of slake/rt/exec.cc, and the indices that the others keep.
use slake.Prelude.{
  ℕ, ◌*◌, ◌≡◌, refl, Bool, false, Option, none, some, List, [], ◌∷◌, ◌==◌, if-both, arith,
}
use slake.Types.TypeRef.{TypeRef}
use slake.Types.Value.{Value}
use slake.Frames.Stack.{DataStack, aligned_stack_alloc}
use slake.Frames.Major.{
  FrameSizes, InsRegType, FnOverloadingObject, MajorFrame, Context, FrameError, Step, allocated,
  and_step, banks, alloc_bank, alloc_banks, alloc_regular, alloc_registers, set_args, build_frame,
  link_frame, finish_frame, with_major_frame, create_new_major_frame,
}

module _ (sizes : FrameSizes) (is_compatible : TypeRef → Value → Bool) (c : Context)
    (fn : FnOverloadingObject) where
  -- A step on a frame of the function
  abbrev Runs : Step → Type 0
  Runs (e, (s, f)) = f.cur_fn ≡ some fn

  allocated-Runs :
      (r : Option ℕ × DataStack) (f : MajorFrame) (next : DataStack → Step)
      → f.cur_fn ≡ some fn
      → ((s : DataStack) → Runs (next s))
      → Runs (allocated r f next)
  allocated-Runs (none, s) f next h k = h
  allocated-Runs (some a, s) f next h k = k s

  and_step-Runs :
      (x : Step) (next : DataStack → MajorFrame → Step)
      → Runs x
      → ((s : DataStack) (f : MajorFrame) → f.cur_fn ≡ some fn → Runs (next s f))
      → Runs (and_step x next)
  and_step-Runs (some e, (s, f)) next h k = h
  and_step-Runs (none, (s, f)) next h k = k s f h

  alloc_bank-Runs :
      (n : InsRegType → ℕ) (b : InsRegType × (InsRegType × (ℕ × ℕ))) (s : DataStack)
      (f : MajorFrame)
      → f.cur_fn ≡ some fn
      → Runs (alloc_bank sizes is_compatible n b s f)
  unfolding alloc_bank
  alloc_bank-Runs n (t, (slot, (size, alignment))) s f h =
      if-both Runs (n t == 0) h
        (allocated-Runs (aligned_stack_alloc (size * n t) alignment s) f _ h (λ u. h))

  alloc_banks-Runs :
      (n : InsRegType → ℕ) (bs : List (InsRegType × (InsRegType × (ℕ × ℕ)))) (s : DataStack)
      (f : MajorFrame)
      → f.cur_fn ≡ some fn
      → Runs (alloc_banks sizes is_compatible n bs s f)
  unfolding alloc_banks
  alloc_banks-Runs n [] s f h = h
  alloc_banks-Runs n (b ∷ rest) s f h =
      and_step-Runs (alloc_bank sizes is_compatible n b s f) _ (alloc_bank-Runs n b s f h)
        (λ t g h_g. alloc_banks-Runs n rest t g h_g)

  alloc_regular-Runs :
      (o : Option (InsRegType → ℕ)) (s : DataStack) (f : MajorFrame)
      → f.cur_fn ≡ some fn
      → Runs (alloc_regular sizes is_compatible o s f)
  unfolding alloc_regular
  alloc_regular-Runs none s f h = h
  alloc_regular-Runs (some n) s f h = alloc_banks-Runs n (banks sizes is_compatible) s f h

  build_frame-Runs :
      (this off n : ℕ) (s : DataStack)
      → Runs (build_frame sizes is_compatible c this (some fn) none off n s)
  unfolding build_frame set_args alloc_registers
  build_frame-Runs this off n s =
      allocated-Runs (aligned_stack_alloc sizes.sizeof_minor_frame sizes.alignof_minor_frame s) _ _
        refl (λ t. alloc_regular-Runs fn.num_registers t _ refl)

  -- Where a frame was made, it is one of the function, and the other frames keep their indices.
  abbrev pub Enters : Option FrameError × Context → Type 0
  Enters (some e, d) = Unit {0}
  Enters (none, d) =
      ((d.frames d.off_cur_major_frame).cur_fn ≡ some fn)
      × ((off : ℕ)
          → (off == d.off_cur_major_frame) ≡ false
          → (d.frames off).cur_ins ≡ (c.frames off).cur_ins)

  finish_frame-Enters :
      (off ret : ℕ) (x : Step) → Runs x → Enters (finish_frame sizes is_compatible c off ret x)
  unfolding finish_frame link_frame
  finish_frame-Enters off ret (some e, (s, f)) h = tt
  finish_frame-Enters off ret (none, (s, f)) h = (ground (arith, h), λ o n. ground (arith, n))

  with_major_frame-Enters :
      (r : Option ℕ × DataStack) (next : DataStack → Option FrameError × Context)
      → ((s : DataStack) → Enters (next s))
      → Enters (with_major_frame sizes is_compatible c r next)
  with_major_frame-Enters (none, s) next k = tt
  with_major_frame-Enters (some a, s) next k = k s

  pub create_new_major_frame-Enters :
      (this off n ret : ℕ)
      → Enters (create_new_major_frame sizes is_compatible this (some fn) none off n ret c)
  unfolding create_new_major_frame
  create_new_major_frame-Enters this off n ret =
      with_major_frame-Enters
        (aligned_stack_alloc sizes.sizeof_major_frame sizes.alignof_major_frame c.stack) _
        (λ s. finish_frame-Enters s.stack_top ret _ (build_frame-Runs this off n s))
