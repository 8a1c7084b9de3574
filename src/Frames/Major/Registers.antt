-- ===== src/Frames/Major/Registers.antt =====
-- Where the register banks of a major frame of slake/rt/exec.cc are found.
use slake.Prelude.{
  ℕ, ◌*◌, ◌≡◌, refl, ap, ◌∙◌, Bool, false, Option, none, some, List, [], ◌∷◌, ◌==◌, if-both, arith,
}
use slake.Types.TypeRef.{TypeRef}
use slake.Types.Value.{Value}
use slake.Frames.Stack.{DataStack, aligned_stack_alloc}
use slake.Frames.Major.{
  FrameSizes, InsRegType, reg_code, FnOverloadingObject, MajorFrame, Step, allocated, and_step,
  banks, alloc_bank, alloc_banks, alloc_regular, alloc_registers,
}

module _ (sizes : FrameSizes) (is_compatible : TypeRef → Value → Bool) where
  -- The entry for the Object registers is as it was.
  abbrev Untouched : (InsRegType → ℕ) → Step → Type 0
  Untouched bases (e, (s, f)) = f.regs_base_off InsRegType.object ≡ bases InsRegType.object

  abbrev Bank : Type 0
  Bank = InsRegType × (InsRegType × (ℕ × ℕ))

  allocated-Untouched :
      (r : Option ℕ × DataStack) (f : MajorFrame) (next : DataStack → Step)
      → ((s : DataStack) → Untouched f.regs_base_off (next s))
      → Untouched f.regs_base_off (allocated r f next)
  allocated-Untouched (none, s) f next k = refl
  allocated-Untouched (some a, s) f next k = k s

  bank-Untouched :
      (n : InsRegType → ℕ) (t slot : InsRegType) (size alignment : ℕ) (s : DataStack)
      (f : MajorFrame)
      → (13 == reg_code slot) ≡ false
      → Untouched f.regs_base_off
          (alloc_bank sizes is_compatible n (t, (slot, (size, alignment))) s f)
  unfolding alloc_bank
  bank-Untouched n t slot size alignment s f h =
      if-both (Untouched f.regs_base_off) (n t == 0) refl (
        allocated-Untouched (aligned_stack_alloc (size * n t) alignment s) f _
          (λ u. ground (arith, h)))

  -- No bank of a list has the entry of the Object registers.
  abbrev WithoutObject : List Bank → Type 0
  WithoutObject [] = Unit
  WithoutObject ((t, (slot, layout)) ∷ rest) = ((13 == reg_code slot) ≡ false) × WithoutObject rest

  step-Untouched :
      (bases : InsRegType → ℕ) (x : Step) (next : DataStack → MajorFrame → Step)
      → Untouched bases x
      → ((s : DataStack) (f : MajorFrame)
          → f.regs_base_off InsRegType.object ≡ bases InsRegType.object
          → Untouched bases (next s f))
      → Untouched bases (and_step x next)
  step-Untouched bases (some e, (s, f)) next u k = u
  step-Untouched bases (none, (s, f)) next u k = k s f u

  banks-Untouched :
      (n : InsRegType → ℕ) (bs : List Bank) (bases : InsRegType → ℕ) (s : DataStack)
      (f : MajorFrame)
      → WithoutObject bs
      → f.regs_base_off InsRegType.object ≡ bases InsRegType.object
      → Untouched bases (alloc_banks sizes is_compatible n bs s f)
  unfolding alloc_banks
  banks-Untouched n [] bases s f w e = e
  banks-Untouched n ((t, (slot, (size, alignment))) ∷ rest) bases s f (h, w) e =
      step-Untouched bases (alloc_bank sizes is_compatible n (t, (slot, (size, alignment))) s f) _
        (bank-Untouched n t slot size alignment s f h ∙ e)
        (λ u g d. banks-Untouched n rest bases u g w d)

  -- The registers of a regular function are put on the stack without setting the base offset of
  -- its Object registers, however many it has: the entry keeps the value it had.
  pub alloc_registers-object :
      (fn : FnOverloadingObject) (n : InsRegType → ℕ)
      → fn.num_registers ≡ some n
      → (s : DataStack) (f : MajorFrame)
      → (alloc_registers sizes is_compatible (some fn) s f).1.1.regs_base_off InsRegType.object
        ≡ f.regs_base_off InsRegType.object
  unfolding alloc_registers alloc_regular banks
  alloc_registers-object fn n e s f =
      ap
        (λ (o : Option (InsRegType → ℕ)).
          (alloc_regular sizes is_compatible o s f).1.1.regs_base_off InsRegType.object)
        e
      ∙ banks-Untouched n (banks sizes is_compatible) f.regs_base_off s f
          (
            refl,
            (
              refl,
              (
                refl,
                (
                  refl,
                  (
                    refl,
                    (
                      refl,
                      (refl, (refl, (refl, (refl, (refl, (refl, (refl, (refl, (refl, tt))))))))),
                    ),
                  ),
                ),
              ),
            ),
          )
          refl
