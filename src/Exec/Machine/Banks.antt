-- ===== src/Exec/Machine/Banks.antt =====
-- Where the registers of slake/rt/exec.cc lie in the banks that a frame is given.
use slake.Prelude.{
  ℕ, ◌+◌, ◌*◌, ◌^◌, ◌<◌, ◌≡◌, ap, ◌∙◌, sym, Bool, false, Option, none, some, ◌==◌, arith,
  if◌then◌else◌,
}
use slake.Types.TypeRef.{TypeRef}
use slake.Types.Value.{Value}
use slake.Frames.Stack.{DataStack, addr_diff, stack_alloc, aligned_stack_alloc}
use slake.Frames.Stack.Bounds.{IsStack}
use slake.Frames.Major.{
  FrameSizes, InsRegType, reg_code, MajorFrame, Step, allocated, alloc_bank, set_base,
}
use slake.Exec.Machine.{Machine, frame_at, reg_addr}

-- A frame with the base of a bank at the top of a stack
abbrev based : InsRegType → MajorFrame → DataStack → MajorFrame
based t f u = record f { regs_base_off = set_base t u.stack_top f.regs_base_off }

allocated-based :
    (t : InsRegType) (f g : MajorFrame) (u : DataStack) (r : Option ℕ × DataStack)
    → allocated r f (λ v. (none, (v, based t f v))) ≡ (none, (u, g))
    → (a : ℕ) × (r ≡ (some a, u)) × (g ≡ based t f u)
allocated-based t f g u (none, v) e = cc e
allocated-based t f g u (some a, v) e =
    let top = ap (λ (x : Step). x.1.0) e in
    (
      a,
      ap (λ (w : DataStack). (some a, w)) top,
      sym (ap (λ (x : Step). x.1.1) e) ∙ ap (based t f) top,
    )

-- An allocation on an aligned stack moves its top by the size.
aligned-stack_top :
    (size alignment a : ℕ) (s u : DataStack)
    → IsStack s
    → size + s.stack_size < 2 ^ 64
    → addr_diff alignment s ≡ 0
    → aligned_stack_alloc size alignment s ≡ (some a, u)
    → u ≡ record s { stack_top = s.stack_top + size }
unfolding aligned_stack_alloc stack_alloc
aligned-stack_top size alignment a s u p h d e = ground (arith, p, h, d, e)

module _ (sizes : FrameSizes) (is_compatible : TypeRef → Value → Bool) (num : InsRegType → ℕ) where
  alloc_bank-based :
      (t : InsRegType) (size alignment : ℕ) (s u : DataStack) (f g : MajorFrame)
      → (num t == 0) ≡ false
      → alloc_bank sizes is_compatible num (t, (t, (size, alignment))) s f ≡ (none, (u, g))
      → (a : ℕ) × (aligned_stack_alloc (size * num t) alignment s ≡ (some a, u)) × (g ≡ based t f u)
  unfolding alloc_bank
  alloc_bank-based t size alignment s u f g n e =
      let r = aligned_stack_alloc (size * num t) alignment s in
      let go : DataStack → Step = λ v. (none, (v, based t f v)) in
      let empty : Step = (none, (s, f)) in
      allocated-based t f g u r
        (sym (ap (λ (b : Bool). if b then empty else allocated r f go) n) ∙ e)

  -- Where the bank of `t` and then the bank of `t'` is put on the stack, with registers of one
  -- size and without a gap, the register of `t` whose index is the number of the registers of `t'`
  -- has the address of the first register of `t'`.
  pub alloc_bank-reg_addr :
      (t t' : InsRegType) (size alignment alignment' : ℕ) (s u v : DataStack) (f g h : MajorFrame)
      (off : ℕ) (m : Machine)
      → (num t == 0) ≡ false
      → (num t' == 0) ≡ false
      → (reg_code t == reg_code t') ≡ false
      → alloc_bank sizes is_compatible num (t, (t, (size, alignment))) s f ≡ (none, (u, g))
      → IsStack u
      → size * num t' + u.stack_size < 2 ^ 64
      → addr_diff alignment' u ≡ 0
      → alloc_bank sizes is_compatible num (t', (t', (size, alignment'))) u g ≡ (none, (v, h))
      → frame_at off m ≡ h
      → reg_addr off t size (num t') m ≡ reg_addr off t' size 0 m
  alloc_bank-reg_addr t t' size alignment alignment' s u v f g h off m n n' d e p q r e' w =
      let (a, got, base) = alloc_bank-based t size alignment s u f g n e in
      let (a', got', base') = alloc_bank-based t' size alignment' u v g h n' e' in
      let top =
        ap (λ (x : DataStack). x.stack_top)
          (aligned-stack_top (size * num t') alignment' a' u v p q r got') in
      let frame = w ∙ base' ∙ ap (λ (x : MajorFrame). based t' x v) base in
      let at_t = ap (λ (x : MajorFrame). x.regs_base_off t) frame in
      let at_t' = ap (λ (x : MajorFrame). x.regs_base_off t') frame in
      ground (arith, d, top, at_t, at_t')
