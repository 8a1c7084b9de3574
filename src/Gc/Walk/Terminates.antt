-- ===== src/Gc/Walk/Terminates.antt =====
-- When the walk of a value of rt/gc_heapless.cc does not end.
use slake.Prelude.{ℕ, zero, suc, ◌≡◌, refl, ap, ◌∙◌, none, some, List, [], ◌∷◌, ◌++◌}
use slake.Types.Reference.{Reference, ReferenceKind}
use slake.Types.Value.{Value, Payload}
use slake.Gc.Heap.{Memory, FrameRegisters, MajorFrame}
use slake.Gc.Walk.{
  Visits, ◌⨾◌, for_each, push_object, walk_registers, walk_major_frame, walk_context,
  walk_reference, walk_reference_kind, walk_payload, walk_value,
}

none-⨾ : (q : Visits) → (none ⨾ q) ≡ none
none-⨾ q = refl

⨾-none : (p : Visits) → (p ⨾ none) ≡ none
⨾-none none = refl
⨾-none (some xs) = refl

ruleset fails = (none-⨾, ⨾-none)

-- A loop fails where its body fails on one element.
for_each-none {ℓ} :
    {A : Type ℓ} (body : A → Visits) (xs ys : List A) (x : A)
    → body x ≡ none
    → for_each body (xs ++ x ∷ ys) ≡ none
for_each-none body [] ys x e = simp (fails, e)
for_each-none body (z ∷ xs) ys x e = simp (fails, for_each-none body xs ys x e)

-- A frame is not walked where a value in its Any registers is not.
walk_major_frame-none :
    (walk : Value → Visits) (f : MajorFrame) (objects : List ℕ) (us vs : List Value) (v : Value)
    → f.registers ≡ FrameRegisters.regular_registers objects (us ++ v ∷ vs)
    → walk v ≡ none
    → walk_major_frame walk f ≡ none
unfolding walk_major_frame walk_registers
walk_major_frame-none walk f objects us vs v e fail =
    simp (fails, e, for_each-none walk us vs v fail)

walk_context-none :
    (walk : Value → Visits) (fs gs : List MajorFrame) (f : MajorFrame)
    → walk_major_frame walk f ≡ none
    → walk_context walk (fs ++ f ∷ gs) ≡ none
unfolding walk_context
walk_context-none walk [] gs f e = simp (fails, e)
walk_context-none walk (h ∷ fs) gs f e =
    let body = λ (g : MajorFrame). push_object g.cur_coroutine ⨾ walk_major_frame walk g in
    let fail = for_each-none body fs gs f (simp (fails, e)) in simp (fails, fail)

walk_reference-none :
    (walk : Value → Visits) (memory : Memory) (r : Reference)
    → r.kind ≡ ReferenceKind.local_var_ref
    → walk_context walk (memory.frames_of r.pointer) ≡ none
    → walk_reference walk memory r ≡ none
unfolding walk_reference walk_reference_kind
walk_reference-none walk memory r k e = ap (walk_reference_kind walk memory r) k ∙ simp (fails, e)

walk_payload-reference :
    (walk : Value → Visits) (memory : Memory) (r : Reference)
    → walk_payload walk memory (Payload.reference r) ≡ walk_reference walk memory r
unfolding walk_payload
walk_payload-reference walk memory r = refl

-- A reference to a local variable that lies in an Any register of a frame of the variable's own
-- context is walked without end: the walk of the reference walks the context, that of the context
-- the register. No fuel is enough.
pub walk_value-diverges :
    (memory : Memory) (r : Reference) (v : Value)
    → r.kind ≡ ReferenceKind.local_var_ref
    → v.payload ≡ Payload.reference r
    → (fs gs : List MajorFrame) (f : MajorFrame) → memory.frames_of r.pointer ≡ fs ++ f ∷ gs
    → (objects : List ℕ) (us vs : List Value)
    → f.registers ≡ FrameRegisters.regular_registers objects (us ++ v ∷ vs)
    → (fuel : ℕ) → walk_value fuel memory v ≡ none
unfolding walk_value
walk_value-diverges memory r v k p fs gs f frames objects us vs regs zero = refl
walk_value-diverges memory r v k p fs gs f frames objects us vs regs (suc fuel) =
    let rest = walk_value-diverges memory r v k p fs gs f frames objects us vs regs fuel in
    let inner = λ (w : Value). walk_value fuel memory w in
    let context_fails =
      ap (walk_context inner) frames
      ∙ walk_context-none inner fs gs f (walk_major_frame-none inner f objects us vs v regs rest) in
    simp (p, walk_payload-reference, walk_reference-none inner memory r k context_fails)
