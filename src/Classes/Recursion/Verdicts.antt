-- ===== src/Classes/Recursion/Verdicts.antt =====
-- What is_recursed of slake/obj/class.cc decides.
use slake.Prelude.{
  ℕ, zero, suc, ◌+◌, ◌-◌, ◌≤◌, ◌<◌, ◌≡◌, ap, ◌∙◌, Bool, true, false, some, List, [], length,
  get_elem?, contains, arith,
}
use slake.Types.TypeRef.{TypeRef}
use slake.Classes.Recursion.{
  StructKind, Structs, ExData, Frame, Context, Ending, Outcome, insert, and_then, push_frame_back,
  insert_walked, nested_frame, check_type_ref, step_fields, step_members, walk_member, step_frame,
  step, go_on, run, is_recursed,
}
use slake.Classes.Recursion.Walks.{
  insert-contains, insert-insert, at_frame, Walks, one_turn, then_walks, enter-fresh, enter-walked,
}
use slake.Classes.Recursion.Nested.{
  HasFields, Nests, Sound, Deeper, Deeper-fresh, Deeper-insert, step-fields, first_turn, next_turn,
}
use slake.Classes.Recursion.Fields.{walk_fields, leave-Sound}

-- The fields of an object before an index nest, and so do those of the structs in them.
pub record SoundBefore (m : Structs) (depth : ℕ → ℕ) (o stop : ℕ) : Type 0 where
  pub nests :
      (i : ℕ) (t : TypeRef)
      → i < stop
      → get_elem? (m.field_records o) i ≡ some t
      → Nests m depth o t
  pub sound :
      (i : ℕ) (t : TypeRef) (p : ℕ)
      → i < stop
      → get_elem? (m.field_records o) i ≡ some t
      → nested_frame m t ≡ some record { struct_object = p; ex_data = ExData.indexed 0 }
      → Sound m depth p

-- The walk comes from an object, past fields that nest, to a struct in it that it is in already.
pub data Recurses (m : Structs) (depth : ℕ → ℕ) : List ℕ → ℕ → Type 0 where
  walked :
      (on_walk : List ℕ) (o : ℕ)
      → HasFields m o
      → contains on_walk o ≡ true
      → Recurses m depth on_walk o
  field :
      (on_walk : List ℕ) (o i : ℕ) (t : TypeRef) (p : ℕ)
      → HasFields m o
      → Deeper depth (depth o) on_walk
      → i < length (m.field_records o)
      → SoundBefore m depth o i
      → get_elem? (m.field_records o) i ≡ some t
      → nested_frame m t ≡ some record { struct_object = p; ex_data = ExData.indexed 0 }
      → Recurses m depth (insert o on_walk) p
      → Recurses m depth on_walk o

module _ (m : Structs) (alloc : Context → Bool) (allocates : (c : Context) → alloc c ≡ true) where
  abbrev pub Ends : Context → Ending → Type 0
  Ends c e = (k : ℕ) × ((fuel : ℕ) → run (k + fuel) m alloc c ≡ some e)

  Ends-turn : (c : Context) (e : Ending) → step m alloc c.frames c ≡ Outcome.ended e → Ends c e
  unfolding run go_on
  Ends-turn c e h = (
    1,
    λ fuel.
        let one : 1 + fuel ≡ suc fuel = omega arith in
        ap (λ (n : ℕ). run n m alloc c) one ∙ ap (go_on (run fuel m alloc)) h,
  )

  walks-Ends : (b c : Context) (e : Ending) → Walks m alloc allocates b c → Ends c e → Ends b e
  walks-Ends b c e (k, f) (l, g) = (
    k + l,
    λ fuel.
        let both : (k + l) + fuel ≡ k + (l + fuel) = omega arith in
        ap (λ (n : ℕ). run n m alloc b) both ∙ (f (l + fuel) ∙ g fuel),
  )

  -- What a walk from the object comes to is what is_recursed returns.
  abbrev pub Verdict : ℕ → Ending → Type 0
  Verdict o e = (enough : ℕ) × ((fuel : ℕ) → enough ≤ fuel → is_recursed fuel m alloc o ≡ some e)

  verdict : (o : ℕ) (e : Ending) → Ends (at_frame o (ExData.indexed 0) [] []) e → Verdict o e
  unfolding is_recursed go_on push_frame_back
  verdict o e (k, f) = (
    k,
    λ fuel h.
        let split : fuel ≡ k + (fuel - k) = omega (arith, h) in
        let start = at_frame o (ExData.indexed 0) [] [] in
        let pushed : is_recursed fuel m alloc o ≡ run fuel m alloc start =
          simp (allocates record { frames = []; walked_objects = [] }) in
        pushed ∙ (ap (λ (n : ℕ). run n m alloc start) split ∙ f (fuel - k)),
  )

  -- The turn that looks at the field at an index pushes its frame.
  push_field :
      (depth : ℕ → ℕ) (o i : ℕ) (t : TypeRef) (g : Frame) (rest : List Frame) (on_walk : List ℕ)
      → HasFields m o
      → Deeper depth (depth o) on_walk
      → i < length (m.field_records o)
      → SoundBefore m depth o i
      → get_elem? (m.field_records o) i ≡ some t
      → nested_frame m t ≡ some g
      → Walks m alloc allocates (at_frame o (ExData.indexed 0) rest on_walk) (
          at_frame g.struct_object g.ex_data
            (at_frame o (ExData.indexed (suc i)) rest (insert o on_walk)).frames
            (insert o on_walk))
  unfolding check_type_ref push_frame_back
  push_field depth o zero t g rest on_walk f d l b e n = one_turn m alloc allocates _ _ (
      first_turn m alloc allocates o rest on_walk t f (Deeper-fresh depth o on_walk d) e
      ∙ simp (n, allocates))
  push_field depth o (suc i) t g rest on_walk f d l b e n =
      then_walks m alloc allocates _ _ _
        (walk_fields m alloc allocates depth o (suc i) f (omega (arith, l)) b.nests
          (λ j u p h a c. leave-Sound m alloc allocates depth p (b.sound j u p h a c)) i rest
          on_walk (omega arith) d)
        (one_turn m alloc allocates _ _
          (next_turn m alloc allocates o i rest (insert o on_walk) t f l e ∙ simp (n, allocates)))

  -- An object that is on the walk is found there.
  found :
      (o : ℕ) (rest : List Frame) (on_walk : List ℕ)
      → HasFields m o
      → contains on_walk o ≡ true
      → Ends (at_frame o (ExData.indexed 0) rest on_walk) Ending.terminated
  unfolding step step_fields and_then
  found o rest on_walk f h =
      let c = at_frame o (ExData.indexed 0) rest on_walk in
      Ends-turn c Ending.terminated
        (step-fields m alloc o 0 rest c f ∙ simp (enter-walked m alloc allocates o c h))

  recursion-Ends :
      (depth : ℕ → ℕ) (on_walk : List ℕ) (o : ℕ)
      → Recurses m depth on_walk o
      → (rest : List Frame) → Ends (at_frame o (ExData.indexed 0) rest on_walk) Ending.terminated
  recursion-Ends depth on_walk o (Recurses.walked _ _ f h) rest = found o rest on_walk f h
  recursion-Ends depth on_walk o (Recurses.field _ _ i t p f d l b e n r) rest =
      walks-Ends _ _ Ending.terminated (push_field depth o i t _ rest on_walk f d l b e n) (
        recursion-Ends depth (insert o on_walk) p r
          (at_frame o (ExData.indexed (suc i)) rest (insert o on_walk)).frames)

  -- Where the walk from a struct comes through its fields to a struct that it is in already, past
  -- fields that nest, and all allocations succeed, is_recursed ends the program.
  pub is_recursed-terminated :
      (depth : ℕ → ℕ) (o : ℕ) → Recurses m depth [] o → Verdict o Ending.terminated
  is_recursed-terminated depth o r = verdict o Ending.terminated (recursion-Ends depth [] o r [])

  -- The walk comes back to a union enum at its first member.
  enum_turn :
      (u v : ℕ) (rest : List Frame) (on_walk : List ℕ)
      → m.kind_of u ≡ StructKind.union_enum
      → contains on_walk u ≡ false
      → get_elem? (m.members u) 0 ≡ some v
      → step m alloc
          (at_frame u (ExData.enum_module_iterator 0) rest on_walk).frames
          (at_frame u (ExData.enum_module_iterator 0) rest on_walk)
        ≡ Outcome.running (
            at_frame v
              (ExData.indexed 0)
              (at_frame u (ExData.enum_module_iterator 0) rest on_walk).frames
              (insert u on_walk))
  unfolding step step_frame step_members and_then walk_member push_frame_back insert_walked
  enum_turn u v rest on_walk k h e =
      let c = at_frame u (ExData.enum_module_iterator 0) rest on_walk in
      simp (k, enter-fresh m alloc allocates u c h, e, allocates, insert-insert u on_walk)

  enum_found :
      (u : ℕ) (rest : List Frame) (on_walk : List ℕ)
      → m.kind_of u ≡ StructKind.union_enum
      → contains on_walk u ≡ true
      → Ends (at_frame u (ExData.enum_module_iterator 0) rest on_walk) Ending.terminated
  unfolding step step_frame step_members and_then
  enum_found u rest on_walk k h =
      let c = at_frame u (ExData.enum_module_iterator 0) rest on_walk in
      Ends-turn c Ending.terminated (simp (k, enter-walked m alloc allocates u c h))

  -- Where a field of a struct, past fields that nest, is a union enum whose first member is not
  -- recursive, and all allocations succeed, is_recursed ends the program too, since the iterator
  -- over the members stays at the first one.
  pub is_recursed-union_enum :
      (depth : ℕ → ℕ) (o i : ℕ) (t : TypeRef) (u v : ℕ)
      → HasFields m o
      → i < length (m.field_records o)
      → SoundBefore m depth o i
      → get_elem? (m.field_records o) i ≡ some t
      → nested_frame m t
        ≡ some record { struct_object = u; ex_data = ExData.enum_module_iterator 0 }
      → m.kind_of u ≡ StructKind.union_enum
      → get_elem? (m.members u) 0 ≡ some v
      → depth u < depth o
      → depth v < depth u
      → Sound m depth v
      → Verdict o Ending.terminated
  is_recursed-union_enum depth o i t u v f l b e n k first under below s =
      let rest = (at_frame o (ExData.indexed (suc i)) [] (insert o [])).frames in
      let d : Deeper depth (depth o) [] = λ p h. absurd (ground (arith, h)) in
      let deeper = Deeper-insert depth o u [] under d in
      let fresh = Deeper-fresh depth u (insert o []) deeper in
      let inner = (at_frame u (ExData.enum_module_iterator 0) rest (insert o [])).frames in
      let on_walk = insert u (insert o []) in
      verdict o Ending.terminated (
        walks-Ends _ _ Ending.terminated (push_field depth o i t _ [] [] f d l b e n) (
          walks-Ends _ _ Ending.terminated
            (one_turn m alloc allocates _ _ (enum_turn u v rest (insert o []) k fresh first))
            (walks-Ends _ _ Ending.terminated
              (leave-Sound m alloc allocates depth v s inner on_walk
                (Deeper-insert depth u v (insert o []) below deeper))
              (enum_found u rest on_walk k (insert-contains u (insert o []))))))
