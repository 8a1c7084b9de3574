-- ===== src/Classes/Recursion/Fields.antt =====
-- How is_recursed of slake/obj/class.cc walks a struct with the structs that lie in it.
use slake.Prelude.{
  ℕ, zero, suc, ◌≤◌, ◌<◌, ◌≡◌, refl, ap, ◌∙◌, Bool, true, some, List, length, get_elem?, arith,
}
use slake.Types.TypeRef.{TypeRef}
use slake.Classes.Recursion.{
  Structs, ExData, Frame, Context, Outcome, insert, push_frame_back, nested_frame, check_type_ref,
  step,
}
use slake.Classes.Recursion.Walks.{remove_walked-insert, at_frame, Walks, one_turn, then_walks}
use slake.Classes.Recursion.Nested.{
  get_elem?-below, HasFields, Nests, Sound, Deeper, Deeper-fresh, Deeper-insert, first_turn,
  next_turn, last_turn,
}

module _ (m : Structs) (alloc : Context → Bool) (allocates : (c : Context) → alloc c ≡ true) where
  -- The walk of an object takes a frame off and leaves the set as it was.
  abbrev pub Leaves : (ℕ → ℕ) → ℕ → Type 0
  Leaves depth p =
      (rest : List Frame) (walked : List ℕ)
      → Deeper depth (depth p) walked
      → Walks m alloc allocates (at_frame p (ExData.indexed 0) rest walked)
          record { frames = rest; walked_objects = walked }

  -- A turn that looks at a field, and the walk of the struct in it.
  walk_nested :
      (depth : ℕ → ℕ) (o next : ℕ) (rest : List Frame) (walked : List ℕ) (t : TypeRef) (c : Context)
      → step m alloc c.frames c
        ≡ check_type_ref alloc
            (nested_frame m t)
            (at_frame o (ExData.indexed next) rest (insert o walked))
      → Deeper depth (depth o) walked
      → Nests m depth o t
      → ((p : ℕ)
          → nested_frame m t ≡ some record { struct_object = p; ex_data = ExData.indexed 0 }
          → Leaves depth p)
      → Walks m alloc allocates c (at_frame o (ExData.indexed next) rest (insert o walked))
  unfolding check_type_ref push_frame_back
  walk_nested depth o next rest walked t c e d (Nests.no_struct n) leaves =
      one_turn m alloc allocates c (at_frame o (ExData.indexed next) rest (insert o walked))
        (e ∙ simp (n))
  walk_nested depth o next rest walked t c e d (Nests.nested p n l) leaves =
      let after = at_frame o (ExData.indexed next) rest (insert o walked) in
      let entered = at_frame p (ExData.indexed 0) after.frames (insert o walked) in
      then_walks m alloc allocates c entered after
        (one_turn m alloc allocates c entered (e ∙ simp (n, allocates)))
        (leaves p n after.frames (insert o walked) (Deeper-insert depth o p walked l d))

  module _ (depth : ℕ → ℕ) (o stop : ℕ) (f : HasFields m o)
      (inside : stop ≤ length (m.field_records o))
      (nests : (i : ℕ) (t : TypeRef)
        → i < stop
        → get_elem? (m.field_records o) i ≡ some t
        → Nests m depth o t)
      (leaves : (i : ℕ) (t : TypeRef) (p : ℕ)
        → i < stop
        → get_elem? (m.field_records o) i ≡ some t
        → nested_frame m t ≡ some record { struct_object = p; ex_data = ExData.indexed 0 }
        → Leaves depth p) where
    -- The walk comes past the fields that nest.
    pub walk_fields :
        (j : ℕ) (rest : List Frame) (walked : List ℕ)
        → suc j ≤ stop
        → Deeper depth (depth o) walked
        → Walks m alloc allocates
            (at_frame o (ExData.indexed 0) rest walked)
            (at_frame o (ExData.indexed (suc j)) rest (insert o walked))
    walk_fields zero rest walked h d =
        let (t, e) = get_elem?-below (m.field_records o) 0 (omega (arith, h, inside)) in
        let fresh = Deeper-fresh depth o walked d in
        walk_nested depth o 1 rest walked t (at_frame o (ExData.indexed 0) rest walked)
          (first_turn m alloc allocates o rest walked t f fresh e) d (nests 0 t h e)
          (λ p n. leaves 0 t p h e n)
    walk_fields (suc j) rest walked h d =
        let (t, e) = get_elem?-below (m.field_records o) (suc j) (omega (arith, h, inside)) in
        let start = at_frame o (ExData.indexed 0) rest walked in
        let middle = at_frame o (ExData.indexed (suc j)) rest (insert o walked) in
        let end = at_frame o (ExData.indexed (suc (suc j))) rest (insert o walked) in
        let turn =
          next_turn m alloc allocates o j rest (insert o walked) t f (omega (arith, h, inside)) e in
        then_walks m alloc allocates start middle end
          (walk_fields j rest walked (omega (arith, h)) d)
          (walk_nested depth o (suc (suc j)) rest walked t middle turn d (nests (suc j) t h e)
            (λ p n. leaves (suc j) t p h e n))

  leave :
      (depth : ℕ → ℕ) (o size : ℕ)
      → HasFields m o
      → length (m.field_records o) ≡ size
      → 0 < size
      → ((i : ℕ) (t : TypeRef) → get_elem? (m.field_records o) i ≡ some t → Nests m depth o t)
      → ((i : ℕ) (t : TypeRef) (p : ℕ)
          → get_elem? (m.field_records o) i ≡ some t
          → nested_frame m t ≡ some record { struct_object = p; ex_data = ExData.indexed 0 }
          → Leaves depth p)
      → Leaves depth o
  leave depth o zero f s h nests leaves rest walked d = absurd (omega (arith, h))
  leave depth o (suc j) f s h nests leaves rest walked d =
      let start = at_frame o (ExData.indexed 0) rest walked in
      let last = at_frame o (ExData.indexed (suc j)) rest (insert o walked) in
      let fresh = remove_walked-insert o walked (Deeper-fresh depth o walked d) in
      then_walks m alloc allocates start last record { frames = rest; walked_objects = walked }
        (walk_fields depth o (suc j) f (omega (arith, s)) (λ i t l. nests i t)
          (λ i t p l. leaves i t p) j rest walked (omega arith) d)
        (one_turn m alloc allocates last record { frames = rest; walked_objects = walked }
          (last_turn m alloc allocates o j rest (insert o walked) f (omega (arith, s))
            ∙ ap (λ (w : List ℕ). Outcome.running record { frames = rest; walked_objects = w })
                fresh))

  -- The walk of a sound object comes to its end.
  pub leave-Sound : (depth : ℕ → ℕ) (o : ℕ) → Sound m depth o → Leaves depth o
  leave-Sound depth o (Sound.sound _ f h nests inner) =
      leave depth o (length (m.field_records o)) f refl h nests
        (λ i t p e n. leave-Sound depth p (inner i t p e n))
