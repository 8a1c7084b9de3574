-- ===== src/Gc/Sweep/Dangles.antt =====
-- The deletion of rt/gc_heapless.cc over an unwalked list that starts with a type definition.
use slake.Prelude.{
  ℕ, ◌≡◌, refl, ap, ◌∙◌, true, false, Option, none, some, List, [], ◌∷◌, contains, if-both, arith,
}
use slake.Gc.Heap.{Memory}
use slake.Gc.Sweep.{
  type_defs, Sweep, is_type_def, delete_object, visit_deletable, delete_pass, updates_list,
  second_pass, sweep,
}

module _ (memory : Memory) where
  -- A pass that does not update the unwalked list keeps it, and what is freed stays freed.
  abbrev Leaves : ℕ → List ℕ → Option Sweep → Type 0
  Leaves a xs none = Unit
  Leaves a xs (some t) = (t.unwalked_list ≡ xs) × (contains t.freed a ≡ true)

  visited-freed :
      (i a : ℕ) (s : Sweep)
      → contains s.freed a ≡ true
      → contains (visit_deletable memory type_defs false i s).freed a ≡ true
  unfolding visit_deletable delete_object
  visited-freed i a s h = ground arith

  visited-list :
      (i : ℕ) (s : Sweep)
      → (visit_deletable memory type_defs false i s).unwalked_list ≡ s.unwalked_list
  unfolding visit_deletable delete_object
  visited-list i s = ground arith

  deleted-freed :
      (a : ℕ) (s : Sweep)
      → is_type_def (memory.object_at a) ≡ true
      → contains (visit_deletable memory type_defs false a s).freed a ≡ true
  unfolding visit_deletable delete_object
  deleted-freed a s d = ground arith

  Leaves-move :
      (a : ℕ) (xs ys : List ℕ) (o : Option Sweep) → xs ≡ ys → Leaves a xs o → Leaves a ys o
  Leaves-move a xs ys none p l = tt
  Leaves-move a xs ys (some t) p (e, h) = (e ∙ p, h)

  pass-Leaves :
      (a : ℕ) (xs : List ℕ) (s : Sweep)
      → contains s.freed a ≡ true
      → Leaves a s.unwalked_list (delete_pass memory type_defs false xs s)
  unfolding delete_pass
  pass-Leaves a [] s h = (refl, h)
  pass-Leaves a (i ∷ rest) s h = if-both (Leaves a s.unwalked_list) (contains s.freed i) tt (
      Leaves-move a _ _
        (delete_pass memory type_defs false rest (visit_deletable memory type_defs false i s))
        (visited-list i s)
        (pass-Leaves a rest (visit_deletable memory type_defs false i s) (visited-freed i a s h)))

  first_pass-Leaves :
      (a : ℕ) (rest : List ℕ) (s : Sweep)
      → s.freed ≡ []
      → s.unwalked_list ≡ a ∷ rest
      → is_type_def (memory.object_at a) ≡ true
      → Leaves a (a ∷ rest) (delete_pass memory type_defs false (a ∷ rest) s)
  unfolding delete_pass
  first_pass-Leaves a rest s f e d = if-both (Leaves a (a ∷ rest)) (contains s.freed a) tt (
      Leaves-move a _ _
        (delete_pass memory type_defs false rest (visit_deletable memory type_defs false a s))
        (visited-list a s ∙ e)
        (pass-Leaves a rest (visit_deletable memory type_defs false a s) (deleted-freed a s d)))

  second-dangles :
      (a : ℕ) (rest : List ℕ) (o : Option Sweep)
      → Leaves a (a ∷ rest) o
      → second_pass memory o ≡ none
  unfolding second_pass delete_pass
  second-dangles a rest none l = refl
  second-dangles a rest (some t) (e, h) = simp (e, h)

  at_head :
      (s : Sweep) (a : ℕ) (rest : List ℕ)
      → s.unwalked_list ≡ a ∷ rest
      → is_type_def (memory.object_at a) ≡ true
      → delete_pass memory type_defs (updates_list memory s.unwalked_list) s.unwalked_list s
        ≡ delete_pass memory type_defs false (a ∷ rest) s
  at_head s a rest e d = simp (e, d)

  -- A deletion over an unwalked list that starts with a type definition reads a deallocated
  -- object, whatever follows: the first pass deallocates the object and leaves it in the list, and
  -- the second pass starts at it.
  pub sweep-dangles :
      (s : Sweep) (a : ℕ) (rest : List ℕ)
      → s.freed ≡ []
      → s.unwalked_list ≡ a ∷ rest
      → is_type_def (memory.object_at a) ≡ true
      → sweep memory s ≡ none
  unfolding sweep delete_pass
  sweep-dangles s a rest f e d =
      let first = delete_pass memory type_defs false (a ∷ rest) s in
      ap (second_pass memory) (at_head s a rest e d)
      ∙ second-dangles a rest first (first_pass-Leaves a rest s f e d)
