-- ===== src/Classes/Recursion/Walks.antt =====
-- The turns of the walk of is_recursed of slake/obj/class.cc over structs that are not recursive.
use slake.Prelude.{
  ℕ, suc, ◌+◌, ◌≡◌, refl, ap, ◌∙◌, Bool, true, false, ◌⊎◌, List, [], ◌∷◌, contains, arith,
}
use slake.Classes.Recursion.{
  Structs, ExData, Frame, Context, Ending, Outcome, remove_walked, insert, insert_walked, enter,
  step, go_on, run,
}

remove_walked-absent : (a : ℕ) (xs : List ℕ) → contains xs a ≡ false → remove_walked a xs ≡ xs
unfolding remove_walked
remove_walked-absent a [] h = refl
remove_walked-absent a (x ∷ xs) h =
    let ih = remove_walked-absent a xs (ground (arith, h)) in ground (arith, h, ih)

-- Leaving an object takes the set back to what it was before the object was entered.
pub remove_walked-insert :
    (a : ℕ) (xs : List ℕ) → contains xs a ≡ false → remove_walked a (insert a xs) ≡ xs
unfolding remove_walked insert
remove_walked-insert a xs h = let ih = remove_walked-absent a xs h in ground (arith, h, ih)

pub contains-insert :
    (a : ℕ) (xs : List ℕ) (b : ℕ)
    → contains (insert a xs) b ≡ true
    → (a ≡ b) ⊎ (contains xs b ≡ true)
unfolding insert
contains-insert a xs b h = ground (arith, h)

pub insert-contains : (a : ℕ) (xs : List ℕ) → contains (insert a xs) a ≡ true
unfolding insert
insert-contains a xs = ground arith

pub insert-insert : (a : ℕ) (xs : List ℕ) → insert a (insert a xs) ≡ insert a xs
unfolding insert
insert-insert a xs = ground arith

abbrev pub at_frame : ℕ → ExData → List Frame → List ℕ → Context
at_frame o data_of rest walked = record {
  frames = record { struct_object = o; ex_data = data_of } ∷ rest;
  walked_objects = walked;
}

module _ (m : Structs) (alloc : Context → Bool) (allocates : (c : Context) → alloc c ≡ true) where
  -- The walk comes from one context to another in some number of turns.
  abbrev pub Walks : Context → Context → Type 0
  Walks c d = (k : ℕ) × ((fuel : ℕ) → run (k + fuel) m alloc c ≡ run fuel m alloc d)

  pub one_turn : (c d : Context) → step m alloc c.frames c ≡ Outcome.running d → Walks c d
  unfolding run go_on
  one_turn c d e = (
    1,
    λ fuel.
        let one : 1 + fuel ≡ suc fuel = omega arith in
        ap (λ (n : ℕ). run n m alloc c) one ∙ ap (go_on (run fuel m alloc)) e,
  )

  pub then_walks : (b c d : Context) → Walks b c → Walks c d → Walks b d
  then_walks b c d (k, f) (l, g) = (
    k + l,
    λ fuel.
        let both : (k + l) + fuel ≡ k + (l + fuel) = omega arith in
        ap (λ (n : ℕ). run n m alloc b) both ∙ (f (l + fuel) ∙ g fuel),
  )

  pub enter-fresh :
      (o : ℕ) (c : Context)
      → contains c.walked_objects o ≡ false
      → enter alloc o c ≡ Outcome.running (record c { walked_objects = insert o c.walked_objects })
  unfolding enter insert_walked
  enter-fresh o c h = simp (h, allocates)

  pub enter-walked :
      (o : ℕ) (c : Context)
      → contains c.walked_objects o ≡ true
      → enter alloc o c ≡ Outcome.ended Ending.terminated
  unfolding enter
  enter-walked o c h = simp (h)
