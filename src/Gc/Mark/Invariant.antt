-- ===== src/Gc/Mark/Invariant.antt =====
-- The walk of an object and of a list of objects of rt/gc_heapless.cc, with the invariant of the
-- marking.
use slake.Prelude.{
  ℕ, suc, ◌≡◌, refl, true, false, inl, inr, some, List, [], ◌∷◌, ◌==◌, contains, Bool-cases, arith,
}
use slake.Gc.Heap.{Memory}
use slake.Gc.Walk.{Visit, push, walk_value}
use slake.Gc.Walk.Objects.{object_visits}
use slake.Gc.Collection.{
  ready_to_walk, Collection, is_unwalked, is_walked, push_object, push_all, begin_walk, end_walk,
}
use slake.Gc.Collection.Counts.{begin_walk-status}
use slake.Gc.Mark.{Walker, run_visit, run_visits, walk_ready, walk_object}

-- The pushes of a list of addresses.
abbrev pub pushes : List ℕ → List Visit
pushes [] = []
pushes (a ∷ rest) = push a ∷ pushes rest

run_visits-pushes :
    (walker : Walker) (xs : List ℕ) (c : Collection)
    → run_visits walker (pushes xs) c ≡ some (push_all xs c)
unfolding run_visits run_visit
run_visits-pushes walker [] c = refl
run_visits-pushes walker (x ∷ xs) c = run_visits-pushes walker xs (push_object x c)

-- The objects that the roots reach over the pointers that are pushed.
pub data Reachable (roots : List ℕ) (children : ℕ → List ℕ) : ℕ → Type 0 where
  from_root : (a : ℕ) → contains roots a ≡ true → (a == 0) ≡ false → Reachable roots children a
  through :
      (a b : ℕ)
      → Reachable roots children a
      → contains (children a) b ≡ true
      → (b == 0) ≡ false
      → Reachable roots children b

module _ (memory : Memory) (fuel : ℕ) (children : ℕ → List ℕ) where
  -- The visits of an object are the pushes of its children.
  abbrev pub PushesChildren : ℕ → Type 0
  PushesChildren a =
      object_visits (λ v. walk_value fuel memory v) memory a ≡ some (pushes (children a))

  pub walk_object-ready :
      (a : ℕ) (c : Collection)
      → (a == 0) ≡ false
      → c.gc_status a ≡ ready_to_walk
      → PushesChildren a
      → walk_object (suc fuel) memory a c
        ≡ some (end_walk a (push_all (children a) (begin_walk a c)))
  unfolding walk_object walk_ready
  walk_object-ready a c n e p = simp (n, e, p, run_visits-pushes)

  module _ (roots : List ℕ) where
    abbrev Reached : ℕ → Type 0
    Reached = Reachable roots children

    -- What is not unwalked is reachable, and what a walked object points to is not unwalked.
    pub record IsMarking (c : Collection) : Type 0 where
      pub sound : (a : ℕ) → is_unwalked (c.gc_status a) ≡ false → Reached a
      pub closed :
          (a b : ℕ)
          → is_walked (c.gc_status a) ≡ true
          → contains (children a) b ≡ true
          → (b == 0) ≡ false
          → is_unwalked (c.gc_status b) ≡ false

    pub Reached-nonzero : (a : ℕ) → Reached a → (a == 0) ≡ false
    Reached-nonzero a (from_root _ r n) = n
    Reached-nonzero a (through b _ r e n) = n

    newly_ready :
        (a b : ℕ) (c : Collection)
        → c.gc_status a ≡ ready_to_walk
        → is_unwalked (c.gc_status b) ≡ true
        → is_unwalked ((end_walk a (push_all (children a) (begin_walk a c))).gc_status b) ≡ false
        → (contains (children a) b ≡ true) × ((b == 0) ≡ false)
    newly_ready a b c e u h = (
      ground (arith, begin_walk-status a (children a) c b),
      ground (arith, begin_walk-status a (children a) c b),
    )

    walked_sound :
        (a b : ℕ) (c : Collection)
        → c.gc_status a ≡ ready_to_walk
        → IsMarking c
        → is_unwalked ((end_walk a (push_all (children a) (begin_walk a c))).gc_status b) ≡ false
        → Reached b
    walked_sound a b c e m h = elim (Bool-cases (is_unwalked (c.gc_status b))) [
      | inl u ↦
          let (k, n) = newly_ready a b c e u h in through a b (m.sound a (ground (arith, e))) k n
      | inr u ↦ m.sound b u
    ]

    pub walked-IsMarking :
        (a : ℕ) (c : Collection)
        → c.gc_status a ≡ ready_to_walk
        → IsMarking c
        → IsMarking (end_walk a (push_all (children a) (begin_walk a c)))
    walked-IsMarking a c e m = record {
      sound = λ b h. walked_sound a b c e m h;
      closed = λ x y h k n.
          let at_x = begin_walk-status a (children a) c x in
          let at_y = begin_walk-status a (children a) c y in
          let before = m.closed x y in ground (arith, at_x, at_y, before);
    }
