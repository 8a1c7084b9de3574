-- ===== src/Gc/Serial/Outcome.antt =====
-- What a run of _gc_serial of rt/gc_heapless.cc does to a generation and to the runtime.
use slake.Prelude.{
  ℕ, ◌-◌, ◌≡◌, refl, true, false, ◌||◌, ◌⊎◌, List, [], ◌∷◌, if◌then◌else◌, contains, length, arith,
}
use slake.Gc.Collection.{is_unwalked, count}
use slake.Gc.Mark.Invariant.{Reachable}
use slake.Gc.Sweep.Ends.{last_from}
use slake.Gc.Serial.{Runtime, ObjectList, Generation, Collected, promote_object, promote}
use slake.Gc.Serial.Roots.{all_roots}

-- The walked objects become unwalked and belong to the new generation, no others.
pub promote-status :
    (g : Generation) (xs : List ℕ) (rt : Runtime) (a : ℕ)
    → is_unwalked ((promote g xs rt).gc_status a) ≡ (contains xs a || is_unwalked (rt.gc_status a))
unfolding promote
promote-status g [] rt a = refl
promote-status g (x ∷ xs) rt a = ground (arith, promote-status g xs (promote_object g x rt) a)

pub promote-generation :
    (g : Generation) (xs : List ℕ) (rt : Runtime) (a : ℕ)
    → (promote g xs rt).object_generation a ≡ (if contains xs a then g else rt.object_generation a)
unfolding promote
promote-generation g [] rt a = refl
promote-generation g (x ∷ xs) rt a =
    ground (arith, promote-generation g xs (promote_object g x rt) a)

module _ (children : ℕ → List ℕ) (rt : Runtime) (l : ObjectList) where
  abbrev pub Reached : ℕ → Type 0
  Reached = Reachable (all_roots rt l.objects) children

  -- An object of the generation is deallocated or reached, never both; nothing else is
  -- deallocated. What is reached stays linked and is of the new generation. The counter goes down
  -- by the deallocations, every object is unwalked again, and the end is the last object linked.
  pub record IsCollected (g : Generation) (r : Collected) : Type 0 where
    pub splits :
        (a : ℕ)
        → contains l.objects a ≡ true
        → (Reached a × (contains r.freed a ≡ false))
          ⊎ ((Reached a → ⊥) × (contains r.freed a ≡ true))
    pub frees_objects : (a : ℕ) → contains r.freed a ≡ true → contains l.objects a ≡ true
    pub remains :
        (a : ℕ)
        → count a r.remaining.objects ≡ (if contains r.freed a then 0 else count a l.objects)
    pub counter : r.remaining.num_objects ≡ l.num_objects - length r.freed
    pub unwalked_again : (a : ℕ) → is_unwalked (r.runtime.gc_status a) ≡ true
    pub generation : (a : ℕ) → Reached a → r.runtime.object_generation a ≡ g
    pub end_last : r.end_object ≡ last_from 0 r.remaining.objects
