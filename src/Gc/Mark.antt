-- ===== src/Gc/Mark.antt =====
-- The marking of Runtime::_gc_serial of rt/gc_heapless.cc: the walk of an object and the loop over
-- the walkable lists. `none` is a panic, a call of std::terminate, or fuel that is not enough.
pub mod Invariant
pub mod Ends
use slake.Prelude.{
  ℕ, zero, suc, Bool, true, false, not, ◌&&◌, Option, none, some, List, [], ◌∷◌, ◌==◌,
  if◌then◌else◌,
}
use slake.Gc.Heap.{Memory}
use slake.Gc.Walk.{Visit, push, walk, Visits, walk_value}
use slake.Gc.Walk.Objects.{object_visits}
use slake.Gc.Collection.{
  Status, unwalked, ready_to_walk, walked, Collection, is_ready, push_object, begin_walk, end_walk,
}

abbrev pub Walker : Type 0
Walker = ℕ → Collection → Option Collection

abbrev pub and_then : Option Collection → (Collection → Option Collection) → Option Collection
and_then none f = none
and_then (some c) f = f c

abbrev is_head : ℕ → List ℕ → Bool
is_head a [] = false
is_head a (x ∷ xs) = a == x

-- One visit. An object that is walked at once while it is ready and not at the head of the
-- walkable list is marked as walked where it stands: the list it is linked in, whose nodes have no
-- link back, still leads to it, and the loop over that list terminates the program on it.
unfoldable pub run_visit : Walker → Visit → Collection → Option Collection
run_visit walker (push a) c = some (push_object a c)
run_visit walker (walk a) c =
    if is_ready (c.gc_status a) && not (is_head a c.walkable_list) then none else walker a c

unfoldable pub run_visits : Walker → List Visit → Collection → Option Collection
unfolding run_visit
run_visits walker [] c = some c
run_visits walker (v ∷ vs) c = and_then (run_visit walker v c) (λ d. run_visits walker vs d)

abbrev pub finish_walk : ℕ → Option Collection → Option Collection
finish_walk a none = none
finish_walk a (some c) = some (end_walk a c)

-- _gc_walk(context, Object *) of a ready object whose visits are given
unfoldable pub walk_ready : Walker → Visits → ℕ → Collection → Option Collection
unfolding run_visits
walk_ready walker none a c = none
walk_ready walker (some visits) a c = finish_walk a (run_visits walker visits (begin_walk a c))

-- _gc_walk(context, Object *)
unfoldable pub walk_object : ℕ → Memory → Walker
unfolding walk_ready
walk_object zero memory a c = none
walk_object (suc fuel) memory a c = if a == 0 then some c else elim (c.gc_status a) [
  | unwalked ↦ none
  | ready_to_walk ↦
      walk_ready (walk_object fuel memory) (object_visits (λ v. walk_value fuel memory v) memory a)
        a c
  | walked ↦ some c
]

-- The inner loop over a list of walkable objects
abbrev pub walk_status : Walker → ℕ → Collection → Status → Option Collection
walk_status walker a c unwalked = none
walk_status walker a c ready_to_walk = walker a c
walk_status walker a c walked = none

unfoldable pub walk_list : Walker → List ℕ → Collection → Option Collection
walk_list walker [] c = some c
walk_list walker (a ∷ rest) c =
    and_then (walk_status walker a c (c.gc_status a)) (λ d. walk_list walker rest d)

-- get_walkable_list
unfoldable pub take_walkable : Collection → Collection
take_walkable c = record c { walkable_list = [] }

-- The outer loop, one list of walkable objects per round
unfoldable pub walk_rounds : ℕ → Walker → List ℕ → Collection → Option Collection
unfolding walk_list take_walkable
walk_rounds rounds walker [] c = some c
walk_rounds zero walker (a ∷ rest) c = none
walk_rounds (suc rounds) walker (a ∷ rest) c =
    and_then (walk_list walker (a ∷ rest) c)
      (λ d. walk_rounds rounds walker d.walkable_list (take_walkable d))

-- The marking from a collection whose roots are pushed
unfoldable pub mark : ℕ → ℕ → Memory → Collection → Option Collection
unfolding walk_rounds walk_object take_walkable
mark rounds fuel memory c =
    walk_rounds rounds (walk_object fuel memory) c.walkable_list (take_walkable c)
