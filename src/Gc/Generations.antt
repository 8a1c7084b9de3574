-- ===== src/Gc/Generations.antt =====
-- Runtime::gc of rt/gc.cc: the collection of the young objects, which become persistent, and of
-- the persistent ones where they take enough memory. `none` is the end of the program.
pub mod Joined
use slake.Prelude.{
  ℕ, ◌+◌, ◌/◌, Bool, true, false, Option, none, some, List, [], ◌∷◌, ◌==◌, leb, if◌then◌else◌,
}
use slake.Gc.Heap.{Memory}
use slake.Gc.Serial.{Runtime, ObjectList, young, persistent, Collected, gc_serial}

-- sz_allocated of young_alloc and of persistent_alloc
pub record Allocated : Type 0 where
  pub young_alloc : ℕ
  pub persistent_alloc : ℕ

-- The fields of the runtime that only gc() uses, with the leading underscore left out.
pub record Generations : Type 0 where
  pub runtime : Runtime
  pub young_objects : ObjectList
  pub persistent_objects : ObjectList
  pub allocated : Allocated
  pub sz_persistent_mem_used_after_last_gc : ℕ
  pub sz_computed_persistent_gc_limit : ℕ
  pub sz_mem_used_after_last_gc : ℕ
  pub sz_computed_gc_limit : ℕ

-- The list from its head on, after `end->next_same_gen_object = next`.
unfoldable pub link_next : ℕ → List ℕ → List ℕ → List ℕ
link_next end [] next = []
link_next end (x ∷ xs) next =
    let rest = link_next end xs next in x ∷ (if x == end then next else rest)

-- persistent_object_list after the young objects are put in front of it. Without a young object it
-- stays; without the end of the young list the persistent objects are lost.
unfoldable pub join_lists : ℕ → List ℕ → List ℕ → List ℕ
join_lists end [] persistent_list = persistent_list
join_lists end (x ∷ xs) persistent_list =
    if end == 0 then x ∷ xs else link_next end (x ∷ xs) persistent_list

unfoldable pub move_young_size : Allocated → Allocated
move_young_size s = record {
  young_alloc = 0;
  persistent_alloc = s.persistent_alloc + s.young_alloc;
}

-- From the first _gc_serial to the emptied young list. `account` is what the allocators count
-- after the objects are deallocated and replace_allocator is called on the others.
unfoldable pub join_young :
    (Collected → Allocated → Allocated) → Generations → Collected → Generations
join_young account g r = record g {
  runtime = r.runtime;
  young_objects = record { objects = []; num_objects = 0 };
  persistent_objects = record {
    objects = join_lists r.end_object r.remaining.objects g.persistent_objects.objects;
    num_objects = g.persistent_objects.num_objects + r.remaining.num_objects;
  };
  allocated = move_young_size (account r g.allocated);
}

-- After the second _gc_serial. A shift to the right by one place halves.
unfoldable pub finish_persistent :
    (Collected → Allocated → Allocated) → Generations → Option Collected → Option Generations
finish_persistent account g none = none
finish_persistent account g (some r) =
    let s = account r g.allocated in
    some (record g {
      runtime = r.runtime;
      persistent_objects = r.remaining;
      allocated = s;
      sz_persistent_mem_used_after_last_gc = s.persistent_alloc;
      sz_computed_persistent_gc_limit = s.persistent_alloc + s.persistent_alloc / 2;
    })

unfoldable pub collect_persistent :
    ℕ → ℕ → Memory → (Collected → Allocated → Allocated) → Generations → Option Generations
collect_persistent rounds fuel memory account g =
    if leb g.sz_computed_persistent_gc_limit g.allocated.persistent_alloc
    then finish_persistent account g
        (gc_serial rounds fuel memory g.runtime g.persistent_objects persistent)
    else some g

-- The limits of the next collection, and the check for references to the young allocator.
unfoldable pub finish_gc : Bool → Option Generations → Option Generations
finish_gc unreplaced none = none
finish_gc unreplaced (some g) =
    let used = g.allocated.young_alloc + g.allocated.persistent_alloc in
    if unreplaced
    then none
    else some
        (record g { sz_mem_used_after_last_gc = used; sz_computed_gc_limit = used + used / 2 })

unfoldable pub after_young :
    ℕ
    → ℕ
    → Memory
    → (Collected → Allocated → Allocated)
    → Bool
    → Generations
    → Option Collected
    → Option Generations
after_young rounds fuel memory account unreplaced g none = none
after_young rounds fuel memory account unreplaced g (some r) =
    finish_gc unreplaced (collect_persistent rounds fuel memory account (join_young account g r))

-- The memory is read by both collections. `unreplaced` is whether the young allocator is still
-- referred to.
unfoldable pub gc :
    ℕ → ℕ → Memory → (Collected → Allocated → Allocated) → Bool → Generations → Option Generations
gc rounds fuel memory account unreplaced g =
    after_young rounds fuel memory account unreplaced g
      (gc_serial rounds fuel memory g.runtime g.young_objects persistent)
