-- ===== src/Gc/Generations/Joined.antt =====
-- What gc of rt/gc.cc leaves in the lists of the two generations.
use slake.Prelude.{
  ℕ, suc, ◌+◌, ◌/◌, ◌≤◌, ◌≡◌, refl, ap, ◌∙◌, Bool, true, false, some, List, [], ◌∷◌, ◌++◌, ◌==◌,
  leb, if◌then◌else◌, contains, length, arith,
}
use slake.Gc.Heap.{Memory}
use slake.Gc.Collection.{is_unwalked, count}
use slake.Gc.Mark.Invariant.{Reachable, PushesChildren}
use slake.Gc.Sweep.{is_type_def}
use slake.Gc.Sweep.Ends.{last_from, last-count}
use slake.Gc.Sweep.Deletes.{contains-count}
use slake.Gc.Serial.{persistent, Collected}
use slake.Gc.Serial.Roots.{all_roots}
use slake.Gc.Serial.Outcome.{IsCollected}
use slake.Gc.Serial.Correct.{gc_serial-IsCollected}
use slake.Gc.Generations.{
  Allocated, Generations, link_next, join_lists, move_young_size, join_young, collect_persistent,
  finish_gc, after_young, gc,
}

-- Linking the last object of a list that holds no object twice appends the other list.
link_next-append :
    (p : ℕ) (xs next : List ℕ)
    → ((a : ℕ) → count a (p ∷ xs) ≤ 1)
    → link_next (last_from p xs) (p ∷ xs) next ≡ (p ∷ xs) ++ next
unfolding link_next
link_next-append p [] next once = ground arith
link_next-append p (x ∷ xs) next once =
    let later : (p == last_from x xs) ≡ false =
      ground (arith, once (last_from x xs), last-count x xs) in
    let ih = link_next-append x xs next (λ a. ground (arith, once a)) in
    ap (λ (b : Bool). p ∷ (if b then next else link_next (last_from x xs) (x ∷ xs) next)) later
    ∙ ap (λ (ys : List ℕ). p ∷ ys) ih

join_lists-append :
    (xs next : List ℕ)
    → ((a : ℕ) → count a xs ≤ 1)
    → ((a : ℕ) → 1 ≤ count a xs → (a == 0) ≡ false)
    → join_lists (last_from 0 xs) xs next ≡ xs ++ next
unfolding join_lists
join_lists-append [] next once not_null = refl
join_lists-append (x ∷ xs) next once not_null =
    let linked = not_null (last_from x xs) (last-count x xs) in
    ap (λ (b : Bool). if b then x ∷ xs else link_next (last_from x xs) (x ∷ xs) next) linked
    ∙ link_next-append x xs next once

module _ (children : ℕ → List ℕ) (g : Generations) where
  -- No young object is left, and the persistent list and its counter have those that the
  -- collection left.
  pub record IsJoined (r : Collected) (h : Generations) : Type 0 where
    pub collected : IsCollected children g.runtime g.young_objects persistent r
    pub same_runtime : h.runtime ≡ r.runtime
    pub no_young : h.young_objects ≡ record { objects = []; num_objects = 0 }
    pub joined : h.persistent_objects.objects ≡ r.remaining.objects ++ g.persistent_objects.objects
    pub counted :
        h.persistent_objects.num_objects
        ≡ g.persistent_objects.num_objects + r.remaining.num_objects

module _ (memory : Memory) (fuel : ℕ) (children : ℕ → List ℕ) (g : Generations) (universe : List ℕ)
    (fresh : (a : ℕ) → is_unwalked (g.runtime.gc_status a) ≡ true)
    (pushes_children : (a : ℕ)
      → Reachable (all_roots g.runtime g.young_objects.objects) children a
      → PushesChildren memory fuel children a)
    (in_universe : (a : ℕ)
      → Reachable (all_roots g.runtime g.young_objects.objects) children a
      → contains universe a ≡ true) where
  module _ (not_null : (a : ℕ) → contains g.young_objects.objects a ≡ true → (a == 0) ≡ false)
      (once : (a : ℕ) → count a g.young_objects.objects ≤ 1)
      (type_defs_reached : (a : ℕ)
        → contains g.young_objects.objects a ≡ true
        → is_type_def (memory.object_at a) ≡ true
        → Reachable (all_roots g.runtime g.young_objects.objects) children a) where
    joined_lists :
        (r : Collected)
        → IsCollected children g.runtime g.young_objects persistent r
        → join_lists r.end_object r.remaining.objects g.persistent_objects.objects
          ≡ r.remaining.objects ++ g.persistent_objects.objects
    joined_lists r c =
        ap (λ (e : ℕ). join_lists e r.remaining.objects g.persistent_objects.objects) c.end_last
        ∙ join_lists-append r.remaining.objects g.persistent_objects.objects
            (λ a. ground (arith, c.remains a, once a))
            (λ a h.
              not_null a
                (ground (arith, h, c.remains a, contains-count memory g.young_objects.objects a)))

    -- Where the young collection is as in _gc_serial's theorem, the persistent objects then take
    -- less memory than their limit and the young allocator is not referred to, gc returns: the
    -- young objects that are reached are persistent, in front of the persistent objects, which
    -- all stay, the counters are added, and the young list is empty.
    pub gc-IsJoined :
        (rounds : ℕ)
        → length universe ≤ rounds
        → (account : Collected → Allocated → Allocated)
        → ((r : Collected)
            → leb g.sz_computed_persistent_gc_limit
                (move_young_size (account r g.allocated)).persistent_alloc
              ≡ false)
        → (r : Collected) × (h : Generations) × (gc rounds (suc fuel) memory account false g
            ≡ some h)
          × IsJoined children g r h
    unfolding gc after_young collect_persistent finish_gc join_young
    gc-IsJoined rounds enough account below =
        let (r, e, c) =
          gc_serial-IsCollected memory fuel children g.runtime g.young_objects universe fresh
            pushes_children in_universe not_null once type_defs_reached rounds enough persistent in
        let j = join_young account g r in
        let used = j.allocated.young_alloc + j.allocated.persistent_alloc in
        (
          r,
          record j { sz_mem_used_after_last_gc = used; sz_computed_gc_limit = used + used / 2 },
          ap (after_young rounds (suc fuel) memory account false g) e ∙ simp (below r),
          record {
            collected = c;
            same_runtime = refl;
            no_young = refl;
            joined = joined_lists r c;
            counted = refl;
          },
        )
