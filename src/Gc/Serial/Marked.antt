-- ===== src/Gc/Serial/Marked.antt =====
-- The marking of _gc_serial of rt/gc_heapless.cc from its roots.
use slake.Prelude.{
  ℕ, suc, ◌≤◌, ◌≡◌, ◌↔◌, refl, true, false, not, ◌&&◌, some, List, [], ◌==◌, contains,
  contains-append, length, arith,
}
use slake.Gc.Heap.{Memory}
use slake.Gc.Collection.{Collection, is_unwalked, is_ready, is_walked, push_all}
use slake.Gc.Collection.Counts.{IsSorted, push_all-IsSorted, push_all-status}
use slake.Gc.Mark.{mark, take_walkable}
use slake.Gc.Mark.Invariant.{Reachable, from_root, through, PushesChildren, IsMarking}
use slake.Gc.Mark.Ends.{
  pending-length, take-IsSorted, take-IsMarking, IsMarked, walk_rounds-IsMarked,
}
use slake.Gc.Serial.{Runtime, Scan, begin_scan, runtime_roots, push_roots}
use slake.Gc.Serial.Roots.{all_roots, begin_scan-IsScanned}

module _ (memory : Memory) (fuel : ℕ) (children : ℕ → List ℕ) (rt : Runtime)
    (objects universe : List ℕ) (fresh : (a : ℕ) → is_unwalked (rt.gc_status a) ≡ true)
    (pushes_children : (a : ℕ)
      → Reachable (all_roots rt objects) children a
      → PushesChildren memory fuel children a)
    (in_universe : (a : ℕ)
      → Reachable (all_roots rt objects) children a
      → contains universe a ≡ true) where
  abbrev Reached : ℕ → Type 0
  Reached = Reachable (all_roots rt objects) children

  abbrev scanned : Scan
  scanned = begin_scan rt objects

  abbrev pushed : Collection
  pushed = push_roots rt scanned

  pushed-status :
      (a : ℕ)
      → is_unwalked (pushed.gc_status a) ≡ not (contains (all_roots rt objects) a && not (a == 0))
  unfolding push_roots all_roots
  pushed-status a =
      let host = push_all-status scanned.host_ref_list scanned.collection a in
      let own =
        push_all-status (runtime_roots rt) (push_all scanned.host_ref_list scanned.collection) a in
      let split = contains-append scanned.host_ref_list (runtime_roots rt) a in
      ground (arith, host, own, split, (begin_scan-IsScanned rt objects fresh).unwalked_all a)

  pushed-walked : (a : ℕ) → is_walked (pushed.gc_status a) ≡ false
  unfolding push_roots
  pushed-walked a =
      let host = push_all-status scanned.host_ref_list scanned.collection a in
      let own =
        push_all-status (runtime_roots rt) (push_all scanned.host_ref_list scanned.collection) a in
      ground (arith, host, own, (begin_scan-IsScanned rt objects fresh).unwalked_all a)

  pushed-IsSorted : IsSorted scanned.collection.unwalked_list [] [] pushed
  unfolding push_roots
  pushed-IsSorted =
      let u = scanned.collection.unwalked_list in
      push_all-IsSorted u [] [] (runtime_roots rt)
        (push_all scanned.host_ref_list scanned.collection)
        (push_all-IsSorted u [] [] scanned.host_ref_list scanned.collection
          (begin_scan-IsScanned rt objects fresh).sorted)

  pushed-IsMarking : IsMarking memory fuel children (all_roots rt objects) pushed
  pushed-IsMarking = record {
    sound = λ a h.
        from_root a (ground (arith, h, pushed-status a)) (ground (arith, h, pushed-status a));
    closed = λ a b h k n. ground (arith, h, pushed-walked a);
  }

  abbrev pub Marked : Collection → Type 0
  Marked d =
      IsMarked memory fuel children (all_roots rt objects) scanned.collection.unwalked_list universe
        pushes_children in_universe (take_walkable pushed) d

  pub mark-Marked :
      (rounds : ℕ)
      → length universe ≤ rounds
      → (d : Collection) × (mark rounds (suc fuel) memory pushed ≡ some d) × Marked d
  unfolding mark take_walkable
  mark-Marked rounds enough =
      let u = scanned.collection.unwalked_list in
      walk_rounds-IsMarked memory fuel children (all_roots rt objects) u universe pushes_children
        in_universe rounds pushed.walkable_list (take_walkable pushed)
        (omega (arith, pending-length pushed.gc_status universe, enough)) refl
        (take-IsSorted memory fuel children (all_roots rt objects) u universe pushes_children
          in_universe pushed pushed-IsSorted)
        (take-IsMarking memory fuel children (all_roots rt objects) u universe pushes_children
          in_universe pushed pushed-IsMarking)

  -- At the end no object is ready, so one that is not unwalked is walked.
  pub not_ready : (d : Collection) → Marked d → (a : ℕ) → is_ready (d.gc_status a) ≡ false
  not_ready d m a = ground (arith, m.none_left, m.sorted_.queued a)

  kept : (d : Collection) → Marked d → (a : ℕ) → Reached a → is_unwalked (d.gc_status a) ≡ false
  unfolding take_walkable
  kept d m a (from_root _ k n) = m.keeps_ a (ground (arith, pushed-status a, k, n))
  kept d m a (through b _ r k n) =
      m.marking_.closed b a (ground (arith, kept d m b r, not_ready d m b)) k n

  -- The unwalked objects are those of the generation that the host does not refer to and that
  -- nothing reaches.
  pub unwalked_iff :
      (d : Collection) → Marked d → (a : ℕ) → (is_unwalked (d.gc_status a) ≡ false) ↔ Reached a
  unwalked_iff d m a = (m.marking_.sound a, kept d m a)
