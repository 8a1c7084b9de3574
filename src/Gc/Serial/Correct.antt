-- ===== src/Gc/Serial/Correct.antt =====
-- What _gc_serial of rt/gc_heapless.cc deallocates and what it keeps.
use slake.Prelude.{
  ℕ, suc, ◌-◌, ◌≤◌, ◌≡◌, ◌↔◌, refl, ap, ◌∙◌, true, false, not, ◌&&◌, ◌⊎◌, inl, inr, some, List, [],
  ◌∷◌, ◌==◌, if◌then◌else◌, contains, length, Bool-cases, arith,
}
use slake.Gc.Heap.{Memory}
use slake.Gc.Collection.{Collection, is_unwalked, count}
use slake.Gc.Mark.Invariant.{Reachable, from_root, PushesChildren}
use slake.Gc.Sweep.{Sweep, sweep, is_type_def, updates_list}
use slake.Gc.Sweep.Deletes.{contains-count, IsSwept, sweep-IsSwept}
use slake.Gc.Sweep.Ends.{last_from}
use slake.Gc.Sweep.Last.{sweep-last}
use slake.Gc.Serial.{
  Runtime, ObjectList, Generation, Collected, begin_scan, promote, start_sweep, finish_collection,
  after_mark, gc_serial,
}
use slake.Gc.Serial.Roots.{all_roots, contains-all_roots, begin_scan-IsScanned, begin_scan-end}
use slake.Gc.Serial.Outcome.{Reached, IsCollected, promote-status, promote-generation}
use slake.Gc.Serial.Marked.{Marked, mark-Marked, not_ready, unwalked_iff}

module _ (memory : Memory) (fuel : ℕ) (children : ℕ → List ℕ) (rt : Runtime) (l : ObjectList)
    (universe : List ℕ) (fresh : (a : ℕ) → is_unwalked (rt.gc_status a) ≡ true)
    (pushes_children : (a : ℕ)
      → Reachable (all_roots rt l.objects) children a
      → PushesChildren memory fuel children a)
    (in_universe : (a : ℕ)
      → Reachable (all_roots rt l.objects) children a
      → contains universe a ≡ true) where
  module _ (not_null : (a : ℕ) → contains l.objects a ≡ true → (a == 0) ≡ false)
      (once : (a : ℕ) → count a l.objects ≤ 1)
      (type_defs_reached : (a : ℕ)
        → contains l.objects a ≡ true
        → is_type_def (memory.object_at a) ≡ true
        → Reached children rt l a) where
    abbrev IsMarkedFor : Collection → Type 0
    IsMarkedFor d =
        Marked memory fuel children rt l.objects universe fresh pushes_children in_universe d

    left_count :
        (d : Collection)
        → IsMarkedFor d
        → (a : ℕ)
        → count a d.unwalked_list ≡ (
            if is_unwalked (d.gc_status a) && rt.host_ref_count a == 0
            then count a l.objects
            else 0)
    left_count d m a =
        ground
          (arith, m.sorted_.left a, (begin_scan-IsScanned rt l.objects fresh).unwalked_objects a)

    -- An object of the generation that the host refers to is a root.
    host-Reached :
        (a : ℕ)
        → contains l.objects a ≡ true
        → (a == 0) ≡ false
        → (rt.host_ref_count a == 0) ≡ false
        → Reached children rt l a
    host-Reached a k n h =
        from_root a
          (ground (
            arith,
            contains-all_roots rt l.objects a,
            (begin_scan-IsScanned rt l.objects fresh).host_objects a,
            k,
            h,
          ))
          n

    left_updates :
        (d : Collection)
        → IsMarkedFor d
        → (xs : List ℕ) → d.unwalked_list ≡ xs
        → updates_list memory xs ≡ true
    left_updates d m [] e = refl
    left_updates d m (i ∷ rest) e = elim (Bool-cases (is_type_def (memory.object_at i))) [
      | inr f ↦ ground (arith, f)
      | inl t ↦
          let first = ap (count i) e in
          let r =
            type_defs_reached i
              (ground (arith, first, left_count d m i, contains-count memory l.objects i)) t in
          let gone =
            (unwalked_iff memory fuel children rt l.objects universe fresh pushes_children
                in_universe d m i).1
              r in
          ground (arith, first, left_count d m i, gone)
    ]

    deleted :
        (d : Collection)
        → IsMarkedFor d
        → (end : ℕ)
        → (t : Sweep) × (sweep memory (start_sweep rt l.objects end d) ≡ some t)
          × IsSwept memory (start_sweep rt l.objects end d) t
    deleted d m end =
        sweep-IsSwept memory (start_sweep rt l.objects end d) refl refl
          (λ a. ground (arith, left_count d m a, once a)) (left_updates d m d.unwalked_list refl)

    abbrev outcome : Generation → Collection → Sweep → Collected
    outcome g d t = record {
      runtime =
          promote g d.walked_list
            (record rt { gc_status = d.gc_status; registered = t.registered });
      remaining = record {
        objects = t.objects;
        num_objects = l.num_objects - t.num_deleted_objects;
      };
      end_object = t.end_object;
      freed = t.freed;
    }

    freed_iff :
        (d : Collection)
        → IsMarkedFor d
        → (end : ℕ) → (t : Sweep) → IsSwept memory (start_sweep rt l.objects end d) t
        → (a : ℕ)
        → contains t.freed a
          ≡ (is_unwalked (d.gc_status a) && (rt.host_ref_count a == 0 && contains l.objects a))
    freed_iff d m end t w a = ground (
      arith,
      w.frees_unwalked a,
      left_count d m a,
      contains-count memory t.freed a,
      contains-count memory l.objects a,
    )

    Reached-status :
        (d : Collection)
        → IsMarkedFor d
        → (a : ℕ) → (is_unwalked (d.gc_status a) ≡ false) ↔ Reached children rt l a
    Reached-status d m a =
        unwalked_iff memory fuel children rt l.objects universe fresh pushes_children in_universe d
          m a

    splits_ :
        (d : Collection)
        → IsMarkedFor d
        → (end : ℕ) → (t : Sweep) → IsSwept memory (start_sweep rt l.objects end d) t
        → (a : ℕ) → contains l.objects a ≡ true
        → (Reached children rt l a × (contains t.freed a ≡ false))
          ⊎ ((Reached children rt l a → ⊥) × (contains t.freed a ≡ true))
    splits_ d m end t w a k =
        let freed = freed_iff d m end t w a in
        elim (Bool-cases (is_unwalked (d.gc_status a))) [
          | inr u ↦ inl ((Reached-status d m a).0 u, ground (arith, freed, u))
          | inl u ↦ elim (Bool-cases (rt.host_ref_count a == 0)) [
            | inl h ↦ inr (
              (λ r. let kept = (Reached-status d m a).1 r in ground (arith, kept, u)),
              ground (arith, freed, u, h, k),
            )
            | inr h ↦ inl (host-Reached a k (not_null a k) h, ground (arith, freed, h))
          ]
        ]

    walked_listed :
        (d : Collection)
        → IsMarkedFor d
        → (a : ℕ) → contains d.walked_list a ≡ not (is_unwalked (d.gc_status a))
    walked_listed d m a =
        let ready =
          not_ready memory fuel children rt l.objects universe fresh pushes_children in_universe d m
            a in
        ground (arith, ready, m.sorted_.done a, contains-count memory d.walked_list a)

    -- The unwalked objects that are left are linked in the generation.
    swept_last :
        (d : Collection)
        → IsMarkedFor d
        → (end : ℕ) → end ≡ last_from 0 l.objects
        → (t : Sweep) → sweep memory (start_sweep rt l.objects end d) ≡ some t
        → t.end_object ≡ last_from 0 t.objects
    swept_last d m end e =
        sweep-last memory (start_sweep rt l.objects end d) refl
          (λ a. ground (arith, left_count d m a, once a)) (left_updates d m d.unwalked_list refl)
          record {
            last = e;
            linked = λ a h.
                ground
                  (arith, h, left_count d m a, once a, contains-count memory d.unwalked_list a);
            not_null = λ a h. not_null a (
                ground (
                  arith,
                  h,
                  left_count d m a,
                  contains-count memory d.unwalked_list a,
                  contains-count memory l.objects a,
                ));
          }

    finished :
        (g : Generation) (d : Collection)
        → IsMarkedFor d
        → (end : ℕ) → (t : Sweep) → IsSwept memory (start_sweep rt l.objects end d) t
        → t.end_object ≡ last_from 0 t.objects
        → IsCollected children rt l g (outcome g d t)
    finished g d m end t w last = record {
      end_last = last;
      splits = splits_ d m end t w;
      frees_objects = λ a h. ground (arith, h, freed_iff d m end t w a);
      remains = λ a. ground (
        arith,
        w.unlinks a,
        left_count d m a,
        freed_iff d m end t w a,
        contains-count memory d.unwalked_list a,
        contains-count memory l.objects a,
      );
      counter = ap (λ (n : ℕ). l.num_objects - n) w.counts;
      unwalked_again = λ a. ground (
        arith,
        promote-status g d.walked_list
            (record rt { gc_status = d.gc_status; registered = t.registered }) a,
        walked_listed d m a,
      );
      generation = λ a r. ground (
        arith,
        promote-generation g d.walked_list
            (record rt { gc_status = d.gc_status; registered = t.registered }) a,
        walked_listed d m a,
        (Reached-status d m a).1 r,
      );
    }

    -- For a generation list without null and repeated objects whose type definitions are all
    -- reached, in a memory whose reached objects only push their children, the collection returns:
    -- it deallocates exactly the objects of the generation that no root reaches, keeps the others
    -- linked and moves them to the new generation, lowers the counter by the deallocations, leaves
    -- every object unwalked for the next one and gives out the last object that is linked. As many
    -- rounds are enough as there are addresses in a list of all reached ones.
    pub gc_serial-IsCollected :
        (rounds : ℕ)
        → length universe ≤ rounds
        → (g : Generation)
        → (r : Collected) × (gc_serial rounds (suc fuel) memory rt l g ≡ some r)
          × IsCollected children rt l g r
    unfolding gc_serial after_mark finish_collection
    gc_serial-IsCollected rounds enough g =
        let (d, e, m) =
          mark-Marked memory fuel children rt l.objects universe fresh pushes_children in_universe
            rounds enough in
        let end = (begin_scan rt l.objects).end_object in
        let (t, f, w) = deleted d m end in
        (
          outcome g d t,
          ap (after_mark memory rt l g end) e ∙ ap (finish_collection rt l g d) f,
          finished g d m end t w (swept_last d m end (begin_scan-end rt l.objects) t f),
        )
