-- ===== src/Gc/Sweep/Last.antt =====
-- What _gc_serial of rt/gc_heapless.cc leaves in end_object_out.
use slake.Prelude.{
  ℕ, ◌≤◌, ◌≡◌, sym, ap, ◌∙◌, Bool, true, false, inl, inr, some, List, [], ◌∷◌, ◌==◌, contains,
  Bool-cases, if-both, Option, none, arith,
}
use mathlib.Core.Path.{subst}
use slake.Gc.Heap.{Memory}
use slake.Gc.Collection.{count}
use slake.Gc.Collection.Counts.{count-remove}
use slake.Gc.Sweep.{
  GcTarget, type_defs, all, Sweep, is_type_def, delete_object, unregister, visit_deletable,
  delete_pass, updates_list, second_pass, sweep,
}
use slake.Gc.Sweep.Deletes.{contains-count, pass-PassEffect}
use slake.Gc.Sweep.Ends.{last_from, delete_object-end}

abbrev sweep_or : Sweep → Option Sweep → Sweep
sweep_or d none = d
sweep_or d (some s) = s

module _ (memory : Memory) where
  -- end_object_out is the last object, and each object to visit is linked in the list once.
  pub record IsLast (xs : List ℕ) (s : Sweep) : Type 0 where
    pub last : s.end_object ≡ last_from 0 s.objects
    pub linked : (a : ℕ) → contains xs a ≡ true → count a s.objects ≡ 1
    pub not_null : (a : ℕ) → contains xs a ≡ true → (a == 0) ≡ false

  delete-IsLast :
      (update : Bool) (i : ℕ) (rest : List ℕ) (s : Sweep)
      → contains rest i ≡ false
      → IsLast (i ∷ rest) s
      → IsLast rest (delete_object update i s)
  unfolding delete_object
  delete-IsLast update i rest s f l = record {
    last =
        delete_object-end update i s (ground (arith, l.linked i)) (ground (arith, l.not_null i))
          l.last;
    linked = λ a h. ground (arith, h, f, l.linked a, count-remove i a s.objects);
    not_null = λ a h. ground (arith, h, l.not_null a);
  }

  visit-IsLast :
      (target : GcTarget) (update : Bool) (i : ℕ) (rest : List ℕ) (s : Sweep)
      → contains rest i ≡ false
      → IsLast (i ∷ rest) s
      → IsLast rest (visit_deletable memory target update i s)
  unfolding visit_deletable
  visit-IsLast all update i rest s f l = delete-IsLast update i rest s f l
  visit-IsLast type_defs update i rest s f l =
      if-both (IsLast rest) (is_type_def (memory.object_at i))
        (delete-IsLast update i rest (unregister i s) f
          record { last = l.last; linked = l.linked; not_null = l.not_null })
        record {
          last = l.last;
          linked = λ a h. l.linked a (ground (arith, h));
          not_null = λ a h. l.not_null a (ground (arith, h));
        }

  pass-last :
      (target : GcTarget) (update : Bool) (xs : List ℕ) (s t : Sweep)
      → ((a : ℕ) → count a xs ≤ 1)
      → IsLast xs s
      → delete_pass memory target update xs s ≡ some t
      → t.end_object ≡ last_from 0 t.objects
  unfolding delete_pass
  pass-last target update [] s t once l e =
      subst (λ (u : Sweep). u.end_object ≡ last_from 0 u.objects) (ap (sweep_or s) e) l.last
  pass-last target update (i ∷ rest) s t once l e =
      let alone : contains rest i ≡ false = ground (arith, once i, contains-count memory rest i) in
      elim (Bool-cases (contains s.freed i)) [
        | inl h ↦ absurd (ground (arith, e, h))
        | inr h ↦
            pass-last target update rest (visit_deletable memory target update i s) t
              (λ a. ground (arith, once a)) (visit-IsLast target update i rest s alone l)
              (ground (arith, e, h))
      ]

  -- After a deletion end_object_out is the last object of the generation list, or nullptr when
  -- nothing is left, if it was before, no unwalked object is null, each is linked once, and the
  -- unwalked list is empty or starts with an object that is no type definition.
  pub sweep-last :
      (s : Sweep)
      → s.freed ≡ []
      → ((a : ℕ) → count a s.unwalked_list ≤ 1)
      → updates_list memory s.unwalked_list ≡ true
      → IsLast s.unwalked_list s
      → (t : Sweep) → sweep memory s ≡ some t
      → t.end_object ≡ last_from 0 t.objects
  unfolding sweep second_pass
  sweep-last s f once u l t e =
      let update = updates_list memory s.unwalked_list in
      let (v, g, p) =
        pass-PassEffect memory type_defs update s.unwalked_list s
          (λ a. ground (arith, f, once a)) in
      let last = pass-last type_defs update s.unwalked_list s v once l g in
      pass-last all false v.unwalked_list (record v { unwalked_list = [] }) t
        (λ a. ground (arith, once a, u, p.links a))
        record {
          last = last;
          linked = λ a h. ground (
            arith,
            h,
            u,
            l.linked a,
            p.keeps a,
            p.links a,
            contains-count memory s.unwalked_list a,
            contains-count memory v.unwalked_list a,
          );
          not_null = λ a h. ground (
            arith,
            h,
            u,
            l.not_null a,
            p.links a,
            contains-count memory s.unwalked_list a,
            contains-count memory v.unwalked_list a,
          );
        }
        (sym (ap (second_pass memory) g) ∙ e)
