-- ===== src/Gc/Sweep/Deletes.antt =====
-- What the deletion of rt/gc_heapless.cc frees, and when it reads what it has freed.
use slake.Prelude.{
  ℕ, ◌+◌, ◌≤◌, ◌≡◌, refl, ap, ◌∙◌, Bool, true, false, not, ◌&&◌, some, List, [], ◌∷◌, ◌==◌,
  if◌then◌else◌, contains, length, arith,
}
use slake.Gc.Heap.{Memory}
use slake.Gc.Collection.{count}
use slake.Gc.Collection.Counts.{count-remove}
use slake.Gc.Sweep.{
  GcTarget, type_defs, all, Sweep, is_type_def, delete_object, visit_deletable, delete_pass,
  updates_list, second_pass, sweep,
}

module _ (memory : Memory) where
  abbrev pub deletes : GcTarget → ℕ → Bool
  deletes type_defs i = is_type_def (memory.object_at i)
  deletes all i = true

  -- A pass over `xs` frees each of them that its target covers, once, and no other object.
  pub record PassEffect (target : GcTarget) (update : Bool) (xs : List ℕ) (s t : Sweep)
      : Type 0 where
    pub frees :
        (a : ℕ) → count a t.freed ≡ count a s.freed + (if deletes target a then count a xs else 0)
    pub keeps :
        (a : ℕ)
        → count a t.objects ≡ (if deletes target a && contains xs a then 0 else count a s.objects)
    pub links :
        (a : ℕ)
        → count a t.unwalked_list
          ≡ (if update && (deletes target a && contains xs a) then 0 else count a s.unwalked_list)
    pub counted : t.num_deleted_objects + length s.freed ≡ s.num_deleted_objects + length t.freed

  abbrev pub Fresh : List ℕ → Sweep → Type 0
  Fresh xs s = (a : ℕ) → count a xs + count a s.freed ≤ 1

  visit-PassEffect :
      (target : GcTarget) (update : Bool) (i : ℕ) (s : Sweep)
      → PassEffect target update (i ∷ []) s (visit_deletable memory target update i s)
  unfolding visit_deletable delete_object
  visit-PassEffect type_defs update i s = record {
    frees = λ a. ground arith;
    keeps = λ a. ground (arith, count-remove i a s.objects);
    links = λ a. ground (arith, count-remove i a s.unwalked_list);
    counted = ground arith;
  }
  visit-PassEffect all update i s = record {
    frees = λ a. ground arith;
    keeps = λ a. ground (arith, count-remove i a s.objects);
    links = λ a. ground (arith, count-remove i a s.unwalked_list);
    counted = ground arith;
  }

  pub contains-count : (xs : List ℕ) (a : ℕ) → contains xs a ≡ not (count a xs == 0)
  contains-count [] a = ground arith
  contains-count (x ∷ xs) a = ground (arith, contains-count xs a)

  then-PassEffect :
      (target : GcTarget) (update : Bool) (i : ℕ) (rest : List ℕ) (s t u : Sweep)
      → PassEffect target update (i ∷ []) s t
      → PassEffect target update rest t u
      → PassEffect target update (i ∷ rest) s u
  then-PassEffect target update i rest s t u p q = record {
    frees = λ a. ground (arith, p.frees a, q.frees a);
    keeps = λ a. ground (arith, p.keeps a, q.keeps a);
    links = λ a. ground (arith, p.links a, q.links a);
    counted = omega (arith, p.counted, q.counted);
  }

  visited-Fresh :
      (target : GcTarget) (update : Bool) (i : ℕ) (rest : List ℕ) (s : Sweep)
      → Fresh (i ∷ rest) s
      → Fresh rest (visit_deletable memory target update i s)
  visited-Fresh target update i rest s f a =
      ground (arith, f a, (visit-PassEffect target update i s).frees a)

  pub pass-PassEffect :
      (target : GcTarget) (update : Bool) (xs : List ℕ) (s : Sweep)
      → Fresh xs s
      → (t : Sweep) × (delete_pass memory target update xs s ≡ some t)
        × PassEffect target update xs s t
  unfolding delete_pass
  pass-PassEffect target update [] s f = (
    s,
    refl,
    record {
      frees = λ a. ground arith;
      keeps = λ a. ground arith;
      links = λ a. ground arith;
      counted = refl;
    },
  )
  pass-PassEffect target update (i ∷ rest) s f =
      let (t, e, p) =
        pass-PassEffect target update rest (visit_deletable memory target update i s)
          (visited-Fresh target update i rest s f) in
      (
        t,
        ground (arith, e, f i, contains-count s.freed i),
        then-PassEffect target update i rest s _ t (visit-PassEffect target update i s) p,
      )

  -- What a deletion has done: every unwalked object is deallocated once, the other objects of the
  -- generation stay linked, and the deallocations are counted.
  pub record IsSwept (s t : Sweep) : Type 0 where
    pub frees_unwalked : (a : ℕ) → count a t.freed ≡ count a s.unwalked_list
    pub unlinks :
        (a : ℕ) → count a t.objects ≡ (if contains s.unwalked_list a then 0 else count a s.objects)
    pub counts : t.num_deleted_objects ≡ length t.freed

  -- A deletion over an unwalked list that is empty or starts with an object that is no type
  -- definition ends without reading a deallocated object: each object of the list, which stands in
  -- it once, is deallocated once and unlinked from the generation, and no other.
  pub sweep-IsSwept :
      (s : Sweep)
      → s.freed ≡ []
      → s.num_deleted_objects ≡ 0
      → ((a : ℕ) → count a s.unwalked_list ≤ 1)
      → updates_list memory s.unwalked_list ≡ true
      → (t : Sweep) × (sweep memory s ≡ some t) × IsSwept s t
  unfolding sweep second_pass
  sweep-IsSwept s f n once u =
      let (t, e, p) =
        pass-PassEffect type_defs (updates_list memory s.unwalked_list) s.unwalked_list s
          (λ a. ground (arith, f, once a)) in
      let (v, g, q) =
        pass-PassEffect all false t.unwalked_list (record t { unwalked_list = [] })
          (λ a.
            ground (arith, f, once a, u, p.frees a, p.links a, contains-count s.unwalked_list a)) in
      (
        v,
        ap (second_pass memory) e ∙ g,
        record {
          frees_unwalked = λ a. ground (
            arith,
            f,
            once a,
            u,
            p.frees a,
            p.links a,
            q.frees a,
            contains-count s.unwalked_list a,
          );
          unlinks = λ a. ground (
            arith,
            u,
            p.keeps a,
            p.links a,
            q.keeps a,
            contains-count s.unwalked_list a,
            contains-count t.unwalked_list a,
          );
          counts = ground (arith, p.counted, q.counted, f, n);
        },
      )
