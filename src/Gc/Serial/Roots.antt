-- ===== src/Gc/Serial/Roots.antt =====
-- The first loop of _gc_serial of rt/gc_heapless.cc and its roots.
use slake.Prelude.{
  ℕ, ◌+◌, ◌≡◌, refl, ap, ◌∙◌, true, not, ◌&&◌, ◌||◌, List, [], ◌∷◌, ◌++◌, ◌==◌, if◌then◌else◌,
  contains, contains-append, arith,
}
use slake.Gc.Collection.{Status, unwalked, ready_to_walk, walked, Collection, is_unwalked, count}
use slake.Gc.Collection.Counts.{IsSorted}
use slake.Gc.Sweep.Ends.{last_from}
use slake.Gc.Serial.{Runtime, Scan, scan_object, scan, begin_scan, runtime_roots}

-- All roots of a collection: the objects that the host refers to, and those of the runtime.
unfoldable pub all_roots : Runtime → List ℕ → List ℕ
unfolding begin_scan runtime_roots
all_roots rt objects = (begin_scan rt objects).host_ref_list ++ runtime_roots rt

pub contains-all_roots :
    (rt : Runtime) (objects : List ℕ) (a : ℕ)
    → contains (all_roots rt objects) a
      ≡ (contains (begin_scan rt objects).host_ref_list a || contains (runtime_roots rt) a)
unfolding all_roots
contains-all_roots rt objects a =
    contains-append (begin_scan rt objects).host_ref_list (runtime_roots rt) a

module _ (host_ref_count : ℕ → ℕ) where
  -- What the first loop adds for the objects `xs`.
  record ScanEffect (xs : List ℕ) (s t : Scan) : Type 0 where
    statuses :
        (a : ℕ)
        → is_unwalked (s.collection.gc_status a) ≡ true
        → is_unwalked (t.collection.gc_status a) ≡ true
    unwalked_ :
        (a : ℕ)
        → count a t.collection.unwalked_list
          ≡ count a s.collection.unwalked_list + (if host_ref_count a == 0 then count a xs else 0)
    host_refs :
        (a : ℕ)
        → contains t.host_ref_list a
          ≡ (contains s.host_ref_list a || (contains xs a && not (host_ref_count a == 0)))
    walkable : t.collection.walkable_list ≡ s.collection.walkable_list
    walked_ : t.collection.walked_list ≡ s.collection.walked_list

  host_same : (i a : ℕ) → (i == a) ≡ true → host_ref_count i ≡ host_ref_count a
  host_same i a e = ap host_ref_count (ground (arith, e))

  scan_object-ScanEffect :
      (i : ℕ) (s : Scan) → ScanEffect (i ∷ []) s (scan_object host_ref_count i s)
  unfolding scan_object
  scan_object-ScanEffect i s = record {
    statuses = λ a h. ground (arith, h);
    unwalked_ = λ a. ground (arith, host_same i a);
    host_refs = λ a. ground (arith, host_same i a);
    walkable = ground arith;
    walked_ = ground arith;
  }

  then-ScanEffect :
      (i : ℕ) (rest : List ℕ) (s t u : Scan)
      → ScanEffect (i ∷ []) s t
      → ScanEffect rest t u
      → ScanEffect (i ∷ rest) s u
  then-ScanEffect i rest s t u p q = record {
    statuses = λ a h. q.statuses a (p.statuses a h);
    unwalked_ = λ a. ground (arith, p.unwalked_ a, q.unwalked_ a);
    host_refs = λ a. ground (arith, p.host_refs a, q.host_refs a);
    walkable = q.walkable ∙ p.walkable;
    walked_ = q.walked_ ∙ p.walked_;
  }

  scan-ScanEffect : (xs : List ℕ) (s : Scan) → ScanEffect xs s (scan host_ref_count xs s)
  scan-ScanEffect [] s = record {
    statuses = λ a h. h;
    unwalked_ = λ a. ground arith;
    host_refs = λ a. ground arith;
    walkable = refl;
    walked_ = refl;
  }
  scan-ScanEffect (i ∷ rest) s =
      then-ScanEffect i rest s (scan_object host_ref_count i s) (scan host_ref_count (i ∷ rest) s)
        (scan_object-ScanEffect i s) (scan-ScanEffect rest (scan_object host_ref_count i s))

is_unwalked-eq : (s : Status) → is_unwalked s ≡ true → s ≡ unwalked
is_unwalked-eq unwalked e = refl
is_unwalked-eq ready_to_walk e = ground arith
is_unwalked-eq walked e = ground arith

fresh-IsSorted :
    (c : Collection)
    → ((a : ℕ) → is_unwalked (c.gc_status a) ≡ true)
    → c.walkable_list ≡ []
    → c.walked_list ≡ []
    → IsSorted c.unwalked_list [] [] c
fresh-IsSorted c u w d = record {
  queued = λ a. simp (w, is_unwalked-eq (c.gc_status a) (u a));
  done = λ a. simp (d, is_unwalked-eq (c.gc_status a) (u a));
  left = λ a. simp (u a);
}

module _ (rt : Runtime) (objects : List ℕ)
    (fresh : (a : ℕ) → is_unwalked (rt.gc_status a) ≡ true) where
  -- The collection before a root is pushed: nothing is ready or walked, the unwalked list has the
  -- objects that the host does not refer to.
  pub record IsScanned : Type 0 where
    pub unwalked_all : (a : ℕ) → is_unwalked ((begin_scan rt objects).collection.gc_status a) ≡ true
    pub sorted :
        IsSorted
          (begin_scan rt objects).collection.unwalked_list
          []
          []
          (begin_scan rt objects).collection
    pub unwalked_objects :
        (a : ℕ)
        → count a (begin_scan rt objects).collection.unwalked_list
          ≡ (if rt.host_ref_count a == 0 then count a objects else 0)
    pub host_objects :
        (a : ℕ)
        → contains (begin_scan rt objects).host_ref_list a
          ≡ (contains objects a && not (rt.host_ref_count a == 0))

  pub begin_scan-IsScanned : IsScanned
  unfolding begin_scan
  begin_scan-IsScanned =
      let effect = scan-ScanEffect rt.host_ref_count objects _ in
      record {
        unwalked_all = λ a. effect.statuses a (fresh a);
        sorted = fresh-IsSorted _ (λ a. effect.statuses a (fresh a)) effect.walkable effect.walked_;
        unwalked_objects = λ a. omega (arith, effect.unwalked_ a);
        host_objects = λ a. effect.host_refs a;
      }

scan-end :
    (host_ref_count : ℕ → ℕ) (xs : List ℕ) (s : Scan)
    → (scan host_ref_count xs s).end_object ≡ last_from s.end_object xs
unfolding scan_object
scan-end host_ref_count [] s = refl
scan-end host_ref_count (i ∷ rest) s =
    scan-end host_ref_count rest (scan_object host_ref_count i s)
    ∙ ap (λ (p : ℕ). last_from p rest) (ground arith)

-- The first loop ends at the last object of the list.
pub begin_scan-end :
    (rt : Runtime) (objects : List ℕ) → (begin_scan rt objects).end_object ≡ last_from 0 objects
unfolding begin_scan
begin_scan-end rt objects = scan-end rt.host_ref_count objects _
