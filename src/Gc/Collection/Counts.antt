-- ===== src/Gc/Collection/Counts.antt =====
-- What push_object of rt/gc_heapless.cc does to the statuses and to the lists.
use slake.Prelude.{
  ℕ, ◌+◌, ◌≡◌, refl, not, ◌&&◌, List, [], ◌∷◌, ◌==◌, if◌then◌else◌, contains, if-both, arith,
}
use slake.Gc.Collection.{
  Status, unwalked, ready_to_walk, walked, Collection, is_unwalked, is_ready, is_walked, remove,
  push_unwalked_object, push_object, push_all, begin_walk, end_walk, count,
}

pub count-remove :
    (a b : ℕ) (xs : List ℕ) → count b (remove a xs) ≡ (if b == a then 0 else count b xs)
count-remove a b [] = ground arith
count-remove a b (x ∷ xs) = ground (arith, count-remove a b xs)

-- Each object stands in the lists that its status names, and once: in the batch that is walked or
-- the walkable list, in the list of the one whose walk has begun or the walked list, or, as often as in `objects`, in the unwalked list.
pub record IsSorted (objects batch current : List ℕ) (c : Collection) : Type 0 where
  pub queued :
      (a : ℕ)
      → count a batch + count a c.walkable_list ≡ (if is_ready (c.gc_status a) then 1 else 0)
  pub done :
      (a : ℕ)
      → count a current + count a c.walked_list ≡ (if is_walked (c.gc_status a) then 1 else 0)
  pub left :
      (a : ℕ)
      → count a c.unwalked_list ≡ (if is_unwalked (c.gc_status a) then count a objects else 0)

push_unwalked_object-status :
    (a b : ℕ) (c : Collection) (s : Status)
    → c.gc_status a ≡ s
    → (push_unwalked_object a c s).gc_status b
      ≡ (if a == b && is_unwalked (c.gc_status b) then ready_to_walk else c.gc_status b)
unfolding push_unwalked_object
push_unwalked_object-status a b c unwalked e = ground arith
push_unwalked_object-status a b c ready_to_walk e = ground arith
push_unwalked_object-status a b c walked e = ground arith

pub push_object-status :
    (a b : ℕ) (c : Collection)
    → (push_object a c).gc_status b ≡ (
        if a == b && (not (b == 0) && is_unwalked (c.gc_status b))
        then ready_to_walk
        else c.gc_status b)
unfolding push_object
push_object-status a b c = ground (arith, push_unwalked_object-status a b c (c.gc_status a) refl)

module _ (objects batch current : List ℕ) where
  push_unwalked_object-IsSorted :
      (a : ℕ) (c : Collection) (s : Status)
      → c.gc_status a ≡ s
      → IsSorted objects batch current c
      → IsSorted objects batch current (push_unwalked_object a c s)
  unfolding push_unwalked_object
  push_unwalked_object-IsSorted a c unwalked e i = record {
    queued = λ b. ground (arith, i.queued b);
    done = λ b. ground (arith, i.done b);
    left = λ b. ground (arith, i.left b, count-remove a b c.unwalked_list);
  }
  push_unwalked_object-IsSorted a c ready_to_walk e i = i
  push_unwalked_object-IsSorted a c walked e i = i

  pub push_object-IsSorted :
      (a : ℕ) (c : Collection)
      → IsSorted objects batch current c
      → IsSorted objects batch current (push_object a c)
  unfolding push_object
  push_object-IsSorted a c i =
      if-both (IsSorted objects batch current) (a == 0) i
        (push_unwalked_object-IsSorted a c (c.gc_status a) refl i)

  pub push_all-IsSorted :
      (xs : List ℕ) (c : Collection)
      → IsSorted objects batch current c
      → IsSorted objects batch current (push_all xs c)
  push_all-IsSorted [] c i = i
  push_all-IsSorted (x ∷ xs) c i =
      push_all-IsSorted xs (push_object x c) (push_object-IsSorted x c i)

-- Pushing a list makes its unwalked objects ready and leaves all others as they are.
pub push_all-status :
    (xs : List ℕ) (c : Collection) (b : ℕ)
    → (push_all xs c).gc_status b ≡ (
        if contains xs b && (not (b == 0) && is_unwalked (c.gc_status b))
        then ready_to_walk
        else c.gc_status b)
push_all-status [] c b = refl
push_all-status (x ∷ xs) c b =
    ground (arith, push_all-status xs (push_object x c) b, push_object-status x b c)

-- The walk of the first object of a batch takes it off the batch and puts it on the walked list.
begin_walk-IsSorted :
    (objects rest : List ℕ) (a : ℕ) (c : Collection)
    → c.gc_status a ≡ ready_to_walk
    → IsSorted objects (a ∷ rest) [] c
    → IsSorted objects rest (a ∷ []) (begin_walk a c)
unfolding begin_walk
begin_walk-IsSorted objects rest a c e i = record {
  queued = λ b. ground (arith, i.queued b, e);
  done = λ b. ground (arith, i.done b, e);
  left = λ b. ground (arith, i.left b, e);
}

end_walk-IsSorted :
    (objects rest : List ℕ) (a : ℕ) (c : Collection)
    → c.gc_status a ≡ walked
    → IsSorted objects rest (a ∷ []) c
    → IsSorted objects rest [] (end_walk a c)
unfolding end_walk
end_walk-IsSorted objects rest a c e i = record {
  queued = λ b. ground (arith, i.queued b, e, count-remove a b c.walkable_list);
  done = λ b. ground (arith, i.done b);
  left = i.left;
}

pub begin_walk-status :
    (a : ℕ) (xs : List ℕ) (c : Collection) (b : ℕ)
    → (end_walk a (push_all xs (begin_walk a c))).gc_status b ≡ (
        if b == a
        then walked
        else if contains xs b && (not (b == 0) && is_unwalked (c.gc_status b))
        then ready_to_walk
        else c.gc_status b)
unfolding begin_walk end_walk
begin_walk-status a xs c b = ground (arith, push_all-status xs (begin_walk a c) b)

pub walked-IsSorted :
    (objects rest : List ℕ) (a : ℕ) (xs : List ℕ) (c : Collection)
    → c.gc_status a ≡ ready_to_walk
    → IsSorted objects (a ∷ rest) [] c
    → IsSorted objects rest [] (end_walk a (push_all xs (begin_walk a c)))
unfolding begin_walk
walked-IsSorted objects rest a xs c e i =
    end_walk-IsSorted objects rest a (push_all xs (begin_walk a c))
      (ground (arith, push_all-status xs (begin_walk a c) a))
      (push_all-IsSorted objects rest (a ∷ []) xs (begin_walk a c)
        (begin_walk-IsSorted objects rest a c e i))
