-- ===== src/Gc/Mark/Ends.antt =====
-- The loops of the marking of rt/gc_heapless.cc end, and what they leave.
use slake.Prelude.{
  ℕ, zero, suc, ◌+◌, ◌≤◌, ◌≡◌, refl, ap, ◌∙◌, true, false, inl, inr, Option, some, List, [], ◌∷◌,
  ◌==◌, if◌then◌else◌, contains, length, Bool-cases, arith,
}
use slake.Gc.Heap.{Memory}
use slake.Gc.Collection.{
  Status, unwalked, ready_to_walk, walked, Collection, is_unwalked, is_ready, is_walked, push_all,
  begin_walk, end_walk,
}
use slake.Gc.Collection.Counts.{IsSorted, walked-IsSorted, begin_walk-status}
use slake.Gc.Mark.{
  Walker, walk_object, and_then, walk_status, walk_list, walk_rounds, take_walkable,
}
use slake.Gc.Mark.Invariant.{
  Reachable, PushesChildren, walk_object-ready, IsMarking, walked-IsMarking, Reached-nonzero,
}

-- How many of the addresses of a list are not walked.
abbrev pub pending : (ℕ → Status) → List ℕ → ℕ
pending status [] = 0
pending status (x ∷ xs) = (if is_walked (status x) then 0 else 1) + pending status xs

abbrev pub Grows : (ℕ → Status) → (ℕ → Status) → Type 0
Grows s t = (b : ℕ) → is_walked (s b) ≡ true → is_walked (t b) ≡ true

pending_mono : (s t : ℕ → Status) (xs : List ℕ) → Grows s t → pending t xs ≤ pending s xs
pending_mono s t [] g = ground arith
pending_mono s t (x ∷ xs) g = ground (arith, pending_mono s t xs g, g x)

pending-drop :
    (s t : ℕ → Status) (xs : List ℕ) (a : ℕ)
    → Grows s t
    → contains xs a ≡ true
    → is_walked (s a) ≡ false
    → is_walked (t a) ≡ true
    → pending t xs + 1 ≤ pending s xs
pending-drop s t [] a g k p q = ground arith
pending-drop s t (x ∷ xs) a g k p q = elim (Bool-cases (x == a)) [
  | inl e ↦ ground (arith, pending_mono s t xs g, p, q)
  | inr e ↦ ground (arith, pending-drop s t xs a g (ground (arith, k, e)) p q, g x)
]

pub pending-length : (s : ℕ → Status) (xs : List ℕ) → pending s xs ≤ length xs
pending-length s [] = ground arith
pending-length s (x ∷ xs) = ground (arith, pending-length s xs)

walk_list-step :
    (walk : Walker) (a : ℕ) (rest : List ℕ) (c d e : Collection)
    → c.gc_status a ≡ ready_to_walk
    → walk a c ≡ some d
    → walk_list walk rest d ≡ some e
    → walk_list walk (a ∷ rest) c ≡ some e
unfolding walk_list
walk_list-step walk a rest c d e s w f =
    let next = λ (x : Collection). walk_list walk rest x in
    ap (λ (t : Status). and_then (walk_status walk a c t) next) s
    ∙ (ap (λ (o : Option Collection). and_then o next) w ∙ f)

walk_rounds-step :
    (walk : Walker) (n a : ℕ) (rest : List ℕ) (c d : Collection) (o : Option Collection)
    → walk_list walk (a ∷ rest) c ≡ some d
    → walk_rounds n walk d.walkable_list (take_walkable d) ≡ o
    → walk_rounds (suc n) walk (a ∷ rest) c ≡ o
unfolding walk_rounds
walk_rounds-step walk n a rest c d o w f =
    let next = λ (x : Collection). walk_rounds n walk x.walkable_list (take_walkable x) in
    ap (λ (r : Option Collection). and_then r next) w ∙ f

module _ (memory : Memory) (fuel : ℕ) (children : ℕ → List ℕ) (roots objects universe : List ℕ)
    (pushes_children : (a : ℕ) → Reachable roots children a → PushesChildren memory fuel children a)
    (in_universe : (a : ℕ) → Reachable roots children a → contains universe a ≡ true) where
  abbrev walker : Walker
  walker = walk_object (suc fuel) memory

  -- What a stretch of the marking keeps and reaches: from `c` to `d`, with at least `k` walks.
  record Marks (c d : Collection) (k : ℕ) : Type 0 where
    sorted : IsSorted objects [] [] d
    marking : IsMarking memory fuel children roots d
    keeps : (b : ℕ) → is_unwalked (c.gc_status b) ≡ false → is_unwalked (d.gc_status b) ≡ false
    grows : Grows c.gc_status d.gc_status
    fewer : pending d.gc_status universe + k ≤ pending c.gc_status universe

  is_ready-ready_to_walk : (s : Status) → is_ready s ≡ true → s ≡ ready_to_walk
  is_ready-ready_to_walk ready_to_walk e = refl
  is_ready-ready_to_walk unwalked e = ground arith
  is_ready-ready_to_walk walked e = ground arith

  head-ready :
      (a : ℕ) (rest : List ℕ) (c : Collection)
      → IsSorted objects (a ∷ rest) [] c
      → c.gc_status a ≡ ready_to_walk
  head-ready a rest c i = is_ready-ready_to_walk (c.gc_status a) (ground (arith, i.queued a))

  abbrev after : ℕ → Collection → Collection
  after a c = end_walk a (push_all (children a) (begin_walk a c))

  -- One walk, seen from the collection before it.
  after-Grows : (a : ℕ) (c : Collection) → Grows c.gc_status (after a c).gc_status
  after-Grows a c b h = ground (arith, begin_walk-status a (children a) c b)

  after-walked : (a : ℕ) (c : Collection) → is_walked ((after a c).gc_status a) ≡ true
  after-walked a c = ground (arith, begin_walk-status a (children a) c a)

  after-keeps :
      (a b : ℕ) (c : Collection)
      → is_unwalked (c.gc_status b) ≡ false
      → is_unwalked ((after a c).gc_status b) ≡ false
  after-keeps a b c h = ground (arith, begin_walk-status a (children a) c b)

  then-Marks :
      (a : ℕ) (c d : Collection) (k : ℕ)
      → c.gc_status a ≡ ready_to_walk
      → Reachable roots children a
      → Marks (after a c) d k
      → Marks c d (suc k)
  then-Marks a c d k e r w = record {
    sorted = w.sorted;
    marking = w.marking;
    keeps = λ b h. w.keeps b (after-keeps a b c h);
    grows = λ b h. w.grows b (after-Grows a c b h);
    fewer =
        let drop =
          pending-drop c.gc_status (after a c).gc_status universe a (after-Grows a c)
            (in_universe a r) (ground (arith, e)) (after-walked a c) in
        omega (arith, drop, w.fewer);
  }

  walk_list-Marks :
      (batch : List ℕ) (c : Collection)
      → IsSorted objects batch [] c
      → IsMarking memory fuel children roots c
      → (d : Collection) × (walk_list walker batch c ≡ some d) × Marks c d (length batch)
  unfolding walk_list
  walk_list-Marks [] c i m = (
    c,
    refl,
    record { sorted = i; marking = m; keeps = λ b h. h; grows = λ b h. h; fewer = omega arith },
  )
  walk_list-Marks (a ∷ rest) c i m =
      let e = head-ready a rest c i in
      let r = m.sound a (ground (arith, e)) in
      let walks =
        walk_object-ready memory fuel children a c (Reached-nonzero memory fuel children roots a r)
          e (pushes_children a r) in
      let (d, f, w) =
        walk_list-Marks rest (after a c) (walked-IsSorted objects rest a (children a) c e i)
          (walked-IsMarking memory fuel children roots a c e m) in
      (
        d,
        walk_list-step walker a rest c (after a c) d e walks f,
        then-Marks a c d (length rest) e r w,
      )

  -- The whole of a walkable list that is taken is again a batch.
  pub take-IsSorted :
      (d : Collection)
      → IsSorted objects [] [] d
      → IsSorted objects d.walkable_list [] (take_walkable d)
  unfolding take_walkable
  take-IsSorted d i = record {
    queued = λ b. omega (arith, i.queued b);
    done = i.done;
    left = i.left;
  }

  pub take-IsMarking :
      (d : Collection)
      → IsMarking memory fuel children roots d
      → IsMarking memory fuel children roots (take_walkable d)
  unfolding take_walkable
  take-IsMarking d m = record { sound = m.sound; closed = m.closed }

  -- What the loop over the walkable lists ends in.
  pub record IsMarked (c d : Collection) : Type 0 where
    pub sorted_ : IsSorted objects [] [] d
    pub marking_ : IsMarking memory fuel children roots d
    pub keeps_ : (b : ℕ) → is_unwalked (c.gc_status b) ≡ false → is_unwalked (d.gc_status b) ≡ false
    pub none_left : d.walkable_list ≡ []

  pub walk_rounds-IsMarked :
      (rounds : ℕ) (batch : List ℕ) (c : Collection)
      → pending c.gc_status universe ≤ rounds
      → c.walkable_list ≡ []
      → IsSorted objects batch [] c
      → IsMarking memory fuel children roots c
      → (d : Collection) × (walk_rounds rounds walker batch c ≡ some d) × IsMarked c d
  unfolding walk_rounds take_walkable
  walk_rounds-IsMarked rounds [] c p e i m =
      (c, refl, record { sorted_ = i; marking_ = m; keeps_ = λ b h. h; none_left = e })
  walk_rounds-IsMarked zero (a ∷ rest) c p e i m =
      let (d, f, w) = walk_list-Marks (a ∷ rest) c i m in absurd (omega (arith, p, w.fewer))
  walk_rounds-IsMarked (suc rounds) (a ∷ rest) c p e i m =
      let (d, f, w) = walk_list-Marks (a ∷ rest) c i m in
      let (x, g, v) =
        walk_rounds-IsMarked rounds d.walkable_list (take_walkable d) (omega (arith, p, w.fewer))
          refl (take-IsSorted d w.sorted) (take-IsMarking d w.marking) in
      (
        x,
        walk_rounds-step walker rounds a rest c d (some x) f g,
        record {
          sorted_ = v.sorted_;
          marking_ = v.marking_;
          none_left = v.none_left;
          keeps_ = λ b h. v.keeps_ b (w.keeps b h);
        },
      )
