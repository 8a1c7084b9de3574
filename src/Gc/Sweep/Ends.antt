-- ===== src/Gc/Sweep/Ends.antt =====
-- end_object_out of rt/gc_heapless.cc stays the end of the generation list.
use slake.Prelude.{ℕ, ◌≤◌, ◌≡◌, refl, Bool, false, inl, inr, List, [], ◌∷◌, ◌==◌, Bool-cases, arith}
use slake.Gc.Collection.{remove, count}
use slake.Gc.Sweep.{Sweep, previous, delete_object}

-- The last object of a list, with nullptr for the empty one.
abbrev pub last_from : ℕ → List ℕ → ℕ
last_from p [] = p
last_from p (x ∷ xs) = last_from x xs

pub last-count : (p : ℕ) (xs : List ℕ) → 1 ≤ count (last_from p xs) (p ∷ xs)
last-count p [] = ground arith
last-count p (x ∷ xs) = ground (arith, last-count x xs)

-- What comes before the last object of a list is last when that is unlinked.
previous-last :
    (p i : ℕ) (xs : List ℕ)
    → count i xs ≡ 1
    → last_from p xs ≡ i
    → previous i p xs ≡ last_from p (remove i xs)
previous-last p i [] c e = ground arith
previous-last p i (x ∷ []) c e = ground (arith, c, e)
previous-last p i (x ∷ y ∷ ys) c e = elim (Bool-cases (x == i)) [
  | inl h ↦ ground (arith, c, e, last-count y ys)
  | inr h ↦ ground (arith, c, e, previous-last x i (y ∷ ys))
]

last-remove :
    (p i : ℕ) (xs : List ℕ)
    → (last_from p xs == i) ≡ false
    → (p == i) ≡ false
    → last_from p (remove i xs) ≡ last_from p xs
last-remove p i [] e n = refl
last-remove p i (x ∷ []) e n = ground (arith, e, n)
last-remove p i (x ∷ y ∷ ys) e n = elim (Bool-cases (x == i)) [
  | inl h ↦ ground (arith, h, last-remove p i (y ∷ ys), e, n)
  | inr h ↦ ground (arith, h, last-remove x i (y ∷ ys), e, n)
]

-- Deleting an object of the generation list keeps end_object_out the list's last object, or
-- nullptr when nothing is left.
pub delete_object-end :
    (update : Bool) (i : ℕ) (s : Sweep)
    → count i s.objects ≡ 1
    → (i == 0) ≡ false
    → s.end_object ≡ last_from 0 s.objects
    → (delete_object update i s).end_object ≡ last_from 0 (delete_object update i s).objects
unfolding delete_object
delete_object-end update i s c n e =
    ground (arith, e, n, previous-last 0 i s.objects c, last-remove 0 i s.objects)
