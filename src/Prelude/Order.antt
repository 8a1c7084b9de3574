-- ===== src/Prelude/Order.antt =====
-- Three-way comparators. An `int` that is -1, 0 or 1 is an `Ordering`; the ordered containers of
-- the runtime need their comparator to be a strict weak order, which `IsOrder` states.
use Prim.Native.Nat.{ℕ, Ordering}
use Prim.Native.Nat.Ordering.{lt, eq, gt}
use mathlib.Core.Path.{◌≡◌, refl, sym, ◌∙◌}
use mathlib.Core.List.{List, [], ◌∷◌}
use native.Mathlib.Omega.{arith}
use slake.Prelude.Tests.{ltb, if◌then◌else◌}
use slake.Prelude.Lists.{length}

-- The result with its operands exchanged.
abbrev pub flip : Ordering → Ordering
flip lt = gt
flip eq = eq
flip gt = lt

-- The first result that is not 0.
abbrev pub and_then : Ordering → Ordering → Ordering
and_then lt c = lt
and_then gt c = gt
and_then eq c = c

-- `if (a < b) return -1; if (a > b) return 1;` and then `rest`.
abbrev pub three_way : ℕ → ℕ → Ordering → Ordering
three_way a b rest = if ltb a b then lt else if ltb b a then gt else rest

-- A strict weak order, as a three-way comparator.
pub record IsOrder {ℓ} {A : Type ℓ} (cmp : A → A → Ordering) : Type ℓ where
  pub swap : (a b : A) → cmp b a ≡ flip (cmp a b)
  pub lt_trans : (a b c : A) → cmp a b ≡ lt → cmp b c ≡ lt → cmp a c ≡ lt
  pub eq_left : (a b c : A) → cmp a b ≡ eq → cmp a c ≡ cmp b c

flip-and_then : (x y : Ordering) → and_then (flip x) (flip y) ≡ flip (and_then x y)
flip-and_then lt y = refl
flip-and_then eq y = refl
flip-and_then gt y = refl

pub three_way-eq-and_then :
    (a b : ℕ) (rest : Ordering) → three_way a b rest ≡ and_then (three_way a b eq) rest
three_way-eq-and_then a b rest = ground arith

module _ {ℓ} {A : Type ℓ} {cmp : A → A → Ordering} (o : IsOrder cmp) where
  pub eq_right : (a b c : A) → cmp b c ≡ eq → cmp a b ≡ cmp a c
  eq_right a b c h =
      ground (arith, o.swap a b, o.swap a c, o.eq_left b c a h, o.swap b a, o.swap c a)

  pub cmp_refl : (a : A) → cmp a a ≡ eq
  cmp_refl a = ground (arith, o.swap a a)

-- Numbers by their order.
pub nat-IsOrder : IsOrder (λ (a b : ℕ). three_way a b eq)
nat-IsOrder = record {
  swap = λ a b. ground arith;
  lt_trans = λ a b c p q. ground arith;
  eq_left = λ a b c p. ground arith;
}

-- An order on keys is an order on what has the keys.
pub key-IsOrder {ℓ κ} :
    {A : Type ℓ} {B : Type κ} {cmp : B → B → Ordering} (f : A → B)
    → IsOrder cmp
    → IsOrder (λ (a b : A). cmp (f a) (f b))
key-IsOrder f o = record {
  swap = λ a b. o.swap (f a) (f b);
  lt_trans = λ a b c. o.lt_trans (f a) (f b) (f c);
  eq_left = λ a b c. o.eq_left (f a) (f b) (f c);
}

-- Equal comparators are orders together.
pub eq-IsOrder {ℓ} :
    {A : Type ℓ} {cmp cmp' : A → A → Ordering}
    → ((a b : A) → cmp' a b ≡ cmp a b)
    → IsOrder cmp
    → IsOrder cmp'
eq-IsOrder e o = record {
  swap = λ a b. ground (arith, e a b, e b a, o.swap a b);
  lt_trans = λ a b c. ground (arith, e a b, e b c, e a c, o.lt_trans a b c);
  eq_left = λ a b c. ground (arith, e a b, e a c, e b c, o.eq_left a b c);
}

module _ {ℓ} {A : Type ℓ} {first second : A → A → Ordering} (o : IsOrder first)
    (p : IsOrder second) where
  -- Lexicographic composition.
  pub and_then-IsOrder : IsOrder (λ (a b : A). and_then (first a b) (second a b))
  and_then-IsOrder = record {
    swap = λ a b. rw (o.swap a b, p.swap a b) (flip-and_then (first a b) (second a b));
    lt_trans = λ a b c h k.
        ground (arith, o.lt_trans a b c, o.eq_left a b c, eq_right o a b c, p.lt_trans a b c);
    eq_left = λ a b c h. ground (arith, o.eq_left a b c, p.eq_left a b c);
  }

-- The loop over two arrays of one size; where the second is shorter it is not entered.
abbrev pub compare_each {ℓ} : {A : Type ℓ} → (A → A → Ordering) → List A → List A → Ordering
compare_each cmp [] ys = eq
compare_each cmp (x ∷ xs) [] = eq
compare_each cmp (x ∷ xs) (y ∷ ys) = and_then (cmp x y) (compare_each cmp xs ys)

-- Sizes first, then the elements in order.
abbrev pub compare_sized {ℓ} : {A : Type ℓ} → (A → A → Ordering) → List A → List A → Ordering
compare_sized cmp xs ys = three_way (length xs) (length ys) (compare_each cmp xs ys)

module _ {ℓ} {A : Type ℓ} {cmp : A → A → Ordering} (o : IsOrder cmp) where
  each-swap :
      (xs ys : List A)
      → length xs ≡ length ys
      → compare_each cmp ys xs ≡ flip (compare_each cmp xs ys)
  each-swap [] [] h = refl
  each-swap [] (y ∷ ys) h = absurd (omega arith)
  each-swap (x ∷ xs) [] h = absurd (omega arith)
  each-swap (x ∷ xs) (y ∷ ys) h =
      rw (o.swap x y, each-swap xs ys (omega arith))
        (flip-and_then (cmp x y) (compare_each cmp xs ys))

  each-eq_left :
      (xs ys zs : List A)
      → length xs ≡ length ys
      → length ys ≡ length zs
      → compare_each cmp xs ys ≡ eq
      → compare_each cmp xs zs ≡ compare_each cmp ys zs
  each-eq_left [] [] zs h k e = refl
  each-eq_left [] (y ∷ ys) zs h k e = absurd (omega arith)
  each-eq_left (x ∷ xs) [] zs h k e = absurd (omega arith)
  each-eq_left (x ∷ xs) (y ∷ ys) [] h k e = absurd (omega arith)
  each-eq_left (x ∷ xs) (y ∷ ys) (z ∷ zs) h k e =
      ground (arith, o.eq_left x y z, each-eq_left xs ys zs (omega arith) (omega arith))

  each-eq_right :
      (xs ys zs : List A)
      → length xs ≡ length ys
      → length ys ≡ length zs
      → compare_each cmp ys zs ≡ eq
      → compare_each cmp xs ys ≡ compare_each cmp xs zs
  each-eq_right xs ys zs h k e = ground (
    arith,
    each-swap ys xs (sym h),
    each-swap zs xs (sym (h ∙ k)),
    each-swap ys zs k,
    each-eq_left ys zs xs k (sym (h ∙ k)) e,
  )

  each-lt_trans :
      (xs ys zs : List A)
      → length xs ≡ length ys
      → length ys ≡ length zs
      → compare_each cmp xs ys ≡ lt
      → compare_each cmp ys zs ≡ lt
      → compare_each cmp xs zs ≡ lt
  each-lt_trans [] ys zs h k p q = cc
  each-lt_trans (x ∷ xs) [] zs h k p q = absurd (omega arith)
  each-lt_trans (x ∷ xs) (y ∷ ys) [] h k p q = absurd (omega arith)
  each-lt_trans (x ∷ xs) (y ∷ ys) (z ∷ zs) h k p q = ground (
    arith,
    o.lt_trans x y z,
    o.eq_left x y z,
    eq_right o x y z,
    each-lt_trans xs ys zs (omega arith) (omega arith),
  )

  -- Sizes first and then the elements is an order if the elements are ordered.
  pub sized-IsOrder : IsOrder (compare_sized cmp)
  sized-IsOrder = record {
    swap = λ xs ys. ground (arith, each-swap xs ys);
    lt_trans = λ xs ys zs p q. ground (arith, each-lt_trans xs ys zs);
    eq_left = λ xs ys zs p. ground (arith, each-eq_left xs ys zs);
  }
