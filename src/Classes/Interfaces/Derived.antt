-- ===== src/Classes/Interfaces/Derived.antt =====
-- What update_inheritance_relationship of slake/obj/class.cc records.
use slake.Prelude.{
  ℕ, zero, suc, ◌+◌, ◌≤◌, ◌<◌, ◌≡◌, refl, ap, ◌∙◌, true, false, inl, inr, Option, none, some, List,
  [], ◌∷◌, ◌==◌, leb, if◌then◌else◌, length, get_elem?, contains, Bool-cases, arith,
}
use slake.Classes.Interfaces.{
  Implements, Indices, Frames, on_stack, insert_index, push_frame, update_loop,
  update_inheritance_relationship, is_derived_from,
}

get_elem?-bounded :
    (xs : List (Option ℕ)) (k : ℕ)
    → leb (length xs) k ≡ false
    → (x : Option ℕ) × (get_elem? xs k ≡ some x)
get_elem?-bounded [] k h = absurd (ground (arith, h))
get_elem?-bounded (x ∷ xs) zero h = (x, refl)
get_elem?-bounded (x ∷ xs) (suc k) h = get_elem?-bounded xs k (ground (arith, h))

-- What is in the sets afterwards was there before, or is an interface in its own set.
abbrev Only : Indices → Indices → Type 0
Only sets new =
    (a p : ℕ) → contains (new a) p ≡ true → (a == p) ≡ false → contains (sets a) p ≡ true

inserted-Only : (i : ℕ) (sets : Indices) → Only sets (insert_index i i sets)
unfolding insert_index
inserted-Only i sets a p h n = ground (arith, h, n)

same : (a b : ℕ) → (a == b) ≡ true → a ≡ b
same a b e = ground (arith, e)

derived_self :
    (this p : ℕ) (sets : Indices) (new : List ℕ)
    → (contains new p ≡ true
        → (this == p) ≡ false
        → contains (if this == this then [] else sets this) p ≡ true)
    → (if p == this then true else contains new p) ≡ (p == this)
derived_self this p sets new h = ground (arith, h)

module _ (implements : Implements) where
  pop_step :
      (fuel i index : ℕ) (rest : Frames) (sets : Indices) (o : Option Indices)
      → on_stack i rest ≡ false
      → leb (length (implements i)) index ≡ true
      → update_loop fuel implements rest (insert_index i i sets) ≡ o
      → update_loop (suc fuel) implements ((i, index) ∷ rest) sets ≡ o
  unfolding update_loop
  pop_step fuel i index rest sets o s l e = ground (arith, s, l, e)

  push_step :
      (fuel i index j : ℕ) (rest : Frames) (sets : Indices) (o : Option Indices)
      → on_stack i rest ≡ false
      → leb (length (implements i)) index ≡ false
      → get_elem? (implements i) index ≡ some (some j)
      → update_loop fuel implements ((j, 0) ∷ (i, suc index) ∷ rest) sets ≡ o
      → update_loop (suc fuel) implements ((i, index) ∷ rest) sets ≡ o
  unfolding update_loop
  push_step fuel i index j rest sets o s l g e =
      let next = λ (frames : Frames). update_loop fuel implements frames sets in
      let pushed = ap (push_frame next i index rest) g ∙ e in ground (arith, s, l, pushed)

  module _ (weight : ℕ → ℕ) where
    abbrev entry : Option ℕ → ℕ
    entry none = 0
    entry (some j) = suc (weight j)

    -- The weights of the interfaces of a list from an index on
    abbrev pub weigh : List (Option ℕ) → ℕ → ℕ
    weigh [] k = 0
    weigh (x ∷ xs) zero = entry x + weigh xs zero
    weigh (x ∷ xs) (suc k) = weigh xs k

    abbrev entry_of : Option (Option ℕ) → ℕ
    entry_of none = 0
    entry_of (some x) = entry x

    weigh-get_elem? :
        (xs : List (Option ℕ)) (k j : ℕ)
        → get_elem? xs k ≡ some (some j)
        → weigh xs k ≡ suc (weight j) + weigh xs (suc k)
    weigh-get_elem? [] k j e = absurd (ground (arith, e))
    weigh-get_elem? (x ∷ xs) zero j e = omega (arith, ap entry_of e)
    weigh-get_elem? (x ∷ xs) (suc k) j e = weigh-get_elem? xs k j e

    weigh_le : (xs : List (Option ℕ)) (k : ℕ) → weigh xs k ≤ weigh xs zero
    weigh_le [] k = omega arith
    weigh_le (x ∷ xs) zero = omega arith
    weigh_le (x ∷ xs) (suc k) = omega (arith, weigh_le xs k)

    -- Below a frame lie frames of heavier interfaces.
    abbrev Above : ℕ → Frames → Type 0
    Above n [] = Unit
    Above n ((j, k) ∷ rest) = (n < weight j) × Above n rest

    abbrev Ordered : Frames → Type 0
    Ordered [] = Unit
    Ordered ((i, k) ∷ rest) = Above (weight i) rest × Ordered rest

    Above-lower : (m n : ℕ) (fs : Frames) → m < n → Above n fs → Above m fs
    Above-lower m n [] l a = tt
    Above-lower m n ((j, k) ∷ rest) l (h, a) = (omega (arith, l, h), Above-lower m n rest l a)

    on_stack-Above : (i : ℕ) (fs : Frames) → Above (weight i) fs → on_stack i fs ≡ false
    on_stack-Above i [] a = refl
    on_stack-Above i ((j, k) ∷ rest) (h, a) = elim (Bool-cases (j == i)) [
      | inl e ↦ absurd (omega (arith, h, ap weight (same j i e)))
      | inr e ↦ ground (arith, e, on_stack-Above i rest a)
    ]

    abbrev cost : Frames → ℕ
    cost [] = 0
    cost ((i, k) ∷ rest) = suc (weigh (implements i) k) + cost rest

    module _ (heavier : (i : ℕ) → weigh (implements i) 0 < weight i)
        (well_formed : (i k : ℕ) → get_elem? (implements i) k ≡ some none → ⊥) where
      lighter : (i k j : ℕ) → get_elem? (implements i) k ≡ some (some j) → weight j < weight i
      lighter i k j h =
          omega (arith, weigh-get_elem? (implements i) k j h, weigh_le (implements i) k, heavier i)

      an_interface :
          (i k : ℕ) (x : Option ℕ)
          → get_elem? (implements i) k ≡ some x
          → (j : ℕ) × (get_elem? (implements i) k ≡ some (some j))
      an_interface i k none g = absurd (well_formed i k g)
      an_interface i k (some j) g = (j, g)

      loop-Only :
          (fuel : ℕ) (frames : Frames) (sets : Indices)
          → cost frames ≤ fuel
          → Ordered frames
          → (new : Indices) × (update_loop fuel implements frames sets ≡ some new) × Only sets new
      unfolding update_loop
      loop-Only fuel [] sets c o = (sets, refl, λ a p h n. h)
      loop-Only zero ((i, k) ∷ rest) sets c o = absurd (omega (arith, c))
      loop-Only (suc fuel) ((i, k) ∷ rest) sets c (above, o) =
          let free = on_stack-Above i rest above in
          elim (Bool-cases (leb (length (implements i)) k)) [
            | inl l ↦
                let (new, e, only) =
                  loop-Only fuel rest (insert_index i i sets) (omega (arith, c)) o in
                (
                  new,
                  pop_step fuel i k rest sets (some new) free l e,
                  λ a p h n. inserted-Only i sets a p (only a p h n) n,
                )
            | inr l ↦
                let (x, g) = get_elem?-bounded (implements i) k l in
                let (j, h) = an_interface i k x g in
                let (new, e, only) =
                  loop-Only fuel ((j, 0) ∷ (i, suc k) ∷ rest) sets
                    (omega (arith, c, weigh-get_elem? (implements i) k j h, heavier j))
                    (
                      (
                        lighter i k j h,
                        Above-lower (weight j) (weight i) rest (lighter i k j h) above,
                      ),
                      (above, o),
                    ) in
                (new, push_step fuel i k j rest sets (some new) free l h e, only)
          ]

      -- For interfaces without cycles (each weighs more than all that it implements together) and
      -- without malformed types, update_inheritance_relationship returns with fuel for the weight
      -- of the interface, and afterwards the interface is derived from itself alone: from none of
      -- the interfaces that it implements.
      pub update_inheritance_relationship-is_derived_from :
          (fuel this : ℕ) (sets : Indices)
          → weight this ≤ fuel
          → (new : Indices) × (update_inheritance_relationship fuel implements this sets ≡ some new)
            × ((p : ℕ) → is_derived_from new this p ≡ (p == this))
      unfolding update_inheritance_relationship is_derived_from
      update_inheritance_relationship-is_derived_from fuel this sets enough =
          let cleared = λ (a : ℕ). if a == this then [] else sets a in
          let (new, e, only) =
            loop-Only fuel ((this, 0) ∷ []) cleared (omega (arith, heavier this, enough))
              (tt, tt) in
          (new, e, λ p. derived_self this p sets (new this) (only this p))
