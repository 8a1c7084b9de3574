-- ===== src/Tests/Hierarchy.antt =====
-- Examples for the inheritance of classes and interfaces.
use slake.Prelude.{
  ℕ, zero, suc, ◌<◌, ◌≡◌, Bool, true, false, Option, none, some, List, [], ◌∷◌, ◌==◌, get_elem?,
  arith,
}
use slake.Classes.Bases.{is_base_of}
use slake.Classes.Bases.Chain.{Decides, is_base_of-Decides}
use slake.Classes.Interfaces.{Indices, update_inheritance_relationship, is_derived_from}
use slake.Classes.Interfaces.Derived.{weigh, update_inheritance_relationship-is_derived_from}

abbrev base_by : Bool → Option ℕ
base_by true = some 1
base_by false = none

-- Class 2 is derived from class 1.
abbrev base_class : ℕ → Option ℕ
base_class c = base_by (c == 2)

abbrev depth_by : Bool → ℕ
depth_by true = 1
depth_by false = 0

abbrev depth : ℕ → ℕ
depth c = depth_by (c == 2)

falls_by : (b : Bool) (p : ℕ) → base_by b ≡ some p → depth p < depth_by b
falls_by true p e = ground (arith, e)
falls_by false p e = absurd (ground (arith, e))

is_base_of-Decides_example :
    (b : Bool) × (is_base_of 2 base_class 1 2 ≡ some b) × Decides base_class 1 2 b
is_base_of-Decides_example =
    is_base_of-Decides base_class 1 depth (λ c p e. falls_by (c == 2) p e) 2 2 (omega arith)

abbrev implements_by : Bool → List (Option ℕ)
implements_by true = some 1 ∷ []
implements_by false = []

-- Interface 2 implements interface 1.
abbrev implements : ℕ → List (Option ℕ)
implements i = implements_by (i == 2)

abbrev weight_by : Bool → ℕ
weight_by true = 3
weight_by false = 1

abbrev weight : ℕ → ℕ
weight i = weight_by (i == 2)

heavier_by : (b : Bool) → weigh implements weight (implements_by b) 0 < weight_by b
heavier_by true = omega arith
heavier_by false = omega arith

well_formed_by : (b : Bool) (k : ℕ) → get_elem? (implements_by b) k ≡ some none → ⊥
well_formed_by true zero e = ground (arith, e)
well_formed_by true (suc k) e = ground (arith, e)
well_formed_by false k e = ground (arith, e)

update_inheritance_relationship-is_derived_from_example :
    (new : Indices) × (update_inheritance_relationship 3 implements 2 (λ a. []) ≡ some new)
    × ((p : ℕ) → is_derived_from new 2 p ≡ (p == 2))
update_inheritance_relationship-is_derived_from_example =
    update_inheritance_relationship-is_derived_from implements weight (λ i. heavier_by (i == 2))
      (λ i k e. well_formed_by (i == 2) k e) 3 2 (λ a. []) (omega arith)
