-- ===== src/Classes/Bases.antt =====
-- ClassObject::is_base_of of slake/obj/class.cc. The walk over the base classes ends with the fuel
-- (`none`).
pub mod Chain
use slake.Prelude.{ℕ, zero, suc, Bool, true, false, Option, none, some, ◌==◌, if◌then◌else◌}

-- The base class of each class; a class whose base type is Void has none.
abbrev pub BaseOf : Type 0
BaseOf = ℕ → Option ℕ

abbrev pub base_step : (ℕ → Option Bool) → Option ℕ → Option Bool
base_step walk none = some false
base_step walk (some parent) = walk parent

unfoldable pub is_base_of : ℕ → BaseOf → ℕ → ℕ → Option Bool
is_base_of zero base this p_class = none
is_base_of (suc fuel) base this p_class =
    if p_class == this
    then some true
    else base_step (λ i. is_base_of fuel base this i) (base p_class)
