-- ===== src/Classes/Interfaces.antt =====
-- InterfaceObject::update_inheritance_relationship, InterfaceObject::is_derived_from and
-- ClassObject::has_implemented of slake/obj/class.cc. `none` is a call of std::terminate, for a
-- cycle or a malformed type, or fuel that is not enough.
pub mod Derived
use slake.Prelude.{
  ℕ, zero, suc, Bool, true, false, ◌&&◌, Option, none, some, List, [], ◌∷◌, ◌==◌, leb,
  if◌then◌else◌, length, get_elem?, contains,
}

-- impl_types of each interface: the interface that a type stands for, or nothing where the type is
-- no custom type of an interface.
abbrev pub Implements : Type 0
Implements = ℕ → List (Option ℕ)

-- impl_interface_indices of each interface
abbrev pub Indices : Type 0
Indices = ℕ → List ℕ

-- UpdateInterfaceInheritanceRelationshipFrame, the last frame first
abbrev pub Frames : Type 0
Frames = List (ℕ × ℕ)

abbrev pub on_stack : ℕ → Frames → Bool
on_stack i [] = false
on_stack i ((j, index) ∷ rest) = if j == i then true else on_stack i rest

unfoldable pub insert_index : ℕ → ℕ → Indices → Indices
insert_index i p sets a = if a == i then p ∷ sets a else sets a

-- The type of the frame's index, which is pushed as a new frame before the index moves on
abbrev pub push_frame :
    (Frames → Option Indices) → ℕ → ℕ → Frames → Option (Option ℕ) → Option Indices
push_frame next i index rest none = none
push_frame next i index rest (some none) = none
push_frame next i index rest (some (some j)) = next ((j, 0) ∷ (i, suc index) ∷ rest)

-- The loop over the frames
unfoldable pub update_loop : ℕ → Implements → Frames → Indices → Option Indices
unfolding insert_index
update_loop fuel implements [] sets = some sets
update_loop zero implements (f ∷ rest) sets = none
update_loop (suc fuel) implements ((i, index) ∷ rest) sets =
    if index == 0 && on_stack i rest
    then none
    else if leb (length (implements i)) index
    then update_loop fuel implements rest (insert_index i i sets)
    else push_frame (λ frames. update_loop fuel implements frames sets) i index rest
        (get_elem? (implements i) index)

-- update_inheritance_relationship, which starts from an empty set of the interface
unfoldable pub update_inheritance_relationship : ℕ → Implements → ℕ → Indices → Option Indices
unfolding update_loop
update_inheritance_relationship fuel implements this sets =
    update_loop fuel implements ((this, 0) ∷ []) (λ a. if a == this then [] else sets a)

-- is_derived_from
unfoldable pub is_derived_from : Indices → ℕ → ℕ → Bool
is_derived_from sets this p_interface =
    if p_interface == this then true else contains (sets this) p_interface

-- has_implemented, over the interfaces that the class's impl_types stand for
unfoldable pub has_implemented : Indices → List ℕ → ℕ → Bool
unfolding is_derived_from
has_implemented sets [] p_interface = false
has_implemented sets (i ∷ rest) p_interface =
    if is_derived_from sets i p_interface then true else has_implemented sets rest p_interface
