-- ===== src/Classes/Recursion.antt =====
-- StructObject::is_recursed of slake/obj/class.cc and its loop, _is_struct_recursed: the walk over
-- the structs that lie in a struct by value. Each turn of the loop is one `step`.
pub mod Walks
pub mod Nested
pub mod Fields
pub mod Verdicts
use slake.Prelude.{
  ℕ, zero, suc, ◌+◌, ◌≤◌, Bool, true, false, not, Option, none, some, List, [], ◌∷◌, ◌==◌, leb,
  if◌then◌else◌, length, get_elem?, contains,
}
use slake.Types.Kinds.{TypeId}
use slake.Types.TypeRef.{TypeRef}

-- What the walk tells apart of an object's kind.
pub data StructKind : Type 0 where
  struct union_enum union_enum_item other : StructKind

-- The objects: the types of their field records, the members of a union enum in the map's order,
-- and the object that a type definition names (type_object of CustomTypeDefObject).
pub record Structs : Type 0 where
  pub kind_of : ℕ → StructKind
  pub field_records : ℕ → List TypeRef
  pub members : ℕ → List ℕ
  pub type_object : ℕ → ℕ

-- The variant ex_data of a frame. An iterator is the position it stands at.
pub data ExData : Type 0 where
  indexed : (index : ℕ) → ExData
  enum_module_iterator : (position : ℕ) → ExData

pub record Frame : Type 0 where
  pub struct_object : ℕ
  pub ex_data : ExData

-- The back of the list of frames is the head here.
pub record Context : Type 0 where
  pub frames : List Frame
  pub walked_objects : List ℕ

-- How the walk ends: with the empty exception pointer, with an OutOfMemoryError, in std::terminate,
-- or with an access past the end of the field records or the members.
pub data Ending : Type 0 where
  returned out_of_memory terminated out_of_bounds : Ending

pub data Outcome : Type 0 where
  running : Context → Outcome
  ended : Ending → Outcome

unfoldable pub remove_walked : ℕ → List ℕ → List ℕ
remove_walked a [] = []
remove_walked a (x ∷ xs) = let rest = remove_walked a xs in if x == a then rest else x ∷ rest

-- A set keeps one copy of an element.
unfoldable pub insert : ℕ → List ℕ → List ℕ
insert a xs = if contains xs a then xs else a ∷ xs

unfoldable pub and_then : Outcome → (Context → Outcome) → Outcome
and_then (running c) f = f c
and_then (ended e) f = ended e

-- push_back and insert, which fail where the allocator does in this state.
unfoldable pub push_frame_back : (Context → Bool) → Frame → Context → Outcome
push_frame_back alloc f c =
    if alloc c then running (record c { frames = f ∷ c.frames }) else ended out_of_memory

unfoldable pub insert_walked : (Context → Bool) → ℕ → Context → Outcome
insert_walked alloc o c =
    if alloc c
    then running (record c { walked_objects = insert o c.walked_objects })
    else ended out_of_memory

-- The test of an object that is entered. A recursion ends the program.
unfoldable pub enter : (Context → Bool) → ℕ → Context → Outcome
enter alloc o c = if contains c.walked_objects o then ended terminated else insert_walked alloc o c

-- The frame that check_type_ref pushes for a type, if any.
unfoldable pub nested_frame : Structs → TypeRef → Option Frame
nested_frame m t = frame_of t.type_id (m.type_object t.type_def)
  where
    frame_of : TypeId → ℕ → Option Frame
    frame_of TypeId.struct_instance o = some record { struct_object = o; ex_data = indexed 0 }
    frame_of TypeId.union_enum o =
        some record { struct_object = o; ex_data = enum_module_iterator 0 }
    frame_of TypeId.union_enum_item o = some record { struct_object = o; ex_data = indexed 0 }
    frame_of _ o = none

unfoldable pub check_type_ref : (Context → Bool) → Option Frame → Context → Outcome
check_type_ref alloc none c = running c
check_type_ref alloc (some f) c = push_frame_back alloc f c

-- `++index` on the frame, which lies under the one that check_type_ref has pushed. The frame is a
-- reference into a linked list, so that the order of the two does not matter.
unfoldable pub walk_field :
    Structs → (Context → Bool) → ℕ → ℕ → List Frame → Option TypeRef → Context → Outcome
walk_field m alloc o index rest none c = ended out_of_bounds
walk_field m alloc o index rest (some t) c = check_type_ref alloc (nested_frame m t) record {
  frames = record { struct_object = o; ex_data = indexed (suc index) } ∷ rest;
  walked_objects = c.walked_objects;
}

-- case ObjectKind::Struct and case ObjectKind::UnionEnumItem, which are the same.
unfoldable pub step_fields : Structs → (Context → Bool) → ℕ → ℕ → List Frame → Context → Outcome
step_fields m alloc o zero rest c =
    and_then (enter alloc o c)
      (λ d. walk_field m alloc o 0 rest (get_elem? (m.field_records o) 0) d)
step_fields m alloc o (suc i) rest c =
    if leb (length (m.field_records o)) (suc i)
    then running record { frames = rest; walked_objects = remove_walked o c.walked_objects }
    else walk_field m alloc o (suc i) rest (get_elem? (m.field_records o) (suc i)) c

-- The rest of case ObjectKind::UnionEnum. `++iterator` stands behind the `break` and is not reached.
unfoldable pub walk_member : (Context → Bool) → ℕ → Option ℕ → Context → Outcome
walk_member alloc o none c = ended out_of_bounds
walk_member alloc o (some member) c =
    and_then (push_frame_back alloc record { struct_object = member; ex_data = indexed 0 } c)
      (insert_walked alloc o)

-- case ObjectKind::UnionEnum
unfoldable pub step_members : Structs → (Context → Bool) → ℕ → ℕ → List Frame → Context → Outcome
step_members m alloc o zero rest c =
    and_then (enter alloc o c) (walk_member alloc o (get_elem? (m.members o) 0))
step_members m alloc o (suc i) rest c =
    if suc i == length (m.members o)
    then running record { frames = rest; walked_objects = remove_walked o c.walked_objects }
    else walk_member alloc o (get_elem? (m.members o) (suc i)) c

-- The switch on the kind. std::get of the wrong alternative throws, and is_recursed is noexcept.
unfoldable pub step_frame :
    Structs → (Context → Bool) → StructKind → ExData → ℕ → List Frame → Context → Outcome
step_frame m alloc StructKind.struct (indexed i) o rest c = step_fields m alloc o i rest c
step_frame m alloc StructKind.union_enum_item (indexed i) o rest c = step_fields m alloc o i rest c
step_frame m alloc StructKind.union_enum (enum_module_iterator p) o rest c =
    step_members m alloc o p rest c
step_frame m alloc _ _ o rest c = ended terminated

unfoldable pub step : Structs → (Context → Bool) → List Frame → Context → Outcome
step m alloc [] c = ended returned
step m alloc (f ∷ rest) c =
    step_frame m alloc (m.kind_of f.struct_object) f.ex_data f.struct_object rest c

-- The loop, `none` where the fuel is used up.
unfoldable pub go_on : (Context → Option Ending) → Outcome → Option Ending
go_on again (running c) = again c
go_on again (ended e) = some e

unfoldable pub run : ℕ → Structs → (Context → Bool) → Context → Option Ending
run zero m alloc c = none
run (suc fuel) m alloc c = go_on (run fuel m alloc) (step m alloc c.frames c)

unfoldable pub is_recursed : ℕ → Structs → (Context → Bool) → ℕ → Option Ending
is_recursed fuel m alloc o = go_on (run fuel m alloc) (
    push_frame_back alloc record { struct_object = o; ex_data = indexed 0 }
      record { frames = []; walked_objects = [] })
