-- ===== src/Gc/Collection.antt =====
-- GCWalkContext of rt/gc_heapless.cc and the gc_status of the objects. Each list that the objects
-- are linked in by next_same_gcset is the list of their addresses.
pub mod Counts
use slake.Prelude.{ℕ, ◌+◌, Bool, true, false, List, [], ◌∷◌, ◌==◌, if◌then◌else◌}

-- ObjectGCStatus
pub data Status : Type 0 where
  unwalked ready_to_walk walked : Status

pub record Collection : Type 0 where
  pub gc_status : ℕ → Status
  pub unwalked_list : List ℕ
  pub walkable_list : List ℕ
  pub walked_list : List ℕ

abbrev pub is_unwalked : Status → Bool
is_unwalked unwalked = true
is_unwalked _ = false

abbrev pub is_ready : Status → Bool
is_ready ready_to_walk = true
is_ready _ = false

abbrev pub is_walked : Status → Bool
is_walked walked = true
is_walked _ = false

abbrev pub set_status : ℕ → Status → (ℕ → Status) → ℕ → Status
set_status a s status b = if b == a then s else status b

-- remove_from_cur_gcset, with the head of the list moved on as its callers do.
abbrev pub remove : ℕ → List ℕ → List ℕ
remove a [] = []
remove a (x ∷ xs) = if x == a then remove a xs else x ∷ remove a xs

-- push_object with push_walkable
unfoldable pub push_unwalked_object : ℕ → Collection → Status → Collection
push_unwalked_object a c unwalked = record {
  gc_status = set_status a ready_to_walk c.gc_status;
  unwalked_list = remove a c.unwalked_list;
  walkable_list = a ∷ c.walkable_list;
  walked_list = c.walked_list;
}
push_unwalked_object a c _ = c

unfoldable pub push_object : ℕ → Collection → Collection
unfolding push_unwalked_object
push_object a c = if a == 0 then c else push_unwalked_object a c (c.gc_status a)

-- push_object for each of a list.
abbrev pub push_all : List ℕ → Collection → Collection
push_all [] c = c
push_all (a ∷ rest) c = push_all rest (push_object a c)

-- The change of status at the start of the walk of a ready object, and remove_from_walkable_list
-- and push_walked at its end.
unfoldable pub begin_walk : ℕ → Collection → Collection
begin_walk a c = record c { gc_status = set_status a walked c.gc_status }

unfoldable pub end_walk : ℕ → Collection → Collection
end_walk a c = record c {
  walkable_list = remove a c.walkable_list;
  walked_list = a ∷ c.walked_list;
}

-- How often a number stands in a list.
abbrev pub count : ℕ → List ℕ → ℕ
count a [] = 0
count a (x ∷ xs) = (if x == a then 1 else 0) + count a xs
