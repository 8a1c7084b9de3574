-- ===== src/Gc/Sweep.antt =====
-- The deletion of the unwalked objects in Runtime::_gc_serial of rt/gc_heapless.cc. `none` is a
-- read of an object that is deallocated.
pub mod Deletes
pub mod Dangles
pub mod Ends
pub mod Last
use slake.Prelude.{
  ℕ, ◌+◌, Bool, true, false, not, ◌&&◌, Option, none, some, List, [], ◌∷◌, ◌==◌, if◌then◌else◌,
  contains,
}
use slake.Gc.Heap.{Memory, Object}
use slake.Gc.Collection.{remove}

-- GCTarget
pub data GcTarget : Type 0 where
  type_defs all : GcTarget

-- The generation list by its addresses from object_list on, end_object_out with nullptr as 0, the
-- unwalked list, the registered type definitions, the deallocated objects and their number.
pub record Sweep : Type 0 where
  pub objects : List ℕ
  pub end_object : ℕ
  pub unwalked_list : List ℕ
  pub registered : List ℕ
  pub freed : List ℕ
  pub num_deleted_objects : ℕ

-- is_type_def_object of a pointer that is not null
abbrev pub is_type_def : Object → Bool
is_type_def (Object.type_def d) = true
is_type_def _ = false

-- prev_same_gen_object
abbrev pub previous : ℕ → ℕ → List ℕ → ℕ
previous a p [] = 0
previous a p (x ∷ xs) = if x == a then p else previous a x xs

-- The body of the loop from the unlinking to the count
unfoldable pub delete_object : Bool → ℕ → Sweep → Sweep
delete_object update i s = record {
  objects = remove i s.objects;
  end_object = if s.end_object == i then previous i 0 s.objects else s.end_object;
  unwalked_list = if update then remove i s.unwalked_list else s.unwalked_list;
  registered = s.registered;
  freed = i ∷ s.freed;
  num_deleted_objects = s.num_deleted_objects + 1;
}

-- unregister_type_def
abbrev pub unregister : ℕ → Sweep → Sweep
unregister i s = record s { registered = remove i s.registered }

unfoldable pub visit_deletable : Memory → GcTarget → Bool → ℕ → Sweep → Sweep
unfolding delete_object
visit_deletable memory type_defs update i s =
    if is_type_def (memory.object_at i) then delete_object update i (unregister i s) else s
visit_deletable memory all update i s = delete_object update i s

-- One pass over the unwalked list
unfoldable pub delete_pass : Memory → GcTarget → Bool → List ℕ → Sweep → Option Sweep
unfolding visit_deletable
delete_pass memory target update [] s = some s
delete_pass memory target update (i ∷ rest) s =
    if contains s.freed i
    then none
    else delete_pass memory target update rest (visit_deletable memory target update i s)

-- In the first pass the unwalked list is updated when its first object is no type definition.
abbrev pub updates_list : Memory → List ℕ → Bool
updates_list memory [] = true
updates_list memory (i ∷ rest) = not (is_type_def (memory.object_at i))

-- The second pass, over the list that get_unwalked_list(true) takes
unfoldable pub second_pass : Memory → Option Sweep → Option Sweep
unfolding delete_pass
second_pass memory none = none
second_pass memory (some s) =
    delete_pass memory all false s.unwalked_list (record s { unwalked_list = [] })

unfoldable pub sweep : Memory → Sweep → Option Sweep
unfolding second_pass delete_pass
sweep memory s =
    second_pass memory
      (delete_pass memory type_defs (updates_list memory s.unwalked_list) s.unwalked_list s)
