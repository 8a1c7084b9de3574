-- ===== src/Gc/Serial.antt =====
-- Runtime::_gc_serial of rt/gc_heapless.cc: the collection of one generation.
pub mod Roots
pub mod Marked
pub mod Outcome
pub mod Correct
use slake.Prelude.{
  ℕ, ◌-◌, Bool, true, false, Option, none, some, List, [], ◌∷◌, ◌++◌, ◌==◌, if◌then◌else◌,
}
use slake.Gc.Heap.{Memory}
use slake.Gc.Collection.{Status, unwalked, Collection, set_status, push_object, push_all}
use slake.Gc.Mark.{mark}
use slake.Gc.Sweep.{Sweep, sweep}

-- ObjectGeneration
pub data Generation : Type 0 where
  young persistent : Generation

-- What the collector reads and writes of the runtime and of the fields all objects have. A cached
-- generic instance is the object it comes from with the instances.
pub record Runtime : Type 0 where
  pub gc_status : ℕ → Status
  pub object_generation : ℕ → Generation
  pub host_ref_count : ℕ → ℕ
  pub registered : List ℕ
  pub generic_cache_dir : List (ℕ × List ℕ)
  pub managed_thread_contexts : List ℕ
  pub is_deiniting : Bool
  pub root_object : ℕ
  pub active_contexts : List ℕ

-- A generation: the objects from its list's head on, and its counter.
pub record ObjectList : Type 0 where
  pub objects : List ℕ
  pub num_objects : ℕ

-- The first loop: each object becomes unwalked and goes in front of the unwalked list, or of the
-- list of those that the host refers to.
pub record Scan : Type 0 where
  pub collection : Collection
  pub host_ref_list : List ℕ
  pub end_object : ℕ

unfoldable pub scan_object : (ℕ → ℕ) → ℕ → Scan → Scan
scan_object host_ref_count i s =
    if host_ref_count i == 0
    then record {
      collection = record s.collection {
        gc_status = set_status i unwalked s.collection.gc_status;
        unwalked_list = i ∷ s.collection.unwalked_list;
      };
      host_ref_list = s.host_ref_list;
      end_object = i;
    }
    else record {
      collection = record s.collection { gc_status = set_status i unwalked s.collection.gc_status };
      host_ref_list = i ∷ s.host_ref_list;
      end_object = i;
    }

abbrev pub scan : (ℕ → ℕ) → List ℕ → Scan → Scan
scan host_ref_count [] s = s
scan host_ref_count (i ∷ rest) s = scan host_ref_count rest (scan_object host_ref_count i s)

unfoldable pub begin_scan : Runtime → List ℕ → Scan
unfolding scan_object
begin_scan rt objects = scan rt.host_ref_count objects (record {
  collection = record {
    gc_status = rt.gc_status;
    unwalked_list = [];
    walkable_list = [];
    walked_list = [];
  };
  host_ref_list = [];
  end_object = 0;
})

-- The pushes of the runtime's own roots, in order
abbrev pub instances : ℕ → List ℕ → List ℕ
instances first [] = []
instances first (second ∷ rest) = first ∷ second ∷ instances first rest

abbrev pub cached : List (ℕ × List ℕ) → List ℕ
cached [] = []
cached ((first, seconds) ∷ rest) = instances first seconds ++ cached rest

unfoldable pub runtime_roots : Runtime → List ℕ
runtime_roots rt =
    cached rt.generic_cache_dir
    ++ (rt.managed_thread_contexts
        ++ (if rt.is_deiniting then [] else rt.root_object ∷ rt.active_contexts))

unfoldable pub push_roots : Runtime → Scan → Collection
unfolding runtime_roots
push_roots rt s = push_all (runtime_roots rt) (push_all s.host_ref_list s.collection)

-- The last loop: the walked objects become unwalked and change their generation.
abbrev pub promote_object : Generation → ℕ → Runtime → Runtime
promote_object new_generation i rt = record rt {
  gc_status = set_status i unwalked rt.gc_status;
  object_generation = λ a. if a == i then new_generation else rt.object_generation a;
}

unfoldable pub promote : Generation → List ℕ → Runtime → Runtime
promote new_generation [] rt = rt
promote new_generation (i ∷ rest) rt =
    promote new_generation rest (promote_object new_generation i rt)

-- The outcome with the deallocated objects
pub record Collected : Type 0 where
  pub runtime : Runtime
  pub remaining : ObjectList
  pub end_object : ℕ
  pub freed : List ℕ

abbrev pub start_sweep : Runtime → List ℕ → ℕ → Collection → Sweep
start_sweep rt objects end c = record {
  objects = objects;
  end_object = end;
  unwalked_list = c.unwalked_list;
  registered = rt.registered;
  freed = [];
  num_deleted_objects = 0;
}

unfoldable pub finish_collection :
    Runtime → ObjectList → Generation → Collection → Option Sweep → Option Collected
unfolding promote
finish_collection rt l new_generation c none = none
finish_collection rt l new_generation c (some s) = some (record {
  runtime =
      promote new_generation c.walked_list
        (record rt { gc_status = c.gc_status; registered = s.registered });
  remaining = record { objects = s.objects; num_objects = l.num_objects - s.num_deleted_objects };
  end_object = s.end_object;
  freed = s.freed;
})

unfoldable pub after_mark :
    Memory → Runtime → ObjectList → Generation → ℕ → Option Collection → Option Collected
unfolding finish_collection sweep
after_mark memory rt l new_generation end none = none
after_mark memory rt l new_generation end (some c) =
    finish_collection rt l new_generation c (sweep memory (start_sweep rt l.objects end c))

-- _gc_serial, with as many rounds of the marking and as deep a walk as the fuel allows
unfoldable pub gc_serial : ℕ → ℕ → Memory → Runtime → ObjectList → Generation → Option Collected
unfolding begin_scan push_roots mark after_mark
gc_serial rounds fuel memory rt l new_generation =
    let s = begin_scan rt l.objects in
    after_mark memory rt l new_generation s.end_object (mark rounds fuel memory (push_roots rt s))
