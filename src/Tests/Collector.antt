-- ===== src/Tests/Collector.antt =====
-- Examples for the collection of a generation: a root module with one string, and a string that
-- nothing refers to.
use slake.Prelude.{
  ℕ, ◌≡◌, refl, Bool, true, false, none, some, List, [], ◌∷◌, ◌==◌, contains, arith,
}
use slake.Types.Reference.{Reference, local_var_ref}
use slake.Types.Value.{Value, Payload}
use slake.Gc.Heap.{Memory, Object, FrameRegisters, MajorFrame, BasicModule}
use slake.Gc.Walk.{walk_value}
use slake.Gc.Walk.Objects.{visits_of, object_visits, walk_module, walk_fields}
use slake.Gc.Walk.Terminates.{walk_value-diverges}
use slake.Gc.Collection.{unwalked}
use slake.Gc.Mark.Invariant.{Reachable, from_root, through, PushesChildren, pushes}
use slake.Gc.Sweep.{is_type_def}
use slake.Gc.Serial.{
  Runtime, ObjectList, young, persistent, Collected, begin_scan, scan_object, runtime_roots,
  gc_serial,
}
use slake.Gc.Serial.Roots.{all_roots}
use slake.Gc.Serial.Outcome.{IsCollected}
use slake.Gc.Serial.Correct.{gc_serial-IsCollected}

abbrev root_module : BasicModule
root_module = record { members = 2 ∷ []; parent = 0; field_types = [] }

abbrev object_of : Bool → Object
object_of true = Object.module_object root_module []
object_of false = Object.string

abbrev invalid_value : Value
invalid_value = record { payload = Payload.invalid; value_flags = 0 }

abbrev pub heap : Memory
heap = record {
  object_at = λ a. object_of (a == 1);
  layout_of = λ a. none;
  read_var = λ r. invalid_value;
  frames_of = λ c. [];
}

abbrev children_of : Bool → List ℕ
children_of true = 2 ∷ 0 ∷ []
children_of false = []

abbrev pub children : ℕ → List ℕ
children a = children_of (a == 1)

abbrev pub runtime : Runtime
runtime = record {
  gc_status = λ a. unwalked;
  object_generation = λ a. young;
  host_ref_count = λ a. 0;
  registered = [];
  generic_cache_dir = [];
  managed_thread_contexts = [];
  is_deiniting = false;
  root_object = 1;
  active_contexts = [];
}

abbrev pub generation : ObjectList
generation = record { objects = 1 ∷ 2 ∷ 3 ∷ []; num_objects = 3 }

roots_are : all_roots runtime (1 ∷ 2 ∷ 3 ∷ []) ≡ 1 ∷ []
unfolding all_roots begin_scan scan_object runtime_roots
roots_are = refl

visits_by :
    (b : Bool) (a : ℕ)
    → visits_of (λ v. walk_value 0 heap v) heap a (object_of b) ≡ some (pushes (children_of b))
unfolding visits_of walk_module walk_fields
visits_by true a = refl
visits_by false a = refl

pub visits : (a : ℕ) → PushesChildren heap 0 children a
unfolding object_visits
visits a = visits_by (a == 1) a

pub no_type_defs : (b : Bool) → is_type_def (object_of b) ≡ false
no_type_defs true = refl
no_type_defs false = refl

pub reached :
    (a : ℕ)
    → Reachable (all_roots runtime (1 ∷ 2 ∷ 3 ∷ [])) children a
    → contains (1 ∷ 2 ∷ []) a ≡ true
unfolding all_roots begin_scan scan_object runtime_roots
reached a (from_root _ k n) = ground (arith, k)
reached a (through b _ r k n) = ground (arith, k, n)

gc_serial-IsCollected_example :
    (r : Collected) × (gc_serial 2 1 heap runtime generation persistent ≡ some r)
    × IsCollected children runtime generation persistent r
gc_serial-IsCollected_example =
    gc_serial-IsCollected heap 0 children runtime generation (1 ∷ 2 ∷ []) (λ a. refl)
      (λ a r. visits a) reached (λ a k. ground (arith, k)) (λ a. ground arith)
      (λ a k t. absurd (ground (arith, t, no_type_defs (a == 1)))) 2 (omega arith) persistent

-- A context with one frame whose register refers to a variable of the context itself
abbrev self_reference : Reference
self_reference = record { kind = local_var_ref; pointer = 64; index = 8; struct_field_index = 0 }

abbrev self_value : Value
self_value = record { payload = Payload.reference self_reference; value_flags = 0 }

abbrev self_frame : MajorFrame
self_frame = record {
  cur_fn = 0;
  cur_coroutine = 0;
  this_object = 0;
  args = [];
  next_args = [];
  except_handlers = [];
  registers = FrameRegisters.regular_registers [] (self_value ∷ []);
}

abbrev self_heap : Memory
self_heap = record {
  object_at = λ a. Object.string;
  layout_of = λ a. none;
  read_var = λ r. invalid_value;
  frames_of = λ c. self_frame ∷ [];
}

walk_value-diverges_example : walk_value 100 self_heap self_value ≡ none
walk_value-diverges_example =
    walk_value-diverges self_heap self_reference self_value refl refl [] [] self_frame refl [] [] []
      refl 100
