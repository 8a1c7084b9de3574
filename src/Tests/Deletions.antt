-- ===== src/Tests/Deletions.antt =====
-- Examples for the deletion of unwalked objects.
use slake.Prelude.{ℕ, ◌≡◌, refl, Bool, true, false, none, some, List, [], ◌∷◌, ◌==◌, arith}
use slake.Types.Value.{Value, Payload}
use slake.Gc.Heap.{Memory, Object, TypeDef}
use slake.Gc.Sweep.{Sweep, sweep}
use slake.Gc.Sweep.Deletes.{IsSwept, sweep-IsSwept}
use slake.Gc.Sweep.Dangles.{sweep-dangles}

abbrev object_of : Bool → Object
object_of true = Object.type_def (TypeDef.tuple_type_def [])
object_of false = Object.string

abbrev invalid_value : Value
invalid_value = record { payload = Payload.invalid; value_flags = 0 }

-- Object 2 is a type definition, the others are strings.
abbrev heap : Memory
heap = record {
  object_at = λ a. object_of (a == 2);
  layout_of = λ a. none;
  read_var = λ r. invalid_value;
  frames_of = λ c. [];
}

abbrev sweep_of : List ℕ → Sweep
sweep_of unwalked = record {
  objects = 1 ∷ 2 ∷ 3 ∷ [];
  end_object = 3;
  unwalked_list = unwalked;
  registered = 2 ∷ [];
  freed = [];
  num_deleted_objects = 0;
}

sweep-IsSwept_example :
    (t : Sweep) × (sweep heap (sweep_of (3 ∷ 2 ∷ [])) ≡ some t)
    × IsSwept heap (sweep_of (3 ∷ 2 ∷ [])) t
sweep-IsSwept_example =
    sweep-IsSwept heap (sweep_of (3 ∷ 2 ∷ [])) refl refl (λ a. ground arith) refl

sweep-dangles_example : sweep heap (sweep_of (2 ∷ 1 ∷ [])) ≡ none
sweep-dangles_example = sweep-dangles heap (sweep_of (2 ∷ 1 ∷ [])) 2 (1 ∷ []) refl refl refl
