-- ===== src/Gc/Walk.antt =====
-- Runtime::_gc_walk on types, values, frames and contexts, of rt/gc_heapless.cc: what the walk of an object visits, in the order of the
-- code. `none` is a panic, a call of std::terminate or a walk that does not end on its fuel.
pub mod Objects
pub mod Terminates
use slake.Prelude.{ℕ, zero, suc, ◌+◌, Option, none, some, List, [], ◌∷◌, ◌++◌, ◌==◌, if◌then◌else◌}
use slake.Types.Kinds.{TypeId, type_code}
use slake.Types.TypeRef.{TypeRef}
use slake.Types.Reference.{Reference, ReferenceKind}
use slake.Types.Value.{Value, Payload}
use slake.Gc.Heap.{Memory, MethodTable, GenericParam, FrameRegisters, MajorFrame}

-- A visit is a call of GCWalkContext::push_object, or a call of _gc_walk on an object at once.
pub data Visit : Type 0 where
  push : ℕ → Visit
  walk : ℕ → Visit

abbrev pub Visits : Type 0
Visits = Option (List Visit)

infixr 30 ◌⨾◌
abbrev pub ◌⨾◌ : Visits → Visits → Visits
none ⨾ q = none
some xs ⨾ none = none
some xs ⨾ some ys = some (xs ++ ys)

abbrev pub nothing : Visits
nothing = some []

abbrev pub push_object : ℕ → Visits
push_object a = some (push a ∷ [])

-- A `for` loop whose body makes visits.
abbrev pub for_each {ℓ} : {A : Type ℓ} → (A → Visits) → List A → Visits
for_each body [] = nothing
for_each body (x ∷ xs) = body x ⨾ for_each body xs

-- _gc_walk(context, const TypeRef &)
abbrev pub walk_type : TypeRef → Visits
walk_type t = push_object t.type_def

-- _gc_walk(context, MethodTable *)
unfoldable pub walk_method_table : Option MethodTable → Visits
walk_method_table none = nothing
walk_method_table (some mt) = for_each push_object mt.methods ⨾ for_each push_object mt.destructors

-- _gc_walk(context, GenericParamList &): for each interface the base type is walked again.
unfoldable pub walk_generic_param_list : List GenericParam → Visits
walk_generic_param_list =
    for_each (λ i. walk_type i.base_type ⨾ for_each (λ j. walk_type i.base_type) i.interfaces)

-- The loop over generic_params in the walks of the generic object kinds.
unfoldable pub walk_generic_params : List GenericParam → Visits
walk_generic_params = for_each (λ i. walk_type i.base_type ⨾ for_each walk_type i.interfaces)

-- _gc_walk(context, stack_top, sz_stack, ResumableContextData &)
unfoldable pub walk_resumable : (Value → Visits) → MajorFrame → Visits
walk_resumable walk_value f =
    push_object f.this_object
    ⨾ for_each walk_value f.args
    ⨾ for_each walk_value f.next_args
    ⨾ for_each (for_each walk_type) f.except_handlers

-- The registers in _gc_walk(context, data_stack, stack_size, MajorFrame *)
unfoldable pub walk_registers : (Value → Visits) → FrameRegisters → Visits
walk_registers walk_value (FrameRegisters.regular_registers objects values) =
    for_each push_object objects ⨾ for_each walk_value values
walk_registers walk_value FrameRegisters.no_registers = nothing
walk_registers walk_value (FrameRegisters.outermost value) = walk_value value

unfoldable pub walk_major_frame : (Value → Visits) → MajorFrame → Visits
unfolding walk_resumable walk_registers
walk_major_frame walk_value f =
    push_object f.cur_fn
    ⨾ (if f.cur_coroutine == 0 then nothing else push_object f.cur_coroutine)
    ⨾ walk_resumable walk_value f
    ⨾ walk_registers walk_value f.registers

-- _gc_walk(context, Context &), which takes a current frame for granted.
unfoldable pub walk_context : (Value → Visits) → List MajorFrame → Visits
unfolding walk_major_frame
walk_context walk_value [] = none
walk_context walk_value (f ∷ fs) =
    for_each (λ g. push_object g.cur_coroutine ⨾ walk_major_frame walk_value g) (f ∷ fs)

-- The switch over a reference's kind in _gc_walk(context, const Value &), where `walk_value` walks
-- a value that is read through the reference.
unfoldable pub walk_reference_kind : (Value → Visits) → Memory → Reference → ReferenceKind → Visits
unfolding walk_context
walk_reference_kind walk_value memory r kind = elim kind [
  | ReferenceKind.static_field_ref ↦ push_object r.pointer
  | ReferenceKind.array_element_ref ↦ push_object r.pointer
  | ReferenceKind.object_field_ref ↦ push_object r.pointer
  | ReferenceKind.local_var_ref ↦
      walk_context walk_value (memory.frames_of r.pointer) ⨾ walk_value (memory.read_var r)
  | ReferenceKind.coroutine_local_var_ref ↦ push_object r.pointer ⨾ walk_value (memory.read_var r)
  | ReferenceKind.coroutine_arg_ref ↦ push_object r.pointer
  | _ ↦ nothing
]

abbrev pub walk_reference : (Value → Visits) → Memory → Reference → Visits
unfolding walk_reference_kind
walk_reference walk_value memory r = walk_reference_kind walk_value memory r r.kind

-- _gc_walk(context, const Value &). The pointer-sized integers and the typeless enumerators are
-- not in its switch and end in the panic of its default.
unfoldable pub walk_payload : (Value → Visits) → Memory → Payload → Visits
unfolding walk_reference_kind
walk_payload walk_value memory p = elim p [
  | Payload.object a ↦ push_object a
  | Payload.reference r ↦ walk_reference walk_value memory r
  | Payload.type_name t ↦ walk_type t
  | Payload.isize _ ↦ none
  | Payload.usize _ ↦ none
  | Payload.typeless_scoped_enum _ _ ↦ none
  | _ ↦ nothing
]

unfoldable pub walk_value : ℕ → Memory → Value → Visits
unfolding walk_payload
walk_value zero memory v = none
walk_value (suc fuel) memory v = walk_payload (λ w. walk_value fuel memory w) memory v.payload
