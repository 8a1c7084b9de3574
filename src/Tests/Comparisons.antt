-- ===== src/Tests/Comparisons.antt =====
-- Examples for the comparisons of types, references, values and signatures.
use Prim.Native.Nat.Ordering.{lt, eq}
use slake.Prelude.{ℕ, ◌≡◌, refl, none, some, [], ◌∷◌, arith}
use slake.Prelude.Order.{IsOrder, three_way, nat-IsOrder}
use slake.Types.Kinds.{TypeId}
use slake.Types.TypeRef.{TypeRef}
use slake.Types.Reference.{Reference, static_field_ref}
use slake.Types.Value.{Value, Payload}
use slake.Signatures.{
  Scopes, definition_of, find_def_object, compare_param_each, scope_fn_overloading, compare_id_refs,
  compare_param_lists,
}
use slake.Signatures.Orders.{compare_id_refs-IsOrder}

abbrev int32 : TypeRef
int32 = record { type_id = TypeId.i32; type_modifier = 0; type_def = 0 }

abbrev int64 : TypeRef
int64 = record { type_id = TypeId.i64; type_modifier = 4; type_def = 0 }

abbrev generic : TypeRef
generic = record { type_id = TypeId.generic_arg; type_modifier = 0; type_def = 9 }

abbrev field : ℕ → Reference
field i = record { kind = static_field_ref; pointer = 16; index = i; struct_field_index = 0 }

abbrev number_value : ℕ → Value
number_value n = record { payload = Payload.u32 n; value_flags = 0 }

abbrev by_number : ℕ → ℕ → Prim.Native.Nat.Ordering
by_number a b = three_way a b eq

compare_id_refs-IsOrder_example : IsOrder (compare_id_refs by_number)
compare_id_refs-IsOrder_example = compare_id_refs-IsOrder by_number nat-IsOrder

abbrev scopes : Scopes
scopes = record {
  scope_at = λ a. scope_fn_overloading ((7, 0) ∷ []) 0;
  owner_object = λ a. 3;
  argument_name = λ a. 7;
}

abbrev no_scopes : Scopes
no_scopes = record {
  scope_at = λ a. scope_fn_overloading [] 0;
  owner_object = λ a. 0;
  argument_name = λ a. 7;
}

found : definition_of 2 scopes generic ≡ some (5, 0)
unfolding definition_of find_def_object
found = refl

nothing_found : (t : TypeRef) → definition_of 2 no_scopes t ≡ none
unfolding definition_of find_def_object
nothing_found t = ground arith

same_params : compare_param_lists 2 scopes [] [] ≡ eq
unfolding compare_param_lists compare_param_each definition_of find_def_object
same_params = refl
