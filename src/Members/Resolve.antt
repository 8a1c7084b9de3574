-- ===== src/Members/Resolve.antt =====
-- Runtime::resolve_id_ref of slake/rt/idref.cc and load_deferred_custom_type_def of
-- slake/runtime.cc.
pub mod Results
use slake.Prelude.{
  ℕ, ◌==◌, Bool, true, false, not, ◌||◌, Option, none, some, List, [], ◌∷◌, length, if◌then◌else◌,
}
use slake.Types.Kinds.{TypeId}
use slake.Types.TypeRef.{TypeRef}
use slake.Types.Reference.{Reference, ReferenceKind}
use slake.Signatures.{IdRefEntry, IdRefObject, FnSignature, has_value}
use slake.Exec.Machine.{Error, Result, MemberQueryResult, is_found}
use slake.Members.{MemberKind, Scope, kind_at, get_member}

-- A turn of the loop over the entries: it goes on with an object, it returns, or it goes on with
-- what a call ended in. object_ref_out is what is given out.
pub data Turn : Type 0 where
  goes_on : ℕ → MemberQueryResult → Turn
  returns : MemberQueryResult → Turn
  ends : Result MemberQueryResult → Turn

-- MemberQueryResultType: None and Object are 0, Ref is 1
abbrev pub is_object_type : MemberQueryResult → Bool
is_object_type (MemberQueryResult.reference_found r) = false
is_object_type _ = true

abbrev pub invalid_member : MemberQueryResult
invalid_member =
    MemberQueryResult.reference_found
      (record { kind = ReferenceKind.invalid; pointer = 0; index = 0; struct_field_index = 0 })

abbrev pub is_instantiable : MemberKind → Bool
is_instantiable MemberKind.class_object = true
is_instantiable MemberKind.interface_object = true
is_instantiable MemberKind.fn = true
is_instantiable MemberKind.scoped_enum = true
is_instantiable MemberKind.union_enum = true
is_instantiable _ = false

abbrev pub has_any : {A : Type 0} → List A → Bool
has_any [] = false
has_any (x ∷ xs) = true

-- cur_object = m; object_ref_out = cur_object;
abbrev pub instantiated : Result ℕ → Turn
instantiated (Result.ok m) = goes_on m (MemberQueryResult.object_found m)
instantiated (Result.thrown e) = ends (Result.thrown e)
instantiated Result.terminated = ends Result.terminated
instantiated Result.undefined = ends Result.undefined

abbrev pub last_entry : List IdRefEntry → Option IdRefEntry
last_entry [] = none
last_entry (e ∷ []) = some e
last_entry (e ∷ (f ∷ es)) = last_entry (f ∷ es)

module _ (s : Scope) where
  -- The switch on the kind of the object that was found
  unfoldable pub object_turn : IdRefEntry → MemberQueryResult → MemberQueryResult → Turn
  object_turn e (MemberQueryResult.object_found o) out =
      if is_instantiable (kind_at s o)
      then if has_any e.generic_args
        then instantiated (s.instantiate_generic_object o e.generic_args)
        else goes_on o out
      else goes_on o out
  object_turn e _ out = ends Result.undefined

  -- What follows get_member, where cur_object is null or not
  unfoldable pub turn_by :
      IdRefEntry → List IdRefEntry → ℕ → MemberQueryResult → MemberQueryResult → Bool → Turn
  unfolding object_turn
  turn_by e es cur_object out result is_null =
      if is_null
      then returns MemberQueryResult.none_found
      else if not (is_found result)
      then returns MemberQueryResult.none_found
      else if is_object_type result
      then object_turn e result out
      else if has_any es
      then returns invalid_member
      else goes_on cur_object out

  -- One entry with the entries behind it
  unfoldable pub entry_turn : IdRefEntry → List IdRefEntry → ℕ → MemberQueryResult → Turn
  unfolding get_member turn_by
  entry_turn e es cur_object out =
      turn_by e es cur_object out (get_member s cur_object e.name) (cur_object == 0)

  unfoldable pub resolve_entries : List IdRefEntry → ℕ → MemberQueryResult → Turn
  unfolding entry_turn
  resolve_entries [] cur_object out = goes_on cur_object out
  resolve_entries (e ∷ es) cur_object out = elim (entry_turn e es cur_object out) [
    | goes_on o out' ↦ resolve_entries es o out'
    | returns out' ↦ returns out'
    | ends r ↦ ends r
  ]

  abbrev pub signature : IdRefObject → List TypeRef → IdRefEntry → TypeRef → FnSignature
  signature ref ts e t = record {
    param_types = ts;
    has_var_arg = ref.has_var_args;
    num_generic_params = length e.generic_args;
    overriden_type = t;
  }

  abbrev pub void : TypeRef
  void = record { type_id = TypeId.void; type_modifier = 0; type_def = 0 }

  abbrev pub overloading_or : Option ℕ → MemberQueryResult → MemberQueryResult
  overloading_or (some f) rest = MemberQueryResult.object_found f
  overloading_or none rest = rest

  -- case ObjectKind::Fn: the overloading with the overriden type of the reference, or else with
  -- Void. param_types without a value and entries.back() without entries are undefined.
  unfoldable pub find_overloading : IdRefObject → ℕ → Result MemberQueryResult
  find_overloading ref fn = elim ref.param_types [
    | none ↦ Result.undefined
    | some ts ↦ elim (last_entry ref.entries) [
      | none ↦ Result.undefined
      | some e ↦ Result.ok (
          overloading_or (s.overloading fn (signature ref ts e ref.overriden_type))
            (overloading_or (s.overloading fn (signature ref ts e void)) invalid_member))
    ]
  ]

  -- What follows the loop
  unfoldable pub by_signature : IdRefObject → ℕ → MemberQueryResult → Result MemberQueryResult
  unfolding find_overloading
  by_signature ref cur_object out =
      if has_value ref.param_types || ref.has_var_args
      then if cur_object == 0 then Result.undefined else elim (kind_at s cur_object) [
        | MemberKind.fn ↦ find_overloading ref cur_object
        | _ ↦ Result.ok MemberQueryResult.none_found
      ]
      else Result.ok out

  unfoldable pub after_entries : IdRefObject → Turn → Result MemberQueryResult
  unfolding by_signature
  after_entries ref (goes_on o out) = by_signature ref o out
  after_entries ref (returns out) = Result.ok out
  after_entries ref (ends r) = r

  -- if (!cur_object) if (!(cur_object = _root_object)) std::terminate();
  abbrev pub start_object : ℕ → Option ℕ
  start_object scope_object =
      if scope_object == 0
      then if s.root_object == 0 then none else some s.root_object
      else some scope_object

  unfoldable pub from_start : IdRefObject → MemberQueryResult → Option ℕ → Result MemberQueryResult
  unfolding resolve_entries after_entries
  from_start ref out none = Result.terminated
  from_start ref out (some o) = after_entries ref (resolve_entries ref.entries o out)

  -- Runtime::resolve_id_ref, with what object_ref_out holds before the call
  unfoldable pub resolve_id_ref : IdRefObject → MemberQueryResult → ℕ → Result MemberQueryResult
  resolve_id_ref ref out scope_object = from_start ref out (start_object scope_object)

  abbrev pub loaded_type : ℕ → MemberQueryResult → Result ℕ
  loaded_type id result =
      if not (is_found result)
      then Result.thrown (Error.referenced_member_not_found id)
      else if not (is_object_type result)
      then Result.terminated
      else elim result [ MemberQueryResult.object_found o ↦ Result.ok o | _ ↦ Result.undefined ]

  abbrev pub load_from : ℕ → Result MemberQueryResult → Result ℕ
  load_from id (Result.ok result) = loaded_type id result
  load_from id (Result.thrown e) = Result.thrown e
  load_from id Result.terminated = Result.terminated
  load_from id Result.undefined = Result.undefined

  -- Runtime::load_deferred_custom_type_def of the reference `ref` at the address `id`: the type
  -- object that the definition gets
  unfoldable pub load_deferred_custom_type_def : ℕ → IdRefObject → Result ℕ
  unfolding resolve_id_ref
  load_deferred_custom_type_def id ref =
      load_from id (resolve_id_ref ref MemberQueryResult.none_found 0)
