-- ===== src/Tests/Names.antt =====
-- Examples of identifier references and full names of members.
use slake.Prelude.{ℕ, ◌≡◌, refl, false, none, some, List, [], ◌∷◌, ◌==◌, if◌then◌else◌, arith}
use slake.Types.Kinds.{TypeId}
use slake.Signatures.{IdRefEntry, IdRefObject}
use slake.Exec.Machine.{Result, MemberQueryResult}
use slake.Members.{Member, MemberKind, Scope, get_member}
use slake.Members.Resolve.{
  resolve_id_ref, load_deferred_custom_type_def, from_start, resolve_entries, entry_turn, turn_by,
  after_entries, by_signature,
}
use slake.Members.Resolve.Results.{answer, resolve_id_ref-answer, load_deferred_custom_type_def-ok}
use slake.Members.Paths.{get_full_ref}
use slake.Members.Paths.Resolves.{Reachable, at_root, child, follow, get_full_ref-follow}

abbrev plain : MemberKind → ℕ → ℕ → Member
plain k name parent = record {
  kind = k;
  name = name;
  parent = parent;
  generic_args = [];
  members = [];
  field_record_indices = [];
  of_class = 0;
  methods = [];
  field_name_map = [];
}

-- The root module 1 has the module 2, which has a field and the class 3; 4 is an instance of it.
abbrev member_at : ℕ → Member
member_at v =
    if v == 1
    then record (plain MemberKind.module_object 0 0) { members = (10, 2) ∷ [] }
    else if v == 2
    then record (plain MemberKind.module_object 10 1) {
      members = (11, 3) ∷ [];
      field_record_indices = (20, 0) ∷ [];
    }
    else if v == 3
    then plain MemberKind.class_object 11 2
    else if v == 4
    then record (plain MemberKind.instance 0 0) { of_class = 3 }
    else plain MemberKind.other 0 0

abbrev scope : Scope
scope = record {
  member_at = member_at;
  root_object = 1;
  overloading = λ f sig. none;
  instantiate_generic_object = λ o ts. Result.ok o;
}

abbrev entry : ℕ → IdRefEntry
entry n = record { name = n; generic_args = [] }

abbrev reference : List IdRefEntry → IdRefObject
reference es = record {
  entries = es;
  param_types = none;
  has_var_args = false;
  overriden_type = record { type_id = TypeId.void; type_modifier = 0; type_def = 0 };
}

abbrev class_name : IdRefObject
class_name = reference (entry 10 ∷ (entry 11 ∷ []))

resolve_id_ref-answer_example :
    resolve_id_ref scope class_name MemberQueryResult.none_found 0
    ≡ Result.ok (answer (entry 11 ∷ []) (get_member scope 1 10))
resolve_id_ref-answer_example =
    resolve_id_ref-answer scope class_name (entry 10) (entry 11 ∷ []) 0 1 refl refl

load_deferred_custom_type_def-ok_example :
    ¬ (load_deferred_custom_type_def scope 7 class_name ≡ Result.ok 3)
load_deferred_custom_type_def-ok_example = load_deferred_custom_type_def-ok scope 7 class_name 3

module_found : get_member scope 1 10 ≡ MemberQueryResult.object_found 2
unfolding get_member
module_found = refl

class_found : get_member scope 2 11 ≡ MemberQueryResult.object_found 3
unfolding get_member
class_found = refl

class_name_test :
    resolve_id_ref scope class_name MemberQueryResult.none_found 0
    ≡ Result.ok MemberQueryResult.none_found
unfolding resolve_id_ref from_start after_entries by_signature resolve_entries entry_turn turn_by
    get_member
class_name_test = refl

full_name_test : get_full_ref scope 3 99 4 [] ≡ some class_name.entries
unfolding get_full_ref
full_name_test = refl

abbrev instance_reachable : Reachable scope 4
instance_reachable =
    child 4 refl refl class_found refl (child 2 refl refl module_found refl (at_root refl))

get_full_ref-follow_example :
    (es : List IdRefEntry) × (get_full_ref scope 3 99 4 [] ≡ some es) × (follow scope es 1 ≡ some 3)
get_full_ref-follow_example = get_full_ref-follow scope 99 3 4 instance_reachable (omega arith)
