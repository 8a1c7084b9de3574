-- ===== src/Members/Resolve/Results.antt =====
-- What Runtime::resolve_id_ref of slake/rt/idref.cc gives for a reference with names.
use slake.Prelude.{
  ℕ, ◌==◌, ◌≡◌, refl, ap, ◌∙◌, false, ◌&&◌, some, List, [], ◌∷◌, if◌then◌else◌, arith,
}
use slake.Types.Reference.{Reference}
use slake.Signatures.{IdRefEntry, IdRefObject}
use slake.Exec.Machine.{Result, MemberQueryResult, is_found}
use slake.Members.{MemberKind, Scope, kind_at, get_member, get_member_of}
use slake.Members.Resolve.{
  Turn, goes_on, returns, ends, has_any, invalid_member, turn_by, entry_turn, resolve_entries,
  by_signature, after_entries, start_object, find_overloading, from_start, resolve_id_ref,
  load_from, load_deferred_custom_type_def,
}

-- What a reference with names comes to: what its first name is found as, and the names behind it
abbrev pub answer : List IdRefEntry → MemberQueryResult → MemberQueryResult
answer es found =
    if is_found found && has_any es then invalid_member else MemberQueryResult.none_found

module _ (s : Scope) where
  -- The kind of an object with fields is not Fn.
  fields-kind :
      (k : MemberKind) (v name : ℕ) (r : Reference)
      → get_member_of k s v name ≡ MemberQueryResult.reference_found r
      → (ref : IdRefObject)
      → (elim k [
        | MemberKind.fn ↦ find_overloading s ref v
        | _ ↦ Result.ok MemberQueryResult.none_found
      ])
        ≡ Result.ok MemberQueryResult.none_found
  fields-kind MemberKind.fn v name r h ref = cc h
  fields-kind _ v name r h ref = refl

  field-by_signature :
      (ref : IdRefObject) (o name : ℕ) (r : Reference)
      → (o == 0) ≡ false
      → get_member s o name ≡ MemberQueryResult.reference_found r
      → by_signature s ref o MemberQueryResult.none_found ≡ Result.ok MemberQueryResult.none_found
  unfolding by_signature get_member
  field-by_signature ref o name r n h = ground (arith, n, fields-kind (kind_at s o) o name r h ref)

  start-not_null : (scope_object o : ℕ) → start_object s scope_object ≡ some o → (o == 0) ≡ false
  start-not_null scope_object o h = ground (arith, h)

  abbrev pub behind : IdRefObject → List IdRefEntry → Turn → Result MemberQueryResult
  unfolding after_entries resolve_entries
  behind ref es t = after_entries s ref (elim t [
    | goes_on o out ↦ resolve_entries s es o out
    | returns out ↦ returns out
    | ends r ↦ ends r
  ])

  turn_of_names :
      (ref : IdRefObject) (e : IdRefEntry) (es : List IdRefEntry) (o : ℕ)
      → (o == 0) ≡ false
      → (found : MemberQueryResult) → get_member s o e.name ≡ found
      → behind ref es (turn_by s e es o MemberQueryResult.none_found found false)
        ≡ Result.ok (answer es found)
  unfolding behind turn_by resolve_entries
  turn_of_names ref e es o n MemberQueryResult.none_found h = refl
  turn_of_names ref e es o n (MemberQueryResult.object_found x) h = refl
  turn_of_names ref e [] o n (MemberQueryResult.reference_found r) h =
      field-by_signature ref o e.name r n h
  turn_of_names ref e (f ∷ es) o n (MemberQueryResult.reference_found r) h = refl

  first_name :
      (ref : IdRefObject) (e : IdRefEntry) (es : List IdRefEntry) (o : ℕ)
      → (o == 0) ≡ false
      → after_entries s ref (resolve_entries s (e ∷ es) o MemberQueryResult.none_found)
        ≡ Result.ok (answer es (get_member s o e.name))
  unfolding behind entry_turn resolve_entries
  first_name ref e es o n =
      ap
        (λ b.
          behind ref es (turn_by s e es o MemberQueryResult.none_found (get_member s o e.name) b))
        n
      ∙ turn_of_names ref e es o n (get_member s o e.name) refl

  -- A reference with a name, whatever it names, resolves to no member, where there is a scope or a
  -- root object: the result is nothing, or the invalid reference where the first name is of a field
  -- and more names follow.
  pub resolve_id_ref-answer :
      (ref : IdRefObject) (e : IdRefEntry) (es : List IdRefEntry) (scope_object o : ℕ)
      → ref.entries ≡ (e ∷ es)
      → start_object s scope_object ≡ some o
      → resolve_id_ref s ref MemberQueryResult.none_found scope_object
        ≡ Result.ok (answer es (get_member s o e.name))
  unfolding resolve_id_ref from_start after_entries
  resolve_id_ref-answer ref e es scope_object o names start =
      ap (from_start s ref MemberQueryResult.none_found) start
      ∙ (ap (λ l. after_entries s ref (resolve_entries s l o MemberQueryResult.none_found)) names
          ∙ first_name ref e es o (start-not_null scope_object o start))

  loaded_type-ok :
      (id : ℕ) (r : Result MemberQueryResult) (o : ℕ) → ¬ (load_from s id r ≡ Result.ok o)
  loaded_type-ok id (Result.ok MemberQueryResult.none_found) o h = cc h
  loaded_type-ok id (Result.ok (MemberQueryResult.object_found x)) o h = cc h
  loaded_type-ok id (Result.ok (MemberQueryResult.reference_found x)) o h = cc h
  loaded_type-ok id (Result.thrown e) o h = cc h
  loaded_type-ok id Result.terminated o h = cc h
  loaded_type-ok id Result.undefined o h = cc h

  -- No deferred type definition is ever loaded, whatever its reference names: an object that is
  -- found counts as not found.
  pub load_deferred_custom_type_def-ok :
      (id : ℕ) (ref : IdRefObject) (o : ℕ)
      → ¬ (load_deferred_custom_type_def s id ref ≡ Result.ok o)
  unfolding load_deferred_custom_type_def
  load_deferred_custom_type_def-ok id ref o =
      loaded_type-ok id (resolve_id_ref s ref MemberQueryResult.none_found 0) o
