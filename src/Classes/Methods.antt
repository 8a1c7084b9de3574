-- ===== src/Classes/Methods.antt =====
-- Runtime::init_method_table_for_class of slake/rt/new.cc and MethodTable::get_method of
-- slake/obj/class.cc. A map is a list of its entries.
pub mod Slots
pub mod Inherits
use Prim.Native.Nat.Ordering.{lt, eq, gt}
use slake.Prelude.{
  ℕ, Bool, true, false, Option, none, some, List, [], ◌∷◌, ◌++◌, Ordering, ◌==◌, if◌then◌else◌,
}
use slake.Types.Kinds.{TypeId}
use slake.Types.TypeRef.{TypeRef}
use slake.Signatures.{Scopes, FnSignature, compare_signatures}

-- FnObject::overloadings: the overloadings by their signatures
abbrev pub Overloadings : Type 0
Overloadings = List (FnSignature × ℕ)

-- FnObject
pub record FnObject : Type 0 where
  pub name : ℕ
  pub overloadings : Overloadings

-- A member of a class
pub data ClassMember : Type 0 where
  fn : FnObject → ClassMember
  other_member : ClassMember

pub record MethodTable : Type 0 where
  pub methods : List (ℕ × FnObject)
  pub destructors : List ℕ

-- ClassObject: its members and cached_instantiated_method_table
pub record ClassObject : Type 0 where
  pub members : List (ℕ × ClassMember)
  pub cached_method_table : Option MethodTable

abbrev pub cached_or : Option MethodTable → MethodTable → MethodTable
cached_or none table = table
cached_or (some cached) table = cached

abbrev pub is_equal : Ordering → Bool
is_equal eq = true
is_equal _ = false

abbrev pub find_method : ℕ → List (ℕ × FnObject) → Option FnObject
find_method name [] = none
find_method name ((key, f) ∷ rest) = if key == name then some f else find_method name rest

-- MethodTable::get_method
unfoldable pub get_method : MethodTable → ℕ → Option FnObject
get_method table name = find_method name table.methods

abbrev pub parent_method : Option MethodTable → ℕ → Option FnObject
parent_method none name = none
parent_method (some table) name = get_method table name

abbrev pub method_overloadings : Option FnObject → Overloadings
method_overloadings none = []
method_overloadings (some f) = f.overloadings

abbrev pub add_missing : FnSignature × ℕ → Option ℕ → Overloadings → Overloadings
add_missing x none slot = slot ++ (x ∷ [])
add_missing x (some o) slot = slot

-- FnSignature(destructor_param_types, false, 0, TypeId::Void)
abbrev pub destructor_signature : FnSignature
destructor_signature = record {
  param_types = [];
  has_var_arg = false;
  num_generic_params = 0;
  overriden_type = record { type_id = TypeId.void; type_modifier = 0; type_def = 0 };
}

abbrev pub push_destructor : Option ℕ → MethodTable → MethodTable
push_destructor none table = table
push_destructor (some o) table = record table { destructors = o ∷ table.destructors }

-- `if (fn_slot->overloadings.size())`
abbrev pub insert_method : ℕ → Overloadings → MethodTable → MethodTable
insert_method name [] table = table
insert_method name (x ∷ slot) table = record table {
  methods = (name, record { name = name; overloadings = x ∷ slot }) ∷ table.methods;
}

abbrev pub parent_destructors : Option MethodTable → List ℕ
parent_destructors none = []
parent_destructors (some table) = table.destructors

module _ (fuel : ℕ) (s : Scopes) where
  unfoldable pub is_signature : FnSignature → FnSignature → Bool
  unfolding compare_signatures
  is_signature l r = is_equal (compare_signatures fuel s l r)

  unfoldable pub find_signature : FnSignature → Overloadings → Option ℕ
  unfolding is_signature
  find_signature g [] = none
  find_signature g ((k, o) ∷ rest) = if is_signature k g then some o else find_signature g rest

  -- The loop over the overloadings of the parent's method
  unfoldable pub inherit_overloadings : Overloadings → Overloadings → Overloadings
  unfolding find_signature
  inherit_overloadings [] slot = slot
  inherit_overloadings (x ∷ rest) slot =
      inherit_overloadings rest (add_missing x (find_signature x.0 slot) slot)

  -- The first overloading for which the comparator's result, taken as a Boolean, is true.
  -- `signature_at` is made of what an overloading holds.
  unfoldable pub find_destructor : (ℕ → FnSignature) → Overloadings → Option ℕ
  unfolding is_signature
  find_destructor signature_at [] = none
  find_destructor signature_at ((k, o) ∷ rest) =
      if is_signature (signature_at o) destructor_signature
      then find_destructor signature_at rest
      else some o

module _ (fuel : ℕ) (s : Scopes) (delete : ℕ) (signature_at : ℕ → FnSignature) where
  -- The body of the loop over the members, where `delete` is the name "delete". The slot begins
  -- with the overloadings of the function.
  unfoldable pub add_member : Option MethodTable → ℕ → ClassMember → MethodTable → MethodTable
  unfolding find_destructor inherit_overloadings get_method
  add_member parent_mt key other_member table = table
  add_member parent_mt key (fn f) table =
      if key == delete
      then push_destructor (find_destructor fuel s signature_at f.overloadings) table
      else insert_method f.name
          (inherit_overloadings fuel s (method_overloadings (parent_method parent_mt f.name))
            f.overloadings)
          table

  unfoldable pub add_members :
      Option MethodTable → List (ℕ × ClassMember) → MethodTable → MethodTable
  unfolding add_member
  add_members parent_mt [] table = table
  add_members parent_mt ((key, member) ∷ rest) table =
      add_members parent_mt rest (add_member parent_mt key member table)

  -- init_method_table_for_class
  unfoldable pub init_method_table_for_class :
      List (ℕ × ClassMember) → Option MethodTable → MethodTable
  unfolding add_members
  init_method_table_for_class members parent_mt =
      add_members parent_mt members
        (record { methods = []; destructors = parent_destructors parent_mt })

  -- The loop of prepare_class_for_instantiation over a class and its bases, the root last: the
  -- method table of the class, which is made where it has none
  unfoldable pub prepare_method_tables : List ClassObject → Option MethodTable
  unfolding init_method_table_for_class
  prepare_method_tables [] = none
  prepare_method_tables (c ∷ bases) = some (
      cached_or c.cached_method_table
        (init_method_table_for_class c.members (prepare_method_tables bases)))
