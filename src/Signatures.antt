-- ===== src/Signatures.antt =====
-- The comparators behind the ordered containers of slake/obj: GenericArgListComparator and
-- ParamListComparator of generic.cc, IdRefComparator of idref.cc, FnSignatureComparator of fn.cc.
-- A name is a number, and how two names compare is the parameter `name_order`.
pub mod Orders
pub mod ParamLists
use Prim.Native.Nat.Ordering.{lt, eq, gt}
use slake.Prelude.{
  ℕ, zero, suc, Bool, true, false, Option, none, some, List, [], ◌∷◌, Ordering, ◌==◌, ltb,
  if◌then◌else◌, length,
}
use slake.Prelude.Order.{three_way, and_then, compare_each, compare_sized}
use slake.Types.Kinds.{TypeId}
use slake.Types.TypeRef.{TypeRef}
use slake.Types.TypeRef.{compares_to as type_compares_to}

-- `if (l < r) return -1; if (l > r) return 1;` of two types, and then `rest`
abbrev pub type_way : TypeRef → TypeRef → Ordering → Ordering
type_way l r rest = and_then (type_compares_to l r) rest

-- The comparison of two lists of types by their sizes and then element by element
abbrev pub compare_types : List TypeRef → List TypeRef → Ordering
compare_types = compare_sized type_compares_to

-- GenericArgListComparator::operator()
unfoldable pub compare_generic_args : List TypeRef → List TypeRef → Ordering
compare_generic_args lhs rhs = compare_types lhs rhs

-- IdRefEntry and IdRefObject
pub record IdRefEntry : Type 0 where
  pub name : ℕ
  pub generic_args : List TypeRef

pub record IdRefObject : Type 0 where
  pub entries : List IdRefEntry
  pub param_types : Option (List TypeRef)
  pub has_var_args : Bool
  pub overriden_type : TypeRef

abbrev pub number : Bool → ℕ
number true = 1
number false = 0

abbrev pub has_value : Option (List TypeRef) → Bool
has_value none = false
has_value (some ts) = true

abbrev pub compare_values : Option (List TypeRef) → Option (List TypeRef) → Ordering
compare_values (some l) (some r) = compare_types l r
compare_values _ _ = eq

module _ (name_order : ℕ → ℕ → Ordering) where
  unfoldable pub compare_entry : IdRefEntry → IdRefEntry → Ordering
  compare_entry l r =
      and_then (name_order l.name r.name) (compare_types l.generic_args r.generic_args)

  -- IdRefComparator::operator()
  unfoldable pub compare_id_refs : IdRefObject → IdRefObject → Ordering
  unfolding compare_entry
  compare_id_refs l r = and_then (compare_sized compare_entry l.entries r.entries) (
      three_way (number (has_value l.param_types)) (number (has_value r.param_types)) (
        and_then (compare_values l.param_types r.param_types)
          (three_way (number l.has_var_args) (number r.has_var_args) eq)))

-- What find_def_object follows: the scope objects with their mapped generic parameters.
pub data ScopeObject : Type 0 where
  scope_class scope_interface scope_struct : List (ℕ × ℕ) → ℕ → ScopeObject
  scope_fn_overloading : List (ℕ × ℕ) → ℕ → ScopeObject
  scope_other : ScopeObject

-- The numbers of ObjectKind
abbrev pub found_in : ℕ → ℕ → Option ℕ → Option (ℕ × ℕ) → Option (ℕ × ℕ)
found_in kind object none rest = rest
found_in kind object (some index) rest = some (kind, index)

abbrev pub find : ℕ → List (ℕ × ℕ) → Option ℕ
find name [] = none
find name ((key, value) ∷ rest) = if key == name then some value else find name rest

-- The generic argument of a type: its owner and its name
pub record Scopes : Type 0 where
  pub scope_at : ℕ → ScopeObject
  pub owner_object : ℕ → ℕ
  pub argument_name : ℕ → ℕ

-- The lambda find_def_object: the kind of the object that maps the name and the index there. The
-- walk over the parents ends with the fuel.
unfoldable pub find_def_object : ℕ → Scopes → ℕ → ℕ → Option (ℕ × ℕ)
find_def_object zero s member name = none
find_def_object (suc fuel) s member name = if member == 0 then none else elim (s.scope_at member) [
  | scope_class ps parent ↦ found_in 9 member (find name ps) (find_def_object fuel s parent name)
  | scope_interface ps parent ↦
      found_in 10 member (find name ps) (find_def_object fuel s parent name)
  | scope_struct ps parent ↦ found_in 11 member (find name ps) (find_def_object fuel s parent name)
  | scope_fn_overloading ps fn ↦ found_in 5 member (find name ps) (find_def_object fuel s fn name)
  | scope_other ↦ none
]

-- FnSignature
pub record FnSignature : Type 0 where
  pub param_types : List TypeRef
  pub has_var_arg : Bool
  pub num_generic_params : ℕ
  pub overriden_type : TypeRef

abbrev pub is_generic_arg : TypeRef → Bool
is_generic_arg t = elim t.type_id [ TypeId.generic_arg ↦ true | _ ↦ false ]

module _ (fuel : ℕ) (s : Scopes) where
  unfoldable pub definition_of : TypeRef → Option (ℕ × ℕ)
  unfolding find_def_object
  definition_of t =
      if is_generic_arg t
      then find_def_object fuel s (s.owner_object t.type_def) (s.argument_name t.type_def)
      else none

  -- The comparison of two parameters that are defined by function overloadings, which is the
  -- result of the whole comparison, or `none` to go on. The two tests of the kinds compare a kind
  -- with itself.
  abbrev pub by_definition : Option (ℕ × ℕ) → Option (ℕ × ℕ) → Option Ordering
  by_definition (some (kind, l)) (some (_, r)) = if kind == 5 then some (three_way l r eq) else none
  by_definition _ _ = none

  abbrev pub or_else : Option Ordering → Ordering → Ordering
  or_else none rest = rest
  or_else (some result) rest = result

  unfoldable pub compare_param_each : List TypeRef → List TypeRef → Ordering
  unfolding definition_of
  compare_param_each [] rs = eq
  compare_param_each (l ∷ ls) [] = eq
  compare_param_each (l ∷ ls) (r ∷ rs) =
      or_else (by_definition (definition_of l) (definition_of r))
        (type_way l r (compare_param_each ls rs))

  -- ParamListComparator::operator()
  unfoldable pub compare_param_lists : List TypeRef → List TypeRef → Ordering
  unfolding compare_param_each
  compare_param_lists ls rs = three_way (length ls) (length rs) (compare_param_each ls rs)

  -- FnSignatureComparator::operator(), whose second test of has_var_arg compares rhs with itself
  unfoldable pub compare_signatures : FnSignature → FnSignature → Ordering
  unfolding compare_param_lists
  compare_signatures l r = and_then (compare_param_lists l.param_types r.param_types) (
      if ltb (number l.has_var_arg) (number r.has_var_arg)
      then lt
      else if ltb (number r.has_var_arg) (number r.has_var_arg)
      then gt
      else three_way l.num_generic_params r.num_generic_params
          (type_way l.overriden_type r.overriden_type eq))
