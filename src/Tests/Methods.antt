-- ===== src/Tests/Methods.antt =====
-- Examples of the method tables of classes.
use Prim.Native.Nat.Ordering.{lt, eq, gt}
use slake.Prelude.{
  ℕ, ◌≡◌, refl, ◌∙◌, inl, Bool, true, false, Ordering, length, ltb, if◌then◌else◌, none, some, List,
  [], ◌∷◌, arith,
}
use slake.Prelude.Order.{cmp_refl, and_then, three_way}
use slake.Types.Kinds.{TypeId}
use slake.Types.TypeRef.{TypeRef, compares_to}
use slake.Types.TypeRef.Compare.{compares_to-IsOrder}
use slake.Signatures.{
  Scopes, FnSignature, number, compare_signatures, compare_param_lists, compare_param_each,
  scope_other,
}
use slake.Classes.Methods.{
  ClassObject, fn, is_equal, is_signature, destructor_signature, find_signature, parent_method,
  prepare_method_tables,
}
use slake.Classes.Methods.Slots.{IsTransitive}
use slake.Classes.Methods.Inherits.{
  find_overloading_of, class_lookup, chain_lookup, prepare_method_tables-Implements,
}

abbrev no_scopes : Scopes
no_scopes = record { scope_at = λ a. scope_other; owner_object = λ a. 0; argument_name = λ a. 0 }

-- The comparison of two signatures, part by part
abbrev equal_parts : List TypeRef → List TypeRef → Bool → Bool → ℕ → ℕ → Ordering → Bool
equal_parts ls rs l r n k types = is_equal (
    and_then (three_way (length ls) (length rs) (compare_param_each 1 no_scopes ls rs)) (
      if ltb (number l) (number r)
      then lt
      else if ltb (number r) (number r)
      then gt
      else three_way n k (and_then types eq)))

longer_parts :
    (b : TypeRef) (ks : List TypeRef) (r : Bool) (k : ℕ) (y : Ordering)
    → equal_parts (b ∷ ks) [] r false k 0 y ≡ false
unfolding compare_param_each
longer_parts b ks r k y = ground arith

equal_parts_trans :
    (ls ks : List TypeRef) (l r : Bool) (n k : ℕ) (x y z : Ordering)
    → (x ≡ eq → z ≡ y)
    → equal_parts ls ks l r n k x ≡ true
    → equal_parts ks [] r false k 0 y ≡ true
    → equal_parts ls [] l false n 0 z ≡ true
unfolding compare_param_each
equal_parts_trans [] [] l r n k eq y z h p q = ground (arith, p, q, h refl)
equal_parts_trans [] [] l r n k lt y z h p q = ground (arith, p, q)
equal_parts_trans [] [] l r n k gt y z h p q = ground (arith, p, q)
equal_parts_trans (a ∷ ls) [] l r n k x y z h p q = ground (arith, p, q)
equal_parts_trans ls (b ∷ ks) l r n k x y z h p q = cc (longer_parts b ks r k y, q)

empty-IsTransitive : IsTransitive 1 no_scopes destructor_signature
unfolding is_signature compare_signatures compare_param_lists compare_param_each
empty-IsTransitive a k p q =
    equal_parts_trans a.param_types k.param_types a.has_var_arg k.has_var_arg a.num_generic_params
      k.num_generic_params (compares_to a.overriden_type k.overriden_type) _ _
      (λ e. compares_to-IsOrder.eq_left a.overriden_type k.overriden_type _ e) p q

abbrev taking : List TypeRef → FnSignature
taking ts = record destructor_signature { param_types = ts }

abbrev int32 : TypeRef
int32 = record { type_id = TypeId.i32; type_modifier = 0; type_def = 0 }

-- The base declares two overloadings of the function 5, the class declares one of them anew.
abbrev base : ClassObject
base = record {
  members =
      (5, fn (record { name = 5; overloadings = (taking [], 10) ∷ (taking (int32 ∷ []), 11) ∷ [] }))
      ∷ [];
  cached_method_table = none;
}

abbrev derived : ClassObject
derived = record {
  members = (5, fn (record { name = 5; overloadings = (taking (int32 ∷ []), 20) ∷ [] })) ∷ [];
  cached_method_table = none;
}

inherited :
    chain_lookup 1 no_scopes 0 (λ o. taking []) (taking []) (derived ∷ base ∷ []) 5 (taking [])
    ≡ some 10
unfolding class_lookup find_signature is_signature compare_signatures compare_param_lists
    compare_param_each
inherited = simp (cmp_refl compares_to-IsOrder destructor_signature.overriden_type)

prepare_method_tables-Implements_example :
    find_overloading_of 1 no_scopes
      (parent_method (prepare_method_tables 1 no_scopes 0 (λ o. taking []) (derived ∷ base ∷ [])) 5)
      (taking [])
    ≡ some 10
prepare_method_tables-Implements_example =
    prepare_method_tables-Implements 1 no_scopes 0 (λ o. taking []) (taking [])
      (derived ∷ base ∷ []) 5 (inl refl, (refl, refl, tt), (inl refl, (refl, refl, tt), tt))
      empty-IsTransitive (ground arith)
    ∙ inherited
