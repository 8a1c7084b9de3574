-- ===== src/Signatures/ParamLists.antt =====
-- Where ParamListComparator of slake/obj/generic.cc and FnSignatureComparator of slake/obj/fn.cc
-- are no orders.
use Prim.Native.Nat.Ordering.{lt, eq}
use slake.Prelude.{ℕ, ◌≡◌, refl, ap, Bool, true, false, none, some, List, [], ◌∷◌, length, arith}
use slake.Prelude.Order.{three_way, compare_each, cmp_refl}
use slake.Types.TypeRef.{TypeRef}
use slake.Types.TypeRef.{compares_to as type_compares_to}
use slake.Types.TypeRef.Compare.{compares_to-IsOrder}
use slake.Signatures.{
  Scopes, compare_types, definition_of, compare_param_each, compare_param_lists, FnSignature,
  compare_signatures,
}

module _ (fuel : ℕ) (s : Scopes) where
  each-first :
      (l r : TypeRef) (i : ℕ) (ls rs : List TypeRef)
      → definition_of fuel s l ≡ some (5, i)
      → definition_of fuel s r ≡ some (5, i)
      → compare_param_each fuel s (l ∷ ls) (r ∷ rs) ≡ eq
  unfolding compare_param_each
  each-first l r i ls rs d e = simp (d, e) (ground arith)

  -- Two parameter lists of one length whose first parameters are generic arguments of function
  -- overloadings at the same index compare equal, whatever their other parameters are.
  pub compare_param_lists-first :
      (l r : TypeRef) (i : ℕ) (ls rs : List TypeRef)
      → length ls ≡ length rs
      → definition_of fuel s l ≡ some (5, i)
      → definition_of fuel s r ≡ some (5, i)
      → compare_param_lists fuel s (l ∷ ls) (r ∷ rs) ≡ eq
  unfolding compare_param_lists
  compare_param_lists-first l r i ls rs n d e = ground (arith, n, each-first l r i ls rs d e)

  -- Without generic arguments that are found, the comparison is the one of the sizes and the types.
  each-plain :
      (ls rs : List TypeRef)
      → ((t : TypeRef) → definition_of fuel s t ≡ none)
      → compare_param_each fuel s ls rs ≡ compare_each type_compares_to ls rs
  unfolding compare_param_each
  each-plain [] rs p = refl
  each-plain (l ∷ ls) [] p = refl
  each-plain (l ∷ ls) (r ∷ rs) p = simp (p l, each-plain ls rs p)

  -- Where no generic argument is found, ParamListComparator compares the sizes and then the types
  -- in order.
  pub compare_param_lists-plain :
      (ls rs : List TypeRef)
      → ((t : TypeRef) → definition_of fuel s t ≡ none)
      → compare_param_lists fuel s ls rs ≡ compare_types ls rs
  unfolding compare_param_lists
  compare_param_lists-plain ls rs p = ap (three_way (length ls) (length rs)) (each-plain ls rs p)

  abbrev pub signature : Bool → List TypeRef → ℕ → TypeRef → FnSignature
  signature var_arg ps n t = record {
    param_types = ps;
    has_var_arg = var_arg;
    num_generic_params = n;
    overriden_type = t;
  }

  -- Of two signatures that differ in has_var_arg alone, the one without compares less to the one
  -- with it, and the one with it compares equal to the one without.
  pub compare_signatures-var_arg :
      (ps : List TypeRef) (n : ℕ) (t : TypeRef)
      → compare_param_lists fuel s ps ps ≡ eq
      → (compare_signatures fuel s (signature false ps n t) (signature true ps n t) ≡ lt)
        × (compare_signatures fuel s (signature true ps n t) (signature false ps n t) ≡ eq)
  unfolding compare_signatures
  compare_signatures-var_arg ps n t e =
      (simp (e), simp (e) (ground (arith, cmp_refl compares_to-IsOrder t)))
