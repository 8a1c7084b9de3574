-- ===== src/Signatures/Orders.antt =====
-- The comparators of slake/obj that are orders.
use Prim.Native.Nat.Ordering.{lt, eq}
use slake.Prelude.{ℕ, ◌≡◌, refl, Option, none, some, List, Ordering, arith}
use slake.Prelude.Order.{
  flip, IsOrder, three_way, nat-IsOrder, key-IsOrder, eq-IsOrder, and_then-IsOrder, sized-IsOrder,
}
use slake.Types.TypeRef.{TypeRef}
use slake.Types.TypeRef.Compare.{compares_to-IsOrder}
use slake.Signatures.{
  compare_types, compare_generic_args, IdRefEntry, IdRefObject, number, has_value, compare_values,
  compare_entry, compare_id_refs,
}

types-IsOrder : IsOrder compare_types
types-IsOrder = sized-IsOrder compares_to-IsOrder

-- GenericArgListComparator is a strict weak order.
pub compare_generic_args-IsOrder : IsOrder compare_generic_args
unfolding compare_generic_args
compare_generic_args-IsOrder = types-IsOrder

-- Optional lists by whether they are there, and then by their types.
abbrev compare_optional : Option (List TypeRef) → Option (List TypeRef) → Ordering
compare_optional l r = three_way (number (has_value l)) (number (has_value r)) (compare_values l r)

optional-swap : (a b : Option (List TypeRef)) → compare_optional b a ≡ flip (compare_optional a b)
optional-swap none none = refl
optional-swap none (some b) = refl
optional-swap (some a) none = refl
optional-swap (some a) (some b) = types-IsOrder.swap a b

optional_trans :
    (a b c : Option (List TypeRef))
    → compare_optional a b ≡ lt
    → compare_optional b c ≡ lt
    → compare_optional a c ≡ lt
optional_trans none none none p q = ground arith
optional_trans none none (some c) p q = ground arith
optional_trans none (some b) none p q = ground arith
optional_trans none (some b) (some c) p q = ground arith
optional_trans (some a) none none p q = ground arith
optional_trans (some a) none (some c) p q = ground arith
optional_trans (some a) (some b) none p q = ground arith
optional_trans (some a) (some b) (some c) p q = types-IsOrder.lt_trans a b c p q

optional_left :
    (a b c : Option (List TypeRef))
    → compare_optional a b ≡ eq
    → compare_optional a c ≡ compare_optional b c
optional_left none none none p = ground arith
optional_left none none (some c) p = ground arith
optional_left none (some b) none p = ground arith
optional_left none (some b) (some c) p = ground arith
optional_left (some a) none none p = ground arith
optional_left (some a) none (some c) p = ground arith
optional_left (some a) (some b) none p = ground arith
optional_left (some a) (some b) (some c) p = types-IsOrder.eq_left a b c p

optional-IsOrder : IsOrder compare_optional
optional-IsOrder = record {
  swap = optional-swap;
  lt_trans = optional_trans;
  eq_left = optional_left;
}

module _ (name_order : ℕ → ℕ → Ordering) (names : IsOrder name_order) where
  entry-IsOrder : IsOrder (compare_entry name_order)
  unfolding compare_entry
  entry-IsOrder =
      and_then-IsOrder (key-IsOrder (λ (e : IdRefEntry). e.name) names)
        (key-IsOrder (λ (e : IdRefEntry). e.generic_args) types-IsOrder)

  -- IdRefComparator is a strict weak order where the names' comparison is one.
  pub compare_id_refs-IsOrder : IsOrder (compare_id_refs name_order)
  unfolding compare_id_refs
  compare_id_refs-IsOrder =
      eq-IsOrder (λ l r. ground arith)
        (and_then-IsOrder
          (key-IsOrder (λ (i : IdRefObject). i.entries) (sized-IsOrder entry-IsOrder))
          (and_then-IsOrder (key-IsOrder (λ (i : IdRefObject). i.param_types) optional-IsOrder)
            (key-IsOrder (λ (i : IdRefObject). number i.has_var_args) nat-IsOrder)))
