-- ===== src/Types/TypeRef/Compare.antt =====
-- `TypeRef::compares_to` as an order, and what it tells apart.
use Prim.Native.Nat.Ordering.{eq}
use slake.Prelude.{ℕ, ◌≡◌, ◌↔◌, ap, Ordering, arith, if◌then◌else◌}
use slake.Prelude.Order.{
  IsOrder, three_way, and_then, nat-IsOrder, key-IsOrder, and_then-IsOrder, eq-IsOrder,
}
use slake.Types.Kinds.{type_code, type_code-injective, is_basic_type}
use slake.Types.TypeRef.{TypeRef, compares_to}

-- The definition as far as it is compared.
abbrev pub relevant_def : TypeRef → ℕ
relevant_def t = if is_basic_type t.type_id then 0 else t.type_def

same_basic :
    (a b : TypeRef)
    → type_code a.type_id ≡ type_code b.type_id
    → is_basic_type a.type_id ≡ is_basic_type b.type_id
same_basic a b e = ap is_basic_type (type_code-injective a.type_id b.type_id e)

abbrev by_keys : TypeRef → TypeRef → Ordering
by_keys a b = and_then (three_way (type_code a.type_id) (type_code b.type_id) eq) (
    and_then (three_way a.type_modifier b.type_modifier eq)
      (three_way (relevant_def a) (relevant_def b) eq))

compares_to-by_keys : (a b : TypeRef) → compares_to a b ≡ by_keys a b
unfolding compares_to
compares_to-by_keys a b = ground (arith, same_basic a b)

-- `TypeRef::compares_to` is a strict weak order, as the ordered containers need.
pub compares_to-IsOrder : IsOrder compares_to
compares_to-IsOrder = eq-IsOrder compares_to-by_keys (
    and_then-IsOrder (key-IsOrder (λ (t : TypeRef). type_code t.type_id) nat-IsOrder) (
      and_then-IsOrder (key-IsOrder (λ (t : TypeRef). t.type_modifier) nat-IsOrder)
        (key-IsOrder relevant_def nat-IsOrder)))

-- Two types compare equal exactly if they have the same id and modifiers and, unless the type is
-- basic, the same definition.
pub compares_to-eq_iff :
    (a b : TypeRef)
    → (compares_to a b ≡ eq) ↔ (
        (a.type_id ≡ b.type_id)
        × (a.type_modifier ≡ b.type_modifier)
        × (relevant_def a ≡ relevant_def b))
compares_to-eq_iff a b = (
  λ e. (
    type_code-injective a.type_id b.type_id (ground (arith, compares_to-by_keys a b)),
    ground (arith, compares_to-by_keys a b),
    ground (arith, compares_to-by_keys a b),
  ),
  λ h. ground (arith, compares_to-by_keys a b, ap type_code h.0),
)
