-- ===== src/Types/TypeRef.antt =====
-- `TypeRef` of slake/type.h and its comparisons in type.cc. A pointer is its address, nullptr is 0.
pub mod Compare
pub mod Modifiers
use Prim.Native.Nat.{bit_and, bit_or, bit_xor}
use Prim.Native.Nat.Ordering.{lt, eq, gt}
use slake.Prelude.{ℕ, Bool, true, false, not, Ordering, ◌==◌, if◌then◌else◌}
use slake.Prelude.Order.{three_way}
use slake.Types.Kinds.{TypeId, type_code, is_basic_type}

pub record TypeRef : Type 0 where
  pub type_id : TypeId
  pub type_modifier : ℕ
  pub type_def : ℕ

-- TypeRef::compares_to. For a basic type the definition is not looked at.
pub compares_to : TypeRef → TypeRef → Ordering
compares_to lhs rhs = three_way (type_code lhs.type_id) (type_code rhs.type_id) (
    three_way lhs.type_modifier rhs.type_modifier
      (if is_basic_type lhs.type_id then eq else three_way lhs.type_def rhs.type_def eq))

abbrev is_zero : Ordering → Bool
is_zero eq = true
is_zero _ = false

abbrev is_less : Ordering → Bool
is_less lt = true
is_less _ = false

-- TypeRef::operator== and operator<
pub equals : TypeRef → TypeRef → Bool
unfolding compares_to
equals lhs rhs = is_zero (compares_to lhs rhs)

pub less_than : TypeRef → TypeRef → Bool
unfolding compares_to
less_than lhs rhs = is_less (compares_to lhs rhs)

-- TypeRefComparator::operator(), which looks at the definition always and at no modifier.
pub compare_unmodified : TypeRef → TypeRef → Ordering
compare_unmodified lhs rhs =
    three_way (type_code lhs.type_id) (type_code rhs.type_id)
      (three_way lhs.type_def rhs.type_def eq)

-- TYPE_FINAL, TYPE_LOCAL and TYPE_NULLABLE
abbrev pub type_final : ℕ
type_final = 1

abbrev pub type_local : ℕ
type_local = 2

abbrev pub type_nullable : ℕ
type_nullable = 4

-- is_final, is_local and is_nullable, each with its flag
unfoldable pub has_flag : ℕ → TypeRef → Bool
has_flag flag t = not (bit_and t.type_modifier flag == 0)

-- set_final, set_local and set_nullable
pub set_flag : ℕ → TypeRef → TypeRef
set_flag flag t = record t { type_modifier = bit_or t.type_modifier flag }

-- clear_final, clear_local and clear_nullable; the complement is taken in 8 bits.
pub clear_flag : ℕ → TypeRef → TypeRef
clear_flag flag t = record t { type_modifier = bit_and t.type_modifier (bit_xor flag 255) }
