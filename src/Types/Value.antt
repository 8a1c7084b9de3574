-- ===== src/Types/Value.antt =====
-- `Value` of slake/value.h and its comparison in value.cc. The active member of the union goes
-- with the value type, so a payload is a constructor with its member. A float is its bit pattern,
-- an object its address. `none` is a call of std::terminate.
pub mod Compare
use Prim.Native.Nat.Ordering.{lt, eq, gt}
use slake.Prelude.{ℕ, Bool, true, false, Option, none, some, Ordering, ltb, if◌then◌else◌}
use slake.Words.{ℤ, ltb_ℤ}
use slake.Types.TypeRef.{TypeRef}
use slake.Types.TypeRef.{compares_to as type_compares_to}
use slake.Types.Reference.{Reference}
use slake.Types.Reference.{less_than as reference_less, greater_than as reference_greater}

pub data Payload : Type 0 where
  invalid undefined : Payload
  i8 i16 i32 i64 isize : ℤ → Payload
  u8 u16 u32 u64 usize : ℕ → Payload
  f32 f64 : ℕ → Payload
  bool : Bool → Payload
  object : ℕ → Payload
  reference : Reference → Payload
  typeless_scoped_enum : ℕ → TypeRef → Payload
  reg_index : ℕ → Payload
  type_name : TypeRef → Payload

-- The value type: the number of its ValueType.
abbrev pub value_type : Payload → ℕ
value_type invalid = 0
value_type (i8 _) = 1
value_type (i16 _) = 2
value_type (i32 _) = 3
value_type (i64 _) = 4
value_type (isize _) = 5
value_type (u8 _) = 6
value_type (u16 _) = 7
value_type (u32 _) = 8
value_type (u64 _) = 9
value_type (usize _) = 10
value_type (f32 _) = 11
value_type (f64 _) = 12
value_type (bool _) = 13
value_type (object _) = 14
value_type (reference _) = 15
value_type (typeless_scoped_enum _ _) = 16
value_type (reg_index _) = 17
value_type (type_name _) = 18
value_type undefined = 255

pub record Value : Type 0 where
  pub payload : Payload
  pub value_flags : ℕ

-- `if (a < b) return -1; if (a > b) return 1;` and then `rest`, where a test may end the program.
abbrev pub three_way_tests : Option Bool → Option Bool → Option Ordering → Option Ordering
three_way_tests none greater rest = none
three_way_tests (some true) greater rest = some lt
three_way_tests (some false) none rest = none
three_way_tests (some false) (some true) rest = some gt
three_way_tests (some false) (some false) rest = rest

abbrev pub natural_way : ℕ → ℕ → Option Ordering → Option Ordering
natural_way a b = three_way_tests (some (ltb a b)) (some (ltb b a))

abbrev pub integer_way : ℤ → ℤ → Option Ordering → Option Ordering
integer_way a b = three_way_tests (some (ltb_ℤ a b)) (some (ltb_ℤ b a))

abbrev pub bool_number : Bool → ℕ
bool_number true = 1
bool_number false = 0

-- The `switch` of Value::compares_to, behind equal flags and equal value types. Floats, objects
-- and typeless enumerators fall into its default and compare equal.
pub compare_payload : Payload → Payload → Option Ordering
compare_payload (i8 a) (i8 b) = integer_way a b (some eq)
compare_payload (i16 a) (i16 b) = integer_way a b (some eq)
compare_payload (i32 a) (i32 b) = integer_way a b (some eq)
compare_payload (i64 a) (i64 b) = integer_way a b (some eq)
compare_payload (isize a) (isize b) = integer_way a b (some eq)
compare_payload (u8 a) (u8 b) = natural_way a b (some eq)
compare_payload (u16 a) (u16 b) = natural_way a b (some eq)
compare_payload (u32 a) (u32 b) = natural_way a b (some eq)
compare_payload (u64 a) (u64 b) = natural_way a b (some eq)
compare_payload (usize a) (usize b) = natural_way a b (some eq)
compare_payload (bool a) (bool b) = natural_way (bool_number a) (bool_number b) (some eq)
compare_payload (reference a) (reference b) =
    three_way_tests (reference_less a b) (reference_greater a b) (some eq)
compare_payload (reg_index a) (reg_index b) = natural_way a b (some eq)
compare_payload (type_name a) (type_name b) = some (type_compares_to a b)
compare_payload undefined _ = none
compare_payload _ _ = some eq

-- Value::compares_to
pub compares_to : Value → Value → Option Ordering
unfolding compare_payload
compares_to lhs rhs = natural_way lhs.value_flags rhs.value_flags (
    natural_way (value_type lhs.payload) (value_type rhs.payload)
      (compare_payload lhs.payload rhs.payload))

-- Value::operator==
abbrev is_zero : Option Ordering → Option Bool
is_zero none = none
is_zero (some eq) = some true
is_zero (some _) = some false

pub equals : Value → Value → Option Bool
unfolding compares_to
equals lhs rhs = is_zero (compares_to lhs rhs)

-- Value::operator< and operator>
abbrev is_negative : Option Ordering → Option Bool
is_negative none = none
is_negative (some lt) = some true
is_negative (some _) = some false

pub less_than : Value → Value → Option Bool
unfolding compares_to
less_than lhs rhs = is_negative (compares_to lhs rhs)
