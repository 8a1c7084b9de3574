-- ===== src/Exec/Arith.antt =====
-- The arithmetic that the instructions of slake/rt/exec.cc leave to C++, on bit patterns. `none`
-- is what C++ leaves undefined: a division by 0 and a signed result that does not fit.
pub mod Modular
pub mod Casts
pub mod Bounds
use Prim.Native.Nat.{bit_and, bit_or, bit_xor}
use slake.Prelude.{
  ℕ, ◌+◌, ◌-◌, ◌*◌, ◌/◌, ◌%◌, ◌^◌, Bool, true, false, not, ◌||◌, Option, none, some, ◌==◌, ltb, leb,
  if◌then◌else◌,
}
use slake.Words.{ℤ, wrap, ltb_ℤ}
use slake.Exec.Scalars.{IntType, int_bits, int_value, FloatType, ScalarType}

-- a - b
abbrev pub sub_ℕ : ℕ → ℕ → ℤ
sub_ℕ a b = if leb b a then ℤ.pos (a - b) else ℤ.negsuc (b - a - 1)

abbrev pub neg_ℕ : ℕ → ℤ
neg_ℕ a = sub_ℕ 0 a

unfoldable pub add_ℤ : ℤ → ℤ → ℤ
add_ℤ (ℤ.pos a) (ℤ.pos b) = ℤ.pos (a + b)
add_ℤ (ℤ.pos a) (ℤ.negsuc b) = sub_ℕ a (b + 1)
add_ℤ (ℤ.negsuc a) (ℤ.pos b) = sub_ℕ b (a + 1)
add_ℤ (ℤ.negsuc a) (ℤ.negsuc b) = ℤ.negsuc (a + b + 1)

unfoldable pub sub_ℤ : ℤ → ℤ → ℤ
sub_ℤ (ℤ.pos a) (ℤ.pos b) = sub_ℕ a b
sub_ℤ (ℤ.pos a) (ℤ.negsuc b) = ℤ.pos (a + b + 1)
sub_ℤ (ℤ.negsuc a) (ℤ.pos b) = ℤ.negsuc (a + b)
sub_ℤ (ℤ.negsuc a) (ℤ.negsuc b) = sub_ℕ b a

unfoldable pub mul_ℤ : ℤ → ℤ → ℤ
mul_ℤ (ℤ.pos a) (ℤ.pos b) = ℤ.pos (a * b)
mul_ℤ (ℤ.pos a) (ℤ.negsuc b) = neg_ℕ (a * (b + 1))
mul_ℤ (ℤ.negsuc a) (ℤ.pos b) = neg_ℕ ((a + 1) * b)
mul_ℤ (ℤ.negsuc a) (ℤ.negsuc b) = ℤ.pos ((a + 1) * (b + 1))

-- The quotient of C, rounded towards 0.
unfoldable pub div_ℤ : ℤ → ℤ → ℤ
div_ℤ (ℤ.pos a) (ℤ.pos b) = ℤ.pos (a / b)
div_ℤ (ℤ.pos a) (ℤ.negsuc b) = neg_ℕ (a / (b + 1))
div_ℤ (ℤ.negsuc a) (ℤ.pos b) = neg_ℕ ((a + 1) / b)
div_ℤ (ℤ.negsuc a) (ℤ.negsuc b) = ℤ.pos ((a + 1) / (b + 1))

-- The remainder of C, with the sign of the left operand.
unfoldable pub mod_ℤ : ℤ → ℤ → ℤ
mod_ℤ (ℤ.pos a) (ℤ.pos b) = ℤ.pos (a % b)
mod_ℤ (ℤ.pos a) (ℤ.negsuc b) = ℤ.pos (a % (b + 1))
mod_ℤ (ℤ.negsuc a) (ℤ.pos b) = neg_ℕ ((a + 1) % b)
mod_ℤ (ℤ.negsuc a) (ℤ.negsuc b) = neg_ℕ ((a + 1) % (b + 1))

abbrev pub is_zero : ℤ → Bool
is_zero (ℤ.pos n) = n == 0
is_zero (ℤ.negsuc n) = false

-- Whether a number is one of the signed integers of `bits` bits.
abbrev pub fits : ℕ → ℤ → Bool
fits bits (ℤ.pos n) = ltb n (2 ^ (bits - 1))
fits bits (ℤ.negsuc n) = ltb n (2 ^ (bits - 1))

pub data ArithOp : Type 0 where
  add sub mul div mod_op : ArithOp

-- The type that C computes in: int for the narrow ones, the type itself for the others.
pub data Carrier : Type 0 where
  signed_carrier : ℕ → Carrier
  unsigned_carrier : ℕ → Carrier

abbrev pub carrier : IntType → Carrier
carrier IntType.i8 = signed_carrier 32
carrier IntType.i16 = signed_carrier 32
carrier IntType.i32 = signed_carrier 32
carrier IntType.i64 = signed_carrier 64
carrier IntType.isize = signed_carrier 64
carrier IntType.u8 = signed_carrier 32
carrier IntType.u16 = signed_carrier 32
carrier IntType.u32 = unsigned_carrier 32
carrier IntType.u64 = unsigned_carrier 64
carrier IntType.usize = unsigned_carrier 64

unfoldable pub unsigned_op : ℕ → ArithOp → ℕ → ℕ → Option ℕ
unsigned_op bits add a b = some ((a + b) % 2 ^ bits)
unsigned_op bits sub a b = some ((a + 2 ^ bits - b) % 2 ^ bits)
unsigned_op bits mul a b = some (a * b % 2 ^ bits)
unsigned_op bits div a b = if b == 0 then none else some (a / b)
unsigned_op bits mod_op a b = if b == 0 then none else some (a % b)

-- A signed result, converted to the type of the register where it fits.
abbrev pub checked : ℕ → ℕ → ℤ → Option ℕ
checked bits width z = if fits bits z then some (wrap width z) else none

-- The remainder is undefined where the quotient is.
unfoldable pub signed_op : ℕ → ℕ → ArithOp → ℤ → ℤ → Option ℕ
unfolding add_ℤ sub_ℤ mul_ℤ div_ℤ mod_ℤ
signed_op bits width add a b = checked bits width (add_ℤ a b)
signed_op bits width sub a b = checked bits width (sub_ℤ a b)
signed_op bits width mul a b = checked bits width (mul_ℤ a b)
signed_op bits width div a b = if is_zero b then none else checked bits width (div_ℤ a b)
signed_op bits width mod_op a b =
    if is_zero b || not (fits bits (div_ℤ a b)) then none else some (wrap width (mod_ℤ a b))

unfoldable pub carried : Carrier → ArithOp → IntType → ℕ → ℕ → Option ℕ
unfolding unsigned_op signed_op
carried (unsigned_carrier bits) op t a b = unsigned_op bits op a b
carried (signed_carrier bits) op t a b =
    signed_op bits (int_bits t) op (int_value t a) (int_value t b)

-- `op0 op_token op1` of _basic_arithm_opcode for the integers
unfoldable pub int_arith : ArithOp → IntType → ℕ → ℕ → Option ℕ
unfolding carried
int_arith op t a b = carried (carrier t) op t a b

pub data BitOp : Type 0 where
  and_op or_op xor_op : BitOp

unfoldable pub bit_op : BitOp → ℕ → ℕ → ℕ
bit_op and_op a b = bit_and a b
bit_op or_op a b = bit_or a b
bit_op xor_op a b = bit_xor a b

pub data CompareOp : Type 0 where
  equal not_equal lt gt lteq gteq : CompareOp

-- A comparison from its two strict ones.
abbrev pub by_order : CompareOp → Bool → Bool → Bool
by_order equal less greater = not (less || greater)
by_order not_equal less greater = less || greater
by_order lt less greater = less
by_order gt less greater = greater
by_order lteq less greater = not greater
by_order gteq less greater = not less

-- `op0 op_token op1` of _basic_comparison_opcode for the integers
unfoldable pub int_compare : CompareOp → IntType → ℕ → ℕ → Bool
int_compare op t a b =
    by_order op (ltb_ℤ (int_value t a) (int_value t b)) (ltb_ℤ (int_value t b) (int_value t a))

-- The floats of the machine, on bit patterns. to_int is `none` where the number does not fit.
pub record Floats : Type 0 where
  pub float_arith : ArithOp → FloatType → ℕ → ℕ → ℕ
  pub float_compare : CompareOp → FloatType → ℕ → ℕ → Bool
  pub of_int : FloatType → ℤ → ℕ
  pub to_int : IntType → FloatType → ℕ → Option ℕ
  pub to_float : FloatType → FloatType → ℕ → ℕ
  pub is_nonzero : FloatType → ℕ → Bool

abbrev pub bool_pattern : Bool → ℕ
bool_pattern b = if b then 1 else 0

-- `static_cast<data_type>` from one number type to another
unfoldable pub scalar_cast : Floats → ScalarType → ScalarType → ℕ → Option ℕ
scalar_cast f (ScalarType.int t) (ScalarType.int s) x = some (wrap (int_bits t) (int_value s x))
scalar_cast f (ScalarType.int t) (ScalarType.float s) x = f.to_int t s x
scalar_cast f (ScalarType.int t) ScalarType.bool x = some (bool_pattern (not (x == 0)))
scalar_cast f (ScalarType.float t) (ScalarType.int s) x = some (f.of_int t (int_value s x))
scalar_cast f (ScalarType.float t) (ScalarType.float s) x = some (f.to_float t s x)
scalar_cast f (ScalarType.float t) ScalarType.bool x =
    some (f.of_int t (ℤ.pos (bool_pattern (not (x == 0)))))
scalar_cast f ScalarType.bool (ScalarType.int s) x = some (bool_pattern (not (x == 0)))
scalar_cast f ScalarType.bool (ScalarType.float s) x = some (bool_pattern (f.is_nonzero s x))
scalar_cast f ScalarType.bool ScalarType.bool x = some (bool_pattern (not (x == 0)))
