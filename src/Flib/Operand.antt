-- ===== src/Flib/Operand.antt =====
-- slake/obj/fn.h: instruction operands. An operand is a uint64_t; a value of an N-bit type is
-- a bit pattern below 2 ^ N. Operands of floats, which are casts of bits, are not modelled.
use slake.Prelude.{ℕ, ◌%◌, ◌^◌, ◌<◌, ◌≡◌, refl, Bool, true, false, not, ◌==◌, arith, if◌then◌else◌}
use slake.Words.{signed, wrap}
use slake.Flib.Bitop.{Width, w8, w16, w32, w64, bits}

-- i8_as_ins_operand .. isize_as_ins_operand: the sign is extended to 64 bits.
pub signed_as_ins_operand : ℕ → ℕ → ℕ
signed_as_ins_operand n value = wrap 64 (signed n value)

-- u8_as_ins_operand .. usize_as_ins_operand
pub unsigned_as_ins_operand : ℕ → ℕ
unsigned_as_ins_operand value = value % 2 ^ 64

pub bool_as_ins_operand : Bool → ℕ
bool_as_ins_operand value = if value then 1 else 0

-- ins_operand_as_i8 .. ins_operand_as_isize: a narrowing conversion of the int64_t.
unfoldable pub ins_operand_as_signed : ℕ → ℕ → ℕ
ins_operand_as_signed n operand = wrap n (signed 64 operand)

-- ins_operand_as_u8 .. ins_operand_as_usize, ins_operand_as_reg_index
unfoldable pub ins_operand_as_unsigned : ℕ → ℕ → ℕ
ins_operand_as_unsigned n operand = operand % 2 ^ n

unfoldable pub ins_operand_as_bool : ℕ → Bool
ins_operand_as_bool operand = not (operand == 0)

-- What is stored as a signed operand of 8, 16, 32 or 64 bits is read back unchanged.
pub signed_operand_roundtrip :
    (w : Width) (value : ℕ)
    → value < 2 ^ bits w
    → ins_operand_as_signed (bits w) (signed_as_ins_operand (bits w) value) ≡ value
unfolding ins_operand_as_signed signed_as_ins_operand
signed_operand_roundtrip w8 v h = ground arith
signed_operand_roundtrip w16 v h = ground arith
signed_operand_roundtrip w32 v h = ground arith
signed_operand_roundtrip w64 v h = ground arith

-- Widening keeps the number: the 64-bit operand stands for the integer that was stored.
pub signed_operand_value :
    (w : Width) (value : ℕ)
    → value < 2 ^ bits w
    → signed 64 (signed_as_ins_operand (bits w) value) ≡ signed (bits w) value
unfolding signed_as_ins_operand
signed_operand_value w8 v h = ground arith
signed_operand_value w16 v h = ground arith
signed_operand_value w32 v h = ground arith
signed_operand_value w64 v h = ground arith

-- What is stored as an unsigned operand of 8, 16, 32 or 64 bits is read back unchanged.
pub unsigned_operand_roundtrip :
    (w : Width) (value : ℕ)
    → value < 2 ^ bits w
    → ins_operand_as_unsigned (bits w) (unsigned_as_ins_operand value) ≡ value
unfolding ins_operand_as_unsigned unsigned_as_ins_operand
unsigned_operand_roundtrip w8 v h = omega arith
unsigned_operand_roundtrip w16 v h = omega arith
unsigned_operand_roundtrip w32 v h = omega arith
unsigned_operand_roundtrip w64 v h = omega arith

-- A Boolean is read back unchanged from its operand.
pub bool_operand_roundtrip :
    (value : Bool) → ins_operand_as_bool (bool_as_ins_operand value) ≡ value
unfolding ins_operand_as_bool bool_as_ins_operand
bool_operand_roundtrip true = refl
bool_operand_roundtrip false = refl
