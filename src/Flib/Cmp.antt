-- ===== src/Flib/Cmp.antt =====
-- slake/flib/cmp.h: the three-way comparisons. The functions differ in their operand types only;
-- an intN_t is a bit pattern. The comparisons of floats are not modelled.
use Prim.Native.Nat.Ordering.{lt, eq, gt}
use slake.Prelude.{ℕ, ◌+◌, ◌-◌, ◌^◌, ◌<◌, ◌≡◌, Ordering, arith, ltb, if◌then◌else◌}
use slake.Prelude.Order.{IsOrder}
use slake.Words.{signed, ltb_ℤ}
use slake.Flib.Bitop.{Width, w8, w16, w32, w64, bits}

-- compare_u8, compare_u16, compare_u32, compare_u64 and compare_usize
unfoldable pub compare_unsigned : ℕ → ℕ → Ordering
compare_unsigned lhs rhs = if ltb lhs rhs then lt else if ltb rhs lhs then gt else eq

-- compare_i8, compare_i16, compare_i32, compare_i64 and compare_isize, at N bits
unfoldable pub compare_signed : ℕ → ℕ → ℕ → Ordering
compare_signed n lhs rhs =
    if ltb_ℤ (signed n lhs) (signed n rhs)
    then lt
    else if ltb_ℤ (signed n rhs) (signed n lhs)
    then gt
    else eq

-- The unsigned comparison is a strict weak order, and 0 exactly at equal numbers.
pub compare_unsigned-IsOrder :
    IsOrder compare_unsigned × ((a b : ℕ) → compare_unsigned a b ≡ eq → a ≡ b)
unfolding compare_unsigned
compare_unsigned-IsOrder = (
  record {
    swap = λ a b. ground arith;
    lt_trans = λ a b c p q. ground arith;
    eq_left = λ a b c p. ground arith;
  },
  λ a b p. ground arith,
)

-- The pattern with its sign bit inverted.
abbrev pub biased : ℕ → ℕ → ℕ
biased half a = if ltb a half then a + half else a - half

-- The signed comparison of N-bit patterns is the unsigned comparison of the patterns with their
-- sign bits inverted.
pub compare_signed-eq-compare_unsigned :
    (w : Width) (a b : ℕ)
    → a < 2 ^ bits w
    → b < 2 ^ bits w
    → compare_signed (bits w) a b
      ≡ compare_unsigned (biased (2 ^ (bits w - 1)) a) (biased (2 ^ (bits w - 1)) b)
unfolding compare_signed compare_unsigned
compare_signed-eq-compare_unsigned w8 a b p q = ground arith
compare_signed-eq-compare_unsigned w16 a b p q = ground arith
compare_signed-eq-compare_unsigned w32 a b p q = ground arith
compare_signed-eq-compare_unsigned w64 a b p q = ground arith
