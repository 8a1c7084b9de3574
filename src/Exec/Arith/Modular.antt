-- ===== src/Exec/Arith/Modular.antt =====
-- The integer arithmetic of slake/rt/exec.cc against arithmetic modulo 2 ^ N.
use slake.Prelude.{
  ℕ, ◌+◌, ◌-◌, ◌%◌, ◌^◌, ◌<◌, ◌≡◌, Bool, true, false, not, ◌&&◌, none, some, arith, if◌then◌else◌,
}
use slake.Exec.Scalars.{IntType, int_bits, int_value}
use slake.Exec.Arith.{add, sub, add_ℤ, sub_ℤ, fits, signed_op, unsigned_op, carried, int_arith}

-- The types that C computes in themselves, with signed overflow undefined.
abbrev pub may_overflow : IntType → Bool
may_overflow IntType.i32 = true
may_overflow IntType.i64 = true
may_overflow IntType.isize = true
may_overflow _ = false

-- The sum of two registers is the sum of their patterns modulo 2 ^ N, unless they are signed, of
-- 32 bits or more, and the sum of the integers does not fit, where it is undefined.
pub int_arith-add :
    (t : IntType) (a b : ℕ)
    → a < 2 ^ int_bits t
    → b < 2 ^ int_bits t
    → int_arith add t a b ≡ (
        if may_overflow t && not (fits (int_bits t) (add_ℤ (int_value t a) (int_value t b)))
        then none
        else some ((a + b) % 2 ^ int_bits t))
unfolding int_arith carried unsigned_op signed_op add_ℤ
int_arith-add IntType.i8 a b p q = ground arith
int_arith-add _ a b p q = ground arith

-- The difference of two registers is the difference of their patterns modulo 2 ^ N, unless they
-- are signed, of 32 bits or more, and the difference of the integers does not fit, where it is
-- undefined.
pub int_arith-sub :
    (t : IntType) (a b : ℕ)
    → a < 2 ^ int_bits t
    → b < 2 ^ int_bits t
    → int_arith sub t a b ≡ (
        if may_overflow t && not (fits (int_bits t) (sub_ℤ (int_value t a) (int_value t b)))
        then none
        else some ((a + 2 ^ int_bits t - b) % 2 ^ int_bits t))
unfolding int_arith carried unsigned_op signed_op sub_ℤ
int_arith-sub IntType.i8 a b p q = ground arith
int_arith-sub _ a b p q = ground arith
