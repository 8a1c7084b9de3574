-- ===== src/Exec/Arith/Bounds.antt =====
-- The results of the integer arithmetic of slake/rt/exec.cc fit their registers.
use slake.Prelude.{ℕ, ◌/◌, ◌%◌, ◌^◌, ◌≤◌, ◌<◌, ◌≡◌, some, arith}
use slake.Words.{ℤ, wrap}
use slake.Exec.Scalars.{IntType, int_bits}
use slake.Exec.Arith.{
  ArithOp, add, sub, mul, div, mod_op, checked, div_ℤ, mod_ℤ, signed_op, unsigned_op, carried,
  int_arith,
}

wrap-lt : (w : ℕ) (z : ℤ) → 0 < 2 ^ w → wrap w z < 2 ^ w
wrap-lt w (ℤ.pos n) h = ground (arith, h)
wrap-lt w (ℤ.negsuc n) h = ground (arith, h)

int_bits-pos : (t : IntType) → 0 < 2 ^ int_bits t
int_bits-pos IntType.i8 = omega arith
int_bits-pos _ = omega arith

checked-lt : (bits w : ℕ) (z : ℤ) (r : ℕ) → 0 < 2 ^ w → checked bits w z ≡ some r → r < 2 ^ w
checked-lt bits w z r h e = ground (arith, e, wrap-lt w z h)

signed_op-lt :
    (bits w : ℕ) (op : ArithOp) (a b : ℤ) (r : ℕ)
    → 0 < 2 ^ w
    → signed_op bits w op a b ≡ some r
    → r < 2 ^ w
unfolding signed_op
signed_op-lt bits w add a b r h e = checked-lt bits w _ r h e
signed_op-lt bits w sub a b r h e = checked-lt bits w _ r h e
signed_op-lt bits w mul a b r h e = checked-lt bits w _ r h e
signed_op-lt bits w div a b r h e = ground (arith, e, checked-lt bits w (div_ℤ a b) r h)
signed_op-lt bits w mod_op a b r h e = ground (arith, e, wrap-lt w (mod_ℤ a b) h)

unsigned_op-lt :
    (bits : ℕ) (op : ArithOp) (a b r : ℕ)
    → 0 < 2 ^ bits
    → a < 2 ^ bits
    → unsigned_op bits op a b ≡ some r
    → r < 2 ^ bits
unfolding unsigned_op
unsigned_op-lt bits add a b r h l e = ground (arith, e, h)
unsigned_op-lt bits sub a b r h l e = ground (arith, e, h)
unsigned_op-lt bits mul a b r h l e = ground (arith, e, h)
unsigned_op-lt bits div a b r h l e = ground (arith, e, l, div-le a b)
  where
    div-le : (a b : ℕ) → a / b ≤ a
    div-le a b = grind arith
unsigned_op-lt bits mod_op a b r h l e = ground (arith, e, l, mod-le a b)
  where
    mod-le : (a b : ℕ) → a % b ≤ a
    mod-le a b = grind arith

-- A result is a pattern of the register's type.
pub int_arith-lt :
    (op : ArithOp) (t : IntType) (a b r : ℕ)
    → a < 2 ^ int_bits t
    → int_arith op t a b ≡ some r
    → r < 2 ^ int_bits t
unfolding int_arith carried
int_arith-lt op IntType.u32 a b r l e = unsigned_op-lt 32 op a b r (omega arith) l e
int_arith-lt op IntType.u64 a b r l e = unsigned_op-lt 64 op a b r (omega arith) l e
int_arith-lt op IntType.usize a b r l e = unsigned_op-lt 64 op a b r (omega arith) l e
int_arith-lt op IntType.i8 a b r l e = signed_op-lt 32 8 op _ _ r (omega arith) e
int_arith-lt op IntType.i16 a b r l e = signed_op-lt 32 16 op _ _ r (omega arith) e
int_arith-lt op IntType.i32 a b r l e = signed_op-lt 32 32 op _ _ r (omega arith) e
int_arith-lt op IntType.i64 a b r l e = signed_op-lt 64 64 op _ _ r (omega arith) e
int_arith-lt op IntType.isize a b r l e = signed_op-lt 64 64 op _ _ r (omega arith) e
int_arith-lt op IntType.u8 a b r l e = signed_op-lt 32 8 op _ _ r (omega arith) e
int_arith-lt op IntType.u16 a b r l e = signed_op-lt 32 16 op _ _ r (omega arith) e
