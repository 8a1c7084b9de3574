-- ===== src/Exec/Arith/Casts.antt =====
-- The conversions between the integer types of slake/rt/exec.cc.
use slake.Prelude.{ℕ, ◌-◌, ◌^◌, ◌≡◌, refl, Bool, true, false, some, arith, ltb, if◌then◌else◌}
use slake.Words.{ℤ, wrap}
use slake.Exec.Scalars.{IntType, int_bits, int_value, is_signed, ScalarType}
use slake.Exec.Arith.{Floats, scalar_cast}

-- Whether an integer is a number of the type.
abbrev pub in_range : IntType → ℤ → Bool
in_range t (ℤ.pos n) = ltb n (2 ^ (if is_signed t then int_bits t - 1 else int_bits t))
in_range t (ℤ.negsuc n) = if is_signed t then ltb n (2 ^ (int_bits t - 1)) else false

wrap-in_range : (t : IntType) (z : ℤ) → in_range t z ≡ true → int_value t (wrap (int_bits t) z) ≡ z
wrap-in_range IntType.i8 (ℤ.pos n) h = ground (arith, h)
wrap-in_range IntType.i8 (ℤ.negsuc n) h = ground (arith, h)
wrap-in_range _ (ℤ.pos n) h = ground (arith, h)
wrap-in_range _ (ℤ.negsuc n) h = ground (arith, h)

-- A cast between integer types keeps the integer that the register stands for wherever the type of
-- the result has it.
pub scalar_cast-int :
    (f : Floats) (t s : IntType) (x : ℕ)
    → in_range t (int_value s x) ≡ true
    → (r : ℕ) × (scalar_cast f (ScalarType.int t) (ScalarType.int s) x ≡ some r)
      × (int_value t r ≡ int_value s x)
unfolding scalar_cast
scalar_cast-int f t s x h =
    (wrap (int_bits t) (int_value s x), refl, wrap-in_range t (int_value s x) h)
