-- ===== src/Words.antt =====
-- Machine integers as bit patterns: a w-bit integer is a native number below 2 ^ w, and
-- `signed` is the integer that the pattern stands for as an intN_t of C.
pub mod Bits
use slake.Prelude.{
  ℕ, suc, ◌+◌, ◌-◌, ◌*◌, ◌/◌, ◌%◌, ◌^◌, ◌≤◌, ◌<◌, ◌≡◌, refl, ap, Bool, arith, ltb, if◌then◌else◌,
}

-- `negsuc n` is -(n + 1).
pub data ℤ : Type 0 where
  pos : ℕ → ℤ
  negsuc : ℕ → ℤ

-- The value of a w-bit pattern.
abbrev pub signed : ℕ → ℕ → ℤ
signed w x = if ltb x (2 ^ (w - 1)) then pos x else negsuc (2 ^ w - 1 - x)

-- A conversion to a w-bit integer, signed or not: reduction modulo 2 ^ w.
abbrev pub wrap : ℕ → ℤ → ℕ
wrap w (pos n) = n % 2 ^ w
wrap w (negsuc n) = 2 ^ w - 1 - n % 2 ^ w

-- `a < b` on integers.
abbrev pub ltb_ℤ : ℤ → ℤ → Bool
ltb_ℤ (pos a) (pos b) = ltb a b
ltb_ℤ (pos a) (negsuc b) = Bool.false
ltb_ℤ (negsuc a) (pos b) = Bool.true
ltb_ℤ (negsuc a) (negsuc b) = ltb b a

-- The quotient by p, rounded towards minus infinity.
abbrev pub div_floor : ℤ → ℕ → ℤ
div_floor (pos n) p = pos (n / p)
div_floor (negsuc n) p = negsuc (n / p)
