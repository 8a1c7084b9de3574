-- ===== src/Flib/Bitop.antt =====
-- slake/flib/bitop.h: shifts that are defined for every count. Each function stands for its
-- four widths; an intN_t is a bit pattern below 2 ^ N.
pub mod Portable
pub mod Logical
use Prim.Native.Nat.{bit_or}
use slake.Prelude.{ℕ, ◌-◌, ◌*◌, ◌/◌, ◌%◌, ◌^◌, ◌==◌, Option, none, some, leb, if◌then◌else◌}
use slake.Words.{signed, wrap, div_floor}

pub data Width : Type 0 where
  w8 w16 w32 w64 : Width

abbrev pub bits : Width → ℕ
bits w8 = 8
bits w16 = 16
bits w32 = 32
bits w64 = 64

-- The width in which C computes `0xff.. << n`: that of `int` for the narrow masks.
abbrev pub promoted : Width → ℕ
promoted w8 = 32
promoted w16 = 32
promoted w32 = 32
promoted w64 = 64

-- shr_signed8 .. shr_signed64 where the compiler's `>>` is the arithmetic shift (x86).
unfoldable pub shr_signed : Width → ℕ → ℕ → ℕ
shr_signed w lhs rhs =
    if leb (bits w) rhs then 0 else wrap (bits w) (div_floor (signed (bits w) lhs) (2 ^ rhs))

-- `ones << count` in the promoted width; `none` is a count that C leaves undefined.
pub mask_shl : Width → ℕ → Option ℕ
mask_shl w count =
    if leb (promoted w) count then none else some ((2 ^ bits w - 1) * 2 ^ count % 2 ^ promoted w)

-- `unsigned_lhs >>= rhs; unsigned_lhs |= mask`, cut to the width.
abbrev pub fill : Width → ℕ → Option ℕ → Option ℕ
fill w shifted none = none
fill w shifted (some mask) = some (bit_or shifted mask % 2 ^ bits w)

-- The branch of the same functions for other machines. The sign is bit N - 1.
pub shr_signed_portable : Width → ℕ → ℕ → Option ℕ
unfolding mask_shl
shr_signed_portable w lhs rhs =
    if leb (bits w) rhs
    then some 0
    else if lhs / 2 ^ (bits w - 1) % 2 == 1
    then fill w (lhs / 2 ^ rhs) (mask_shl w (bits w - rhs))
    else some (lhs / 2 ^ rhs % 2 ^ bits w)

-- shr_unsigned8 .. shr_unsigned64
pub shr_unsigned_at : Width → ℕ → ℕ → ℕ
shr_unsigned_at w lhs rhs = if leb (bits w) rhs then 0 else lhs / 2 ^ rhs % 2 ^ bits w

-- shl_signed8 .. shl_signed64: the pattern moves left and its high bits are lost.
unfoldable pub shl_signed_at : Width → ℕ → ℕ → ℕ
shl_signed_at w lhs rhs = if leb (bits w) rhs then 0 else lhs * 2 ^ rhs % 2 ^ bits w

-- shl_unsigned8 .. shl_unsigned64
unfoldable pub shl_unsigned_at : Width → ℕ → ℕ → ℕ
shl_unsigned_at w lhs rhs = if leb (bits w) rhs then 0 else lhs * 2 ^ rhs % 2 ^ bits w

-- The overloads `shl_signed`, `shr_signed`, `shl_unsigned` and `shr_unsigned` pass on to the
-- functions above by the width of their argument; `shr_unsigned` passes on to `shl_unsigned`.
pub shl_signed_overload : Width → ℕ → ℕ → ℕ
unfolding shl_signed_at
shl_signed_overload w lhs rhs = shl_signed_at w lhs rhs

pub shr_signed_overload : Width → ℕ → ℕ → ℕ
unfolding shr_signed
shr_signed_overload w lhs rhs = shr_signed w lhs rhs

pub shl_unsigned_overload : Width → ℕ → ℕ → ℕ
unfolding shl_unsigned_at
shl_unsigned_overload w lhs rhs = shl_unsigned_at w lhs rhs

unfoldable pub shr_unsigned_overload : Width → ℕ → ℕ → ℕ
unfolding shl_unsigned_at
shr_unsigned_overload w lhs rhs = shl_unsigned_at w lhs rhs
