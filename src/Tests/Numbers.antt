-- ===== src/Tests/Numbers.antt =====
-- Examples for the shifts, the comparisons and the operands of slake/flib and slake/obj/fn.h.
use slake.Prelude.{◌≡◌, arith}
use slake.Flib.Bitop.{w8, shr_signed, shr_signed_portable}
use slake.Flib.Bitop.Portable.{shr_signed_portable-eq-shr_signed, defined_as, undefined_shift}

shr_signed_portable-eq-shr_signed_example :
    shr_signed_portable w8 200 3 ≡ defined_as (undefined_shift w8 200 3) (shr_signed w8 200 3)
shr_signed_portable-eq-shr_signed_example = shr_signed_portable-eq-shr_signed w8 200 3 (omega arith)
