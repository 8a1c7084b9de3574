-- ===== src/Flib.antt =====
-- slake/flib and the operand conversions of slake/obj/fn.h: the arithmetic of the instructions.
pub mod Bitop
pub mod Cmp
pub mod Operand
