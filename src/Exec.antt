-- ===== src/Exec.antt =====
-- The interpreter of slake/rt/exec.cc: the bytes that the registers lie in, the numbers that the
-- instructions compute with, the instructions and the loop over them.
pub mod Memory
pub mod Scalars
pub mod Arith
pub mod Opcode
pub mod Machine
pub mod Effects
pub mod Numeric
pub mod Moves
pub mod ObjectCasts
pub mod Shifts
pub mod Calls
pub mod MinorFrames
pub mod Ins
pub mod Loop
