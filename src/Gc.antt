-- ===== src/Gc.antt =====
-- The garbage collector of rt/gc_heapless.cc and rt/gc.cc.
pub mod Heap
pub mod Walk
pub mod Collection
pub mod Mark
pub mod Sweep
pub mod Serial
pub mod Generations
