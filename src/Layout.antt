-- ===== src/Layout.antt =====
-- Sizes, alignments and field offsets: the type sizes of slake/runtime.cc, the object layout of
-- rt/new.cc and the static field storage of obj/module.cc.
pub mod Sizes
pub mod Fields
