-- ===== src/Frames.antt =====
-- The data stack of a context, slake/obj/context.cc, and the major frames that slake/rt/exec.cc
-- puts on it. An offset counts from the end of the data stack downwards.
pub mod Stack
pub mod Major
