-- ===== src/Classes.antt =====
-- The inheritance of classes and interfaces and the nesting of structs of slake/obj/class.cc, and
-- the method tables of classes.
pub mod Bases
pub mod Interfaces
pub mod Recursion
pub mod Methods
