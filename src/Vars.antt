-- ===== src/Vars.antt =====
-- The access to variables by references: slake/rt/var_access.cc.
pub mod Objects
pub mod Locate
pub mod Values
pub mod Read
pub mod Write
pub mod Numbers
pub mod Locals
pub mod Fields
pub mod Elements
pub mod Instructions
pub mod Defaults
pub mod Creation
