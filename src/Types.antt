-- ===== src/Types.antt =====
-- slake/type.h, type.cc, value.h and value.cc: types, references and values, and their orders.
pub mod Kinds
pub mod TypeRef
pub mod Reference
pub mod Value
