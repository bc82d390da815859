-- ===== src/Var.antt =====
-- src/var.c and src/var.h: shell variables.
pub mod Name
pub mod Table
pub mod Set
pub mod Local
pub mod Lookup
pub mod Restore
pub mod Edges
pub mod Number
pub mod Cmd
