-- ===== src/Exec.antt =====
-- src/exec.c: the search for commands.
pub mod Path
pub mod Table
pub mod Find
pub mod Shellexec
