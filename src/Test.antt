-- ===== src/Test.antt =====
-- src/bltin/test.c: the test and [ builtins.
pub mod Ops
pub mod File
pub mod Monad
pub mod Eval
pub mod Cmd
pub mod Ends
