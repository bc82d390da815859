-- ===== src/Eval.antt =====
-- src/eval.c and src/nodetypes: the evaluation of parse trees, by evaltree and the functions for loops,
-- case and functions that it calls.
pub mod Node
pub mod Shell
pub mod Tree
pub mod Builtins
pub mod Breaks
