-- ===== src/Expand.antt =====
-- src/expand.c: parts of the expansion of words.
pub mod Sort
pub mod Bracket
pub mod Pmatch
pub mod Ifs
