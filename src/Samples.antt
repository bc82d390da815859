-- ===== src/Samples.antt =====
-- Runs of the model on concrete inputs, and the theorems at inputs that meet their hypotheses.
mod Libc
mod Arith
mod Test
mod Options
mod Alias
mod Var
mod Eval
mod Cd
mod Redir
mod Trap
mod Exec
mod Jobs
mod Expand
