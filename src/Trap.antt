-- ===== src/Trap.antt =====
-- src/trap.c: traps and signals.
pub mod State
pub mod Signal
pub mod Cmd
pub mod Pending
pub mod Count
pub mod Edges
pub mod Frame
pub mod Handled
pub mod Ignored
