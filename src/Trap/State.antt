-- ===== src/Trap/State.antt =====
-- src/trap.c: the state of the traps and of the signals.
use gwsh.Base.{ℕ, Bool, Option, List, Bytes}
use gwsh.Base.Int.{ℤ}
use gwsh.Eval.Shell.{Skip}

-- signal.h, signames.c and the functions of the C library that names and numbers go through. atoi gives
-- none for a number that is not positive or zero.
pub record Signals : Type 0 where
  pub nsig : ℕ
  pub sigint : ℕ
  pub sigquit : ℕ
  pub sigterm : ℕ
  pub sigtstp : ℕ
  pub sigttin : ℕ
  pub sigttou : ℕ
  pub sigchld : ℕ
  pub signal_names : List (Option Bytes)
  pub strcasecmp_is_0 : Bytes → Bytes → Bool
  pub atoi : Bytes → Option ℕ

-- sigmode; `unknown` is 0.
pub data Sigmode : Type 0 where
  unknown s_dfl s_catch s_ign s_hard_ign s_reset : Sigmode

-- What the system does with a signal: the handler is onsig.
pub data Handler : Type 0 where
  sig_dfl sig_ign sig_handler : Handler

-- The variables of trap.c, those of other files that it reads, and what the system holds. The bytes of
-- sigmode and gotsig are found by the number of the signal.
pub record Traps (S : Type 0) : Type 0 where
  pub trap : ℕ → Option Bytes
  pub trapcnt : ℤ
  pub sigmode : ℕ → Sigmode
  pub gotsig : ℕ → Bool
  pub pending_sig : ℕ
  pub gotsigchld : Bool
  pub intpending : Bool
  pub suppressint : Bool
  pub iflag : Bool
  pub mflag : Bool
  pub evalskip : Skip
  pub exitstatus : ℕ
  pub savestatus : ℕ
  pub sigaction : ℕ → Handler
  pub sigaction_fails : ℕ → Bool
  pub env : S

-- What is raised: the interrupt of onint, another exception of an action, or a read by a null pointer.
pub data Raised : Type 0 where
  interrupt null_pointer : Raised
  exception : ℕ → Raised
