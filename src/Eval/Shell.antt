-- ===== src/Eval/Shell.antt =====
-- src/eval.c and src/eval.h: the state of the evaluator, and what it calls in other files.
use gwsh.Base.{ℕ, Bool, List, Bytes}
use gwsh.Base.Run.{Run}
use gwsh.Options.Params.{Shparam}
use gwsh.Eval.Node.{Command, Redirect, Node, Nodes}

-- evalskip. skip_funcnr and skip_funcr are return without and with a value.
pub data Skip : Type 0 where
  go_on skip_break skip_cont skip_funcnr skip_funcr : Skip

-- The variables of eval.c, the options -e and -n, and the rest of the shell.
pub record Shell (S : Type 0) : Type 0 where
  pub evalskip : Skip
  pub skipcount : ℕ
  pub loopnest : ℕ
  pub funcnest : ℕ
  pub exitstatus : ℕ
  pub shellparam : Shparam
  pub eflag : Bool
  pub nflag : Bool
  pub env : S

-- What is raised: EXEXIT, EXERROR, or another exception. `out_of_fuel` belongs to the model only.
pub data Raised : Type 0 where
  exexit exerror : Raised
  exception : ℕ → Raised
  out_of_fuel : Raised

abbrev pub M : Type 0 → Type 0 → Type 0
M S A = Run Raised (Shell S) A

-- EV_EXIT, EV_TESTED and EV_XTRACE
pub record Flags : Type 0 where
  pub ev_exit : Bool
  pub ev_tested : Bool
  pub ev_xtrace : Bool

-- What other files and the functions for simple commands, pipelines and subshells do. `pushredir` is
-- expredir, pushredir and redirectsafe with the status of the last.
pub record Hooks (S : Type 0) : Type 0 where
  pub evalcommand : Command → Flags → M S ℕ
  pub evalpipe : Bool → Nodes → Flags → M S ℕ
  pub evalsubshell : Bool → Node → List Redirect → Flags → M S ℕ
  pub pushredir : List Redirect → M S ℕ
  pub popredir : List Redirect → M S Unit
  pub dotrap : M S Unit
  pub waitforjob : M S Unit
  pub expandarg : Bytes → M S (List Bytes)
  pub expandword : Bytes → M S Bytes
  pub casematch : Bytes → Bytes → M S Bool
  pub setvar : Bytes → Bytes → M S Unit
  pub defun : Bytes → Node → M S Unit
