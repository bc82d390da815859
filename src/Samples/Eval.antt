-- ===== src/Samples/Eval.antt =====
-- Evaluation of concrete trees.
use gwsh.Base.{
  true, suc, some, ℕ, ◌≡◌, refl, false, String, List, [], ◌∷◌, Bytes, codes, bytes_eq,
  if◌then◌else◌,
}
use gwsh.Base.{none as no_text}
use gwsh.Base.Run.{ok, ret}
use gwsh.Options.Params.{setparam}
use gwsh.Eval.Node.{Command, Node, ncmd, nwhile, nnot, nsemi}
use gwsh.Eval.Shell.{go_on, skip_cont, skip_break, Shell, M, Flags, Hooks}
use gwsh.Eval.Tree.{evaltree}
use gwsh.Eval.Builtins.{breakcmd}
use gwsh.Eval.Breaks.{IsFewest, unwind, leaves, breakcmd-unwind}
use gwsh.Samples.Libc.{decimal, digits}
use gwsh.MyString.{number, skip_spaces}
use gwsh.Intmax.{is_neg}

abbrev words : List String → List Bytes
words [] = []
words (s ∷ ss) = codes s ∷ words ss

abbrev first : List Bytes → Bytes
first [] = []
first (w ∷ ws) = w

abbrev rest : List Bytes → List Bytes
rest [] = []
rest (w ∷ ws) = ws

-- break, continue, false, and commands that do nothing
abbrev run_command : Command → M Unit ℕ
run_command c =
    if bytes_eq (first c.args) (codes "break")
    then breakcmd decimal (codes "break")
        (record { argptr = rest c.args; optptr = no_text; optionarg = no_text })
    else if bytes_eq (first c.args) (codes "false")
    then ret 1
    else ret 0

abbrev plain_hooks : Hooks Unit
plain_hooks = record {
  evalcommand = λ c flags. run_command c;
  evalpipe = λ b ns flags. ret 0;
  evalsubshell = λ b n r flags. ret 0;
  pushredir = λ r. ret 0;
  popredir = λ r. ret tt;
  dotrap = ret tt;
  waitforjob = ret tt;
  expandarg = λ w. ret (w ∷ []);
  expandword = λ w. ret w;
  casematch = λ p v. ret (bytes_eq p v);
  setvar = λ x v. ret tt;
  defun = λ x n. ret tt;
}

abbrev cmd : List String → Node
cmd ss = ncmd (record { linno = 1; assign = []; args = words ss; redirect = [] })

abbrev plain : Flags
plain = record { ev_exit = false; ev_tested = false; ev_xtrace = false }

abbrev fresh : Shell Unit
fresh = record {
  evalskip = go_on;
  skipcount = 0;
  loopnest = 0;
  funcnest = 0;
  exitstatus = 0;
  shellparam = setparam [];
  eflag = false;
  nflag = false;
  env = tt;
}

-- while :; do while :; do break 2; done; done; ! :
abbrev two_loops : Node
two_loops =
    nsemi (nwhile (cmd (":" ∷ [])) (nwhile (cmd (":" ∷ [])) (cmd ("break" ∷ "2" ∷ []))))
      (nnot (cmd (":" ∷ [])))

loops_end : evaltree plain_hooks 12 two_loops plain fresh ≡ ok 1 (record fresh { exitstatus = 1 })
unfolding evaltree breakcmd bytes_eq number digits skip_spaces is_neg
loops_end = refl

-- Three loops.
abbrev in_loops : Shell Unit
in_loops = record fresh { loopnest = 3 }

two_is : number decimal (codes "2") ≡ some 2
unfolding number digits skip_spaces is_neg
two_is = refl

breakcmd-unwind_example :
    (m : ℕ) × IsFewest (suc m) 2 3
    × ((st' : Shell Unit) × (breakcmd decimal
            (codes "continue")
            (record { argptr = codes "2" ∷ []; optptr = no_text; optionarg = no_text })
            in_loops
          ≡ ok 0 st')
        × (unwind (suc m) st' ≡ (leaves m skip_cont, in_loops)))
breakcmd-unwind_example =
    breakcmd-unwind decimal true (codes "2") 2 in_loops two_is (λ e. absurd cc) (λ e. absurd cc)

-- `continue 2` leaves the innermost loop and goes on with the one around it.
tested_continue :
    unwind 2 (record in_loops { evalskip = skip_cont; skipcount = 2 })
    ≡ (skip_break ∷ skip_cont ∷ [], in_loops)
unfolding unwind
tested_continue = refl
