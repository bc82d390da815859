-- ===== src/Eval/Builtins.antt =====
-- src/eval.c: break, continue, return, true and false, and the call of a function.
use gwsh.Base.{ℕ, ◌+◌, false, Option, none, some, List, Bytes, ◌==◌, ltb, head_byte, if◌then◌else◌}
use gwsh.Base.Run.{Outcome, ok, err, ◌>>=◌, ret, fail, gets}
use gwsh.MyString.{Strtoimax, number}
use gwsh.Options.Nextopt.{Reader, nextarg, endargs}
use gwsh.Options.Params.{setparam}
use gwsh.Eval.Node.{Node}
use gwsh.Eval.Shell.{
  Skip, go_on, skip_break, skip_cont, skip_funcnr, skip_funcr, Shell, Raised, exerror, out_of_fuel,
  M, Flags,
}
use gwsh.Eval.Tree.{Ev, is_func}

abbrev pub of_option : {S A : Type 0} → Option A → M S A
of_option none = fail exerror
of_option (some a) = ret a

-- The one argument, if there is one.
abbrev pub one_arg : {S : Type 0} → Reader → M S (Option Bytes)
one_arg args = do
  found ← of_option (nextarg false args)
  _ ← of_option (endargs found.1)
  ret found.0

abbrev pub min : ℕ → ℕ → ℕ
min a b = if ltb b a then b else a

-- if (n > 0) { evalskip = ...; skipcount = n; }
abbrev pub skip_levels : {S : Type 0} → Skip → ℕ → M S ℕ
skip_levels skip n st =
    if n == 0 then ok 0 st else ok 0 (record st { evalskip = skip; skipcount = n })

abbrev pub count_arg : {S : Type 0} → Strtoimax → Option Bytes → M S ℕ
count_arg strtoimax none = ret 1
count_arg strtoimax (some ns) = of_option (number strtoimax ns)

-- break, and continue where the name starts with c
unfoldable pub breakcmd : {S : Type 0} → Strtoimax → Bytes → Reader → M S ℕ
unfolding nextarg endargs
breakcmd strtoimax name args = do
  ns ← one_arg args
  n ← count_arg strtoimax ns
  nest ← gets (λ st. st.loopnest)
  if n == 0
      then fail exerror
      else skip_levels (if head_byte name == b'c' then skip_cont else skip_break) (min n nest)

abbrev skip_all : {S : Type 0} → ℕ → M S ℕ
skip_all status st = ok status (record st { evalskip = skip_funcr })

abbrev return_with : {S : Type 0} → Strtoimax → Option Bytes → M S ℕ
return_with strtoimax none st = ok st.exitstatus (record st { evalskip = skip_funcnr })
return_with strtoimax (some ns) st =
    (of_option (number strtoimax ns) >>= λ status. skip_all status) st

unfoldable pub returncmd : {S : Type 0} → Strtoimax → Reader → M S ℕ
unfolding nextarg endargs
returncmd strtoimax args = do ns ← one_arg args; return_with strtoimax ns

unfoldable pub falsecmd : {S : Type 0} → M S ℕ
falsecmd = ret 1

unfoldable pub truecmd : {S : Type 0} → M S ℕ
truecmd = ret 0

-- evalskip &= ~SKIPFUNC
abbrev pub drop_func : Skip → Skip
drop_func skip = if is_func skip then go_on else skip

-- What evalfun gives back at the label funcdone: `st` is the state at the call.
abbrev pub restore : {S : Type 0} → Shell S → Shell S → Shell S
restore st st' = record st' {
  loopnest = st.loopnest;
  funcnest = st.funcnest;
  shellparam = st.shellparam;
  evalskip = drop_func st'.evalskip;
}

abbrev pub funcdone :
    {S : Type 0} → Shell S → Outcome Raised (Shell S) ℕ → Outcome Raised (Shell S) (Option Raised)
funcdone st (ok status st') = ok none (restore st st')
funcdone st (err out_of_fuel st') = err out_of_fuel st'
funcdone st (err e st') = ok (some e) (restore st st')

-- `argv` is what follows the name. The result is the exception that the body raised.
unfoldable pub evalfun : {S : Type 0} → Ev S → Node → List Bytes → Flags → M S (Option Raised)
unfolding setparam
evalfun ev body argv flags st = funcdone st (
    ev body flags
      (record st { funcnest = st.funcnest + 1; loopnest = 0; shellparam = setparam argv }))
