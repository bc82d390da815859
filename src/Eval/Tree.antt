-- ===== src/Eval/Tree.antt =====
-- src/eval.c: evaltree, skiploop, evalloop, evalfor and evalcase.
use gwsh.Base.{
  ℕ, zero, suc, ◌+◌, ◌-◌, Bool, true, false, ◌&&◌, ◌||◌, not, List, [], ◌∷◌, ◌++◌, Bytes, ◌==◌, leb,
  if◌then◌else◌,
}
use gwsh.Base.Run.{ok, ◌>>=◌, ret, fail}
use gwsh.Eval.Node.{
  Redirect, Node, Clauses, none, ncmd, npipe, nredir, nbackgnd, nsubshell, nand, nor, nsemi, nif,
  nwhile, nuntil, nfor, ncase, ndefun, nnot, esac, clause,
}
use gwsh.Eval.Shell.{
  Skip, go_on, skip_break, skip_cont, skip_funcnr, skip_funcr, exexit, out_of_fuel, M, Flags, Hooks,
}

abbrev pub is_skip : Skip → Bool
is_skip go_on = false
is_skip _ = true

-- skip & SKIPFUNC
abbrev pub is_func : Skip → Bool
is_func skip_funcnr = true
is_func skip_funcr = true
is_func _ = false

-- skip & ~SKIPCONT
abbrev pub leaves_loop : Skip → Bool
leaves_loop go_on = false
leaves_loop skip_cont = false
leaves_loop _ = true

abbrev pub is_nonzero : ℕ → Bool
is_nonzero status = not (status == 0)

-- !status
abbrev pub negate : ℕ → ℕ
negate status = if status == 0 then 1 else 0

-- A loop that is left or gone on with: the count goes down, and at 0 the skipping ends.
abbrev pub count_down : {S : Type 0} → Skip → M S Skip
count_down skip st =
    if leb st.skipcount 1
    then ok skip (record st { skipcount = st.skipcount - 1; evalskip = go_on })
    else ok skip_break (record st { skipcount = st.skipcount - 1 })

abbrev pub skip_of : {S : Type 0} → Skip → M S Skip
skip_of skip_break = count_down skip_break
skip_of skip_cont = count_down skip_cont
skip_of skip = ret skip

unfoldable pub skiploop : {S : Type 0} → M S Skip
skiploop st = skip_of st.evalskip st

-- (flags & ~EV_EXIT) | EV_TESTED
abbrev pub tested : Flags → Flags
tested flags = record flags { ev_exit = false; ev_tested = true }

-- flags & ~EV_EXIT
abbrev pub no_exit : Flags → Flags
no_exit flags = record flags { ev_exit = false }

abbrev pub enter_loop : {S : Type 0} → M S Unit
enter_loop st = ok tt (record st { loopnest = st.loopnest + 1 })

abbrev pub leave_loop : {S : Type 0} → M S Unit
leave_loop st = ok tt (record st { loopnest = st.loopnest - 1 })

abbrev pub get_skip : {S : Type 0} → M S Skip
get_skip st = ok st.evalskip st

abbrev pub has_redirect : List Redirect → Bool
has_redirect [] = false
has_redirect (r ∷ rs) = true

abbrev pub is_none : Node → Bool
is_none none = true
is_none _ = false

abbrev pub is_esac : Clauses → Bool
is_esac esac = true
is_esac _ = false

-- `ev` is evaltree with less fuel.
abbrev pub Ev : Type 0 → Type 0
Ev S = Node → Flags → M S ℕ

module _ {S : Type 0} (hooks : Hooks S) where
  -- The loop of evalloop. Each round spends a unit of fuel.
  unfoldable pub while_loop : ℕ → Ev S → Bool → Node → Node → Flags → ℕ → M S ℕ
  unfolding skiploop
  while_loop zero ev is_until test body flags status = fail out_of_fuel
  while_loop (suc f) ev is_until test body flags status = do
    i ← ev test (tested flags)
    skip ← skiploop
    let status' = if is_func skip then i else status
    let again : ℕ → M S ℕ = while_loop f ev is_until test body flags
    let rest : M S ℕ = (do
      status'' ← ev body flags
      skip' ← skiploop
      if leaves_loop skip' then ret status'' else again status'')
    if is_skip skip
        then (if leaves_loop skip then ret status' else again status')
        else if is_nonzero (if is_until then negate i else i)
        then ret status'
        else rest

  unfoldable pub evalloop : ℕ → Ev S → Bool → Node → Node → Flags → M S ℕ
  unfolding while_loop
  evalloop f ev is_until test body flags = do
    _ ← enter_loop
    status ← while_loop f ev is_until test body (no_exit flags) 0
    _ ← leave_loop
    ret status

  unfoldable pub expand_each : List Bytes → M S (List Bytes)
  expand_each [] = ret []
  expand_each (arg ∷ args) = do
    words ← hooks.expandarg arg
    rest ← expand_each args
    ret (words ++ rest)

  unfoldable pub for_loop : Ev S → Bytes → Node → Flags → List Bytes → ℕ → M S ℕ
  unfolding skiploop
  for_loop ev var body flags [] status = ret status
  for_loop ev var body flags (word ∷ words) status = do
    _ ← hooks.setvar var word
    status' ← ev body flags
    skip ← skiploop
    if leaves_loop skip then ret status' else for_loop ev var body flags words status'

  unfoldable pub evalfor : Ev S → List Bytes → Node → Bytes → Flags → M S ℕ
  unfolding expand_each for_loop
  evalfor ev args body var flags = do
    words ← expand_each args
    _ ← enter_loop
    status ← for_loop ev var body (no_exit flags) words 0
    _ ← leave_loop
    ret status

  unfoldable pub match_any : List Bytes → Bytes → M S Bool
  match_any [] val = ret false
  match_any (pattern ∷ patterns) val = do
    matches ← hooks.casematch pattern val
    if matches then ret true else match_any patterns val

  -- The clauses from the one that matches on.
  unfoldable pub find_clause : Bytes → Clauses → M S Clauses
  unfolding match_any
  find_clause val esac = ret esac
  find_clause val (clause patterns body fallthrough next) = do
    matches ← match_any patterns val
    if matches then ret (clause patterns body fallthrough next) else find_clause val next

  -- flags & (~EV_EXIT | cp->type): a clause that falls through does not exit.
  abbrev pub clause_flags : Bool → Flags → Flags
  clause_flags fallthrough flags = if fallthrough then no_exit flags else flags

  unfoldable pub run_clauses : Ev S → Flags → Clauses → ℕ → M S ℕ
  run_clauses ev flags esac status = ret status
  run_clauses ev flags (clause patterns body fallthrough next) status = do
    let rest : ℕ → M S ℕ = run_clauses ev flags next
    let go_on_with : ℕ → M S ℕ = λ s. if not fallthrough || is_esac next then ret s else rest s
    if is_none body then go_on_with status else (do
      status' ← ev body (clause_flags fallthrough flags)
      skip ← get_skip
      if is_skip skip then ret status' else go_on_with status')

  unfoldable pub evalcase : Ev S → Bytes → Clauses → Flags → M S ℕ
  unfolding find_clause run_clauses
  evalcase ev expr cases flags = do
    val ← hooks.expandword expr
    found ← find_clause val cases
    run_clauses ev flags found 0

  -- exitstatus = status; the status is the result, with whether -e is to be looked at.
  abbrev pub set_status : Bool → ℕ → M S (ℕ × Bool)
  set_status checkexit status st = ok (status, checkexit) (record st { exitstatus = status })

  -- What follows the first command of a list, where it is run.
  abbrev pub second : Ev S → Bool → Node → Flags → ℕ → M S (ℕ × Bool)
  second ev stop n flags status = do
    skip ← get_skip
    let rest : M S (ℕ × Bool) = (do s ← ev n flags; set_status false s)
    if stop || is_skip skip then ret (status, false) else rest

  -- if test: the then part, the else part, or nothing
  abbrev pub branch : Ev S → Node → Node → Flags → ℕ → M S (ℕ × Bool)
  branch ev ifpart elsepart flags status = do
    skip ← get_skip
    let yes : M S (ℕ × Bool) = (do s ← ev ifpart flags; set_status false s)
    let no : M S (ℕ × Bool) = (do s ← ev elsepart flags; set_status false s)
    if is_skip skip
        then ret (status, false)
        else if status == 0
        then yes
        else if is_none elsepart
        then set_status false 0
        else no

  abbrev pub redirected : Ev S → Node → Flags → ℕ → M S ℕ
  redirected ev n flags status = if status == 0 then ev n (no_exit flags) else ret status

  -- The switch of evaltree. `f` is the fuel for the rounds of a loop.
  unfoldable pub eval_node : ℕ → Ev S → Node → Flags → M S (ℕ × Bool)
  unfolding evalloop evalfor evalcase
  eval_node f ev none flags = ret (0, false)
  eval_node f ev (ncmd c) flags = do
    status ← hooks.evalcommand c flags
    set_status (not flags.ev_tested) status
  eval_node f ev (npipe backgnd nodes) flags = do
    status ← hooks.evalpipe backgnd nodes flags
    set_status (not flags.ev_tested) status
  eval_node f ev (nredir n redirect) flags = do
    pushed ← hooks.pushredir redirect
    status ← redirected ev n flags pushed
    _ ← (if has_redirect redirect then hooks.popredir redirect else ret tt)
    set_status (not flags.ev_tested) status
  eval_node f ev (nbackgnd n redirect) flags = do
    status ← hooks.evalsubshell true n redirect flags
    set_status (not flags.ev_tested) status
  eval_node f ev (nsubshell n redirect) flags = do
    status ← hooks.evalsubshell false n redirect flags
    set_status (not flags.ev_tested) status
  eval_node f ev (nand a b) flags = do
    status ← ev a (tested flags)
    second ev (is_nonzero status) b flags status
  eval_node f ev (nor a b) flags = do
    status ← ev a (tested flags)
    second ev (status == 0) b flags status
  eval_node f ev (nsemi a b) flags = do
    status ← ev a (no_exit flags)
    second ev false b flags status
  eval_node f ev (nif test ifpart elsepart) flags = do
    status ← ev test (tested flags)
    branch ev ifpart elsepart flags status
  eval_node f ev (nwhile test body) flags = do
    status ← evalloop f ev false test body flags
    set_status false status
  eval_node f ev (nuntil test body) flags = do
    status ← evalloop f ev true test body flags
    set_status false status
  eval_node f ev (nfor args body var) flags = do
    status ← evalfor ev args body var flags
    set_status false status
  eval_node f ev (ncase expr cases) flags = do
    status ← evalcase ev expr cases flags
    set_status false status
  eval_node f ev (ndefun text body) flags = do _ ← hooks.defun text body; set_status false 0
  eval_node f ev (nnot n) flags = do
    status ← ev n (tested flags)
    skip ← get_skip
    if is_func skip then ret (status, false) else set_status false (negate status)

  -- dotrap, and then the switch, unless -n is set
  abbrev pub start : ℕ → Ev S → Node → Flags → M S (ℕ × Bool)
  start f ev n flags st =
      if is_none n || st.nflag
      then ok (0, false) st
      else (hooks.dotrap >>= λ _. eval_node f ev n flags) st

  -- from the label out on
  abbrev pub finish : Flags → ℕ × Bool → M S ℕ
  finish flags r = do
    _ ← hooks.waitforjob
    _ ← hooks.dotrap
    st ← (λ st. ok st st)
    if r.1 && is_nonzero r.0 && st.eflag || flags.ev_exit then fail exexit else ret st.exitstatus

  -- Each call spends a unit of fuel, and leaves the rest to the rounds of a loop.
  unfoldable pub evaltree : ℕ → Node → Flags → M S ℕ
  unfolding eval_node
  evaltree zero n flags = fail out_of_fuel
  evaltree (suc f) n flags = do r ← start f (evaltree f) n flags; finish flags r
