-- ===== src/Trap/Pending.antt =====
-- src/trap.c: the handler onsig, dotrap, and the end of the shell.
use gwsh.Base.{
  ℕ, zero, suc, ◌-◌, Bool, true, false, not, ◌&&◌, ◌||◌, Option, none, some, Bytes, ◌==◌,
  if◌then◌else◌,
}
use gwsh.Base.Run.{Outcome, ok, err, Run, ◌>>=◌, fail}
use gwsh.Eval.Shell.{Skip, go_on, skip_funcr}
use gwsh.Trap.State.{Signals, Traps, Raised, interrupt, null_pointer}
use gwsh.Trap.Signal.{set, have_traps}

abbrev pub T : Type 0 → Type 0 → Type 0
T S A = Run Raised (Traps S) A

abbrev pub is_null : Option Bytes → Bool
is_null none = true
is_null (some s) = false

abbrev pub no_trap : {S : Type 0} → ℕ → Traps S → Bool
no_trap signo st = not (have_traps st) || is_null (st.trap signo)

-- An interrupt without a trap is raised at once, where it is not suppressed.
abbrev pub catch : {S : Type 0} → Signals → ℕ → T S Unit
catch sig signo st =
    if signo == sig.sigint && no_trap signo st
    then (if st.suppressint then ok tt (record st { intpending = true }) else err interrupt st)
    else ok tt (record st { gotsig = set signo true st.gotsig; pending_sig = signo })

unfoldable pub onsig : {S : Type 0} → Signals → ℕ → T S Unit
onsig sig signo st =
    if signo == sig.sigchld
    then (let st' = record st { gotsigchld = true } in
        if no_trap signo st' then ok tt st' else catch sig signo st')
    else catch sig signo st

abbrev pub goes_on : Skip → Bool
goes_on go_on = true
goes_on _ = false

-- evalskip & SKIPFUNCR
abbrev pub has_value : Skip → Bool
has_value skip_funcr = true
has_value _ = false

-- evalstring of an action; it reads its text.
abbrev pub eval_action : {S : Type 0} → (Bytes → T S Unit) → Option Bytes → T S Unit
eval_action eval none = fail null_pointer
eval_action eval (some p) = eval p

abbrev pub keep_status : {S : Type 0} → Traps S → Traps S
keep_status st = if has_value st.evalskip then st else record st { exitstatus = st.savestatus }

-- The loop of dotrap from the signal `i` on, with `n` to go.
unfoldable pub dotrap_from : {S : Type 0} → (Bytes → T S Unit) → ℕ → ℕ → T S Unit
dotrap_from eval zero i st = ok tt st
dotrap_from {S = S} eval (suc n) i st =
    let next : Traps S → Outcome Raised (Traps S) Unit = λ st'. dotrap_from eval n (suc i) st' in
    if not (st.gotsig i)
    then next st
    else if not (goes_on st.evalskip)
    then ok tt (record st { pending_sig = i })
    else (eval_action eval (st.trap i) >>= λ _ st'. next (keep_status st'))
        (record st { gotsig = set i false st.gotsig })

unfoldable pub dotrap : {S : Type 0} → Signals → (Bytes → T S Unit) → T S Unit
unfolding dotrap_from
dotrap sig eval st =
    if st.pending_sig == 0
    then ok tt st
    else (dotrap_from eval (sig.nsig - 1) 1 >>= λ _ st'.
          ok tt (record st' { savestatus = st.savestatus }))
        (record st { savestatus = st.exitstatus; pending_sig = 0 })

-- The trap on EXIT.
abbrev pub exit_trap : {S : Type 0} → (Bytes → T S Unit) → Option Bytes → T S Unit
exit_trap eval none st = ok tt st
exit_trap eval (some p) st = eval p (record st { evalskip = go_on })

abbrev pub last_actions : {S : Type 0} → Signals → (Bytes → T S Unit) → T S Unit
last_actions sig eval st =
    if have_traps st
    then (dotrap sig eval >>= λ _ st'. exit_trap eval (st'.trap 0) st') st
    else ok tt st

-- The argument of _exit: an exception in an action ends the actions.
abbrev pub exit_status : {S : Type 0} → Outcome Raised (Traps S) Unit → Outcome Raised (Traps S) ℕ
exit_status (ok _ st) = ok st.savestatus st
exit_status (err null_pointer st) = err null_pointer st
exit_status (err e st) = ok st.exitstatus st

unfoldable pub exitshell : {S : Type 0} → Signals → (Bytes → T S Unit) → T S ℕ
unfolding dotrap
exitshell sig eval st =
    exit_status (last_actions sig eval (record st { savestatus = st.exitstatus }))
