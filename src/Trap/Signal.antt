-- ===== src/Trap/Signal.antt =====
-- src/trap.c: setsignal, ignoresig and clear_traps.
use gwsh.Base.{
  ℕ, zero, suc, Bool, true, false, not, ◌||◌, Option, none, some, [], ◌∷◌, Bytes, ◌==◌,
  if◌then◌else◌,
}
use gwsh.Base.Int.{ℤ, pos, negsuc}
use gwsh.Trap.State.{
  Signals, Sigmode, unknown, s_dfl, s_catch, s_ign, s_hard_ign, s_reset, Handler, sig_dfl, sig_ign,
  sig_handler, Traps,
}

abbrev pub set : {A : Type 0} → ℕ → A → (ℕ → A) → ℕ → A
set i a f j = if j == i then a else f j

abbrev pub incr : ℤ → ℤ
incr (pos n) = pos (suc n)
incr (negsuc zero) = pos zero
incr (negsuc (suc n)) = negsuc n

abbrev pub decr : ℤ → ℤ
decr (pos zero) = negsuc zero
decr (pos (suc n)) = pos n
decr (negsuc n) = negsuc (suc n)

abbrev pub is_positive : ℤ → Bool
is_positive (pos (suc n)) = true
is_positive _ = false

-- *t, where t is not NULL
abbrev pub is_action : Option Bytes → Bool
is_action (some (c ∷ s)) = true
is_action _ = false

abbrev pub is_set : Option Bytes → Bool
is_set none = false
is_set (some s) = true

abbrev pub same_mode : Sigmode → Sigmode → Bool
same_mode s_dfl s_dfl = true
same_mode s_catch s_catch = true
same_mode s_ign s_ign = true
same_mode s_hard_ign s_hard_ign = true
same_mode s_reset s_reset = true
same_mode unknown unknown = true
same_mode _ _ = false

abbrev pub handler_of : Sigmode → Handler
handler_of s_catch = sig_handler
handler_of s_ign = sig_ign
handler_of _ = sig_dfl

abbrev pub mode_of : Handler → Sigmode
mode_of sig_ign = s_hard_ign
mode_of _ = s_reset

abbrev pub is_negative : ℤ → Bool
is_negative (pos n) = false
is_negative (negsuc n) = true

abbrev pub is_none_left : ℤ → Bool
is_none_left (pos zero) = true
is_none_left _ = false

abbrev pub have_traps : {S : Type 0} → Traps S → Bool
have_traps st = is_positive st.trapcnt

-- The action that the trap asks for.
abbrev pub by_trap : Bool → Option Bytes → Sigmode
by_trap traps none = s_dfl
by_trap traps (some []) = s_ign
by_trap traps (some (c ∷ s)) = if traps then s_catch else s_dfl

-- The default of an interactive shell, or of one with job control.
abbrev pub shell_default : {S : Type 0} → Signals → ℕ → Traps S → Sigmode
shell_default sig signo st =
    if signo == sig.sigint
    then (if st.iflag then s_catch else s_dfl)
    else if signo == sig.sigquit || signo == sig.sigterm
    then (if st.iflag then s_ign else s_dfl)
    else if signo == sig.sigtstp || signo == sig.sigttin || signo == sig.sigttou
    then (if st.mflag then s_ign else s_dfl)
    else s_dfl

abbrev pub for_shell : {S : Type 0} → Signals → ℕ → Bool → Traps S → Sigmode → Sigmode
for_shell sig signo subshell st s_dfl = if subshell then s_dfl else shell_default sig signo st
for_shell sig signo subshell st action = action

abbrev pub wanted : {S : Type 0} → Signals → ℕ → Bool → Traps S → Sigmode
wanted sig signo subshell st =
    if signo == sig.sigchld
    then s_catch
    else for_shell sig signo subshell st (by_trap (have_traps st) (st.trap signo))

abbrev pub set_action : {S : Type 0} → ℕ → Sigmode → Traps S → Traps S
set_action signo action st = record st {
  sigmode = set signo action st.sigmode;
  sigaction =
      if st.sigaction_fails signo then st.sigaction else set signo (handler_of action) st.sigaction;
}

-- `tsig` is what is set now.
abbrev pub change_action : {S : Type 0} → ℕ → Sigmode → Sigmode → Traps S → Traps S
change_action signo action s_hard_ign st = st
change_action signo action tsig st =
    if same_mode tsig action then st else set_action signo action st

abbrev pub from_mode : {S : Type 0} → ℕ → Sigmode → Sigmode → Traps S → Traps S
from_mode signo action unknown st =
    if st.sigaction_fails signo
    then st
    else change_action signo action (mode_of (st.sigaction signo)) st
from_mode signo action tsig st = change_action signo action tsig st

unfoldable pub setsignal : {S : Type 0} → Signals → ℕ → Bool → Traps S → Traps S
setsignal sig signo subshell st =
    from_mode signo (wanted sig signo subshell st) (st.sigmode signo) st

unfoldable pub ignoresig : {S : Type 0} → ℕ → Traps S → Traps S
ignoresig signo st =
    if same_mode (st.sigmode signo) s_ign || same_mode (st.sigmode signo) s_hard_ign
    then st
    else record st {
      sigmode = set signo s_ign st.sigmode;
      sigaction = set signo sig_ign st.sigaction;
    }

abbrev pub clear_trap : {S : Type 0} → Signals → ℕ → Traps S → Traps S
clear_trap sig i st =
    if not (is_action (st.trap i))
    then st
    else if is_none_left st.trapcnt
    then record st { trap = set i none st.trap }
    else if i == 0
    then st
    else setsignal sig i false st

-- The loop of clear_traps from the trap `i` on, with `n` to go.
unfoldable pub clear_from : {S : Type 0} → Signals → ℕ → ℕ → Traps S → Traps S
unfolding setsignal
clear_from sig zero i st = st
clear_from sig (suc n) i st = clear_from sig n (suc i) (clear_trap sig i st)

unfoldable pub clear_traps : {S : Type 0} → Signals → Traps S → Traps S
unfolding clear_from
clear_traps sig st =
    clear_from sig sig.nsig 0
      (record st { trapcnt = if is_positive st.trapcnt then negsuc 0 else pos 0 })
