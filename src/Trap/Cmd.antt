-- ===== src/Trap/Cmd.antt =====
-- src/trap.c: the trap builtin.
use gwsh.Base.{
  ℕ, zero, suc, Bool, true, false, Option, none, some, List, [], ◌∷◌, Bytes, ◌==◌, ltb,
  if◌then◌else◌, bytes_eq, codes,
}
use gwsh.Base.Int.{ℤ}
use gwsh.MyString.{is_number}
use gwsh.Options.Nextopt.{Reader, Opt, nextopt}
use gwsh.Trap.State.{Signals, Traps}
use gwsh.Trap.Signal.{set, incr, decr, is_action, is_negative, setsignal, clear_traps}

-- The number in the text, if it is below NSIG.
abbrev pub below_nsig : Signals → Option ℕ → Option ℕ
below_nsig sig none = none
below_nsig sig (some signo) = if ltb signo sig.nsig then some signo else none

unfoldable pub decode_signum : Signals → Bytes → Option ℕ
unfolding is_number
decode_signum sig string = if is_number string then below_nsig sig (sig.atoi string) else none

abbrev pub is_name : Signals → Bytes → Option Bytes → Bool
is_name sig string none = false
is_name sig string (some name) = sig.strcasecmp_is_0 string name

-- From the name of the signal `signo` on.
unfoldable pub find_signal : Signals → Bytes → ℕ → List (Option Bytes) → Option ℕ
find_signal sig string signo [] = none
find_signal sig string signo (name ∷ names) =
    let rest = find_signal sig string (suc signo) names in
    if is_name sig string name then some signo else rest

abbrev pub or_else : Option ℕ → Option ℕ → Option ℕ
or_else none other = other
or_else (some n) other = some n

unfoldable pub decode_signal : Signals → Bytes → Option ℕ
unfolding decode_signum find_signal
decode_signal sig string =
    or_else (decode_signum sig string) (find_signal sig string 0 sig.signal_names)

-- `-` resets; any other action is taken.
abbrev pub next_action : Option Bytes → Option Bytes
next_action none = none
next_action (some action) = if bytes_eq action (codes "-") then none else some action

abbrev pub incr_if : Bool → ℤ → ℤ
incr_if true n = incr n
incr_if false n = n

abbrev pub decr_if : Bool → ℤ → ℤ
decr_if true n = decr n
decr_if false n = n

-- The trap is set; `action` is what next_action gives.
abbrev pub put_trap : {S : Type 0} → ℕ → Option Bytes → Traps S → Traps S
put_trap signo action st = record st {
  trapcnt = decr_if (is_action (st.trap signo)) (incr_if (is_action action) st.trapcnt);
  trap = set signo action st.trap;
}

abbrev pub set_trap : {S : Type 0} → Signals → ℕ → Option Bytes → Traps S → Traps S
set_trap sig signo action st =
    let st' = put_trap signo action st in if signo == 0 then st' else setsignal sig signo false st'

-- The loop over the words of trapcmd, with the status so far.
unfoldable pub trap_each :
    {S : Type 0} → Signals → List Bytes → Option Bytes → ℕ → Traps S → ℕ × Traps S
unfolding decode_signal setsignal
trap_each sig [] action status st = (status, st)
trap_each {S = S} sig (word ∷ words) action status st =
    elim (decode_signal sig word) as (λ _. ℕ × Traps S) [
      | none ↦ trap_each sig words action 1 st
      | some signo ↦
          trap_each sig words (next_action action) status
            (set_trap sig signo (next_action action) st)
    ]

-- Which traps are listed, in order.
unfoldable pub listed_traps : ℕ → ℕ → (ℕ → Option Bytes) → List (ℕ × Bytes)
listed_traps zero i trap = []
listed_traps (suc n) i trap =
    let rest = listed_traps n (suc i) trap in
    elim (trap i) as (λ _. List (ℕ × Bytes)) [ none ↦ rest | some action ↦ (i, action) ∷ rest ]

-- How trapcmd ends: with a listing, with a status, or with an option that is not known.
pub data Ended (S : Type 0) : Type 0 where
  listing : List (ℕ × Bytes) → Ended S
  status : ℕ → Traps S → Ended S
  illegal_option : ℕ → Ended S

abbrev pub as_status : {S : Type 0} → ℕ × Traps S → Ended S
as_status (n, st) = status n st

-- Traps that a subshell inherited are forgotten.
abbrev pub own_traps : {S : Type 0} → Signals → Traps S → Traps S
own_traps sig st = if is_negative st.trapcnt then clear_traps sig st else st

abbrev pub is_signum : Option ℕ → Bool
is_signum none = false
is_signum (some n) = true

-- Where there is one word, or the first is a number, there is no action.
abbrev pub trap_words : {S : Type 0} → Signals → List Bytes → Traps S → Ended S
trap_words sig [] st = listing (listed_traps sig.nsig 0 st.trap)
trap_words sig (word ∷ []) st = as_status (trap_each sig (word ∷ []) none 0 (own_traps sig st))
trap_words sig (word ∷ w ∷ words) st = as_status (
    if is_signum (decode_signum sig word)
    then trap_each sig (word ∷ w ∷ words) none 0 (own_traps sig st)
    else trap_each sig (w ∷ words) (some word) 0 (own_traps sig st))

abbrev pub trap_opt : {S : Type 0} → Signals → Opt → Traps S → Ended S
trap_opt sig (Opt.option c r) st = trap_words sig r.argptr st
trap_opt sig (Opt.at_end r) st = trap_words sig r.argptr st
trap_opt sig (Opt.illegal_option c) st = illegal_option c
trap_opt sig (Opt.no_arg c) st = illegal_option c

-- nextopt reads no option here.
unfoldable pub trapcmd : {S : Type 0} → Signals → Reader → Traps S → Ended S
unfolding nextopt trap_each listed_traps clear_traps decode_signum
trapcmd sig args st = trap_opt sig (nextopt [] args) st
