-- ===== src/Trap/Ignored.antt =====
-- A signal that is ignored when the shell is entered cannot be trapped.
use gwsh.Base.{ℕ, ◌≡◌, refl, sym, subst, Bool, false, ◌==◌, Bool-cases, inl, inr, if_cases, ==_iff}
use gwsh.Options.Nextopt.{Reader}
use gwsh.Trap.State.{Signals, Sigmode, unknown, Handler, sig_ign, Traps}
use gwsh.Trap.Signal.{from_mode, set_action, setsignal, wanted, clear_traps}
use gwsh.Trap.Cmd.{trapcmd}
use gwsh.Trap.Frame.{Left, setsignal_keeps, clear_traps_keeps, trapcmd_keeps}

-- The shell has not touched the signal, which the system ignores.
abbrev pub IsIgnored : {S : Type 0} → ℕ → Traps S → Type 0
IsIgnored s st = (st.sigmode s ≡ unknown) × (st.sigaction s ≡ sig_ign)

module _ {S : Type 0} (s : ℕ) where
  set_action-IsIgnored :
      (signo : ℕ) (action : Sigmode) (st : Traps S)
      → (s == signo) ≡ false
      → IsIgnored s st
      → IsIgnored s (set_action signo action st)
  set_action-IsIgnored signo action st other h = (
    rw other h.0,
    if_cases (λ (f : ℕ → Handler). f s ≡ sig_ign) (st.sigaction_fails signo) (λ _. h.1)
        (λ _. rw other h.1),
  )

  from_mode_here :
      (action : Sigmode) (st : Traps S) → IsIgnored s st → from_mode s action (st.sigmode s) st ≡ st
  from_mode_here action st h =
      rw (h.0, h.1)
        (if_cases (λ (x : Traps S). x ≡ st) (st.sigaction_fails s) (λ _. refl) (λ _. refl))

  setsignal_here :
      (sig : Signals) (subshell : Bool) (st : Traps S)
      → IsIgnored s st
      → setsignal sig s subshell st ≡ st
  unfolding setsignal
  setsignal_here sig subshell st h = from_mode_here (wanted sig s subshell st) st h

  setsignal-IsIgnored :
      (sig : Signals) (signo : ℕ) (subshell : Bool) (st : Traps S)
      → IsIgnored s st
      → IsIgnored s (setsignal sig signo subshell st)
  setsignal-IsIgnored sig signo subshell st h = elim (Bool-cases (s == signo)) [
    | inl same ↦
        subst (λ k. IsIgnored s (setsignal sig k subshell st)) ((==_iff s signo).0 same)
          (subst (IsIgnored s) (sym (setsignal_here sig subshell st h)) h)
    | inr other ↦
        setsignal_keeps (IsIgnored s) sig signo subshell st h
          λ action. set_action-IsIgnored signo action st other h
  ]

  -- A signal that the system ignored when the shell began, and that the shell has not touched, stays
  -- ignored: neither the trap builtin with any operands, nor clear_traps on the way into a subshell, nor
  -- setsignal for any signal gives it another action.
  pub trapcmd-IsIgnored :
      (sig : Signals) (args : Reader) (signo : ℕ) (subshell : Bool) (st : Traps S)
      → IsIgnored s st
      → Left (IsIgnored s) (trapcmd sig args st)
        × IsIgnored s (clear_traps sig st)
        × IsIgnored s (setsignal sig signo subshell st)
  trapcmd-IsIgnored sig args signo subshell st h = (
    trapcmd_keeps (IsIgnored s) sig by_setsignal (λ _ _ p. p) (λ _ _ p. p) args st h,
    clear_traps_keeps (IsIgnored s) sig by_setsignal (λ _ _ p. p) (λ _ _ p. p) st h,
    setsignal-IsIgnored sig signo subshell st h,
  )
    where
      by_setsignal :
          (signo : ℕ) (st : Traps S) → IsIgnored s st → IsIgnored s (setsignal sig signo false st)
      by_setsignal signo st h = setsignal-IsIgnored sig signo false st h
