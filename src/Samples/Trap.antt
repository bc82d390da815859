-- ===== src/Samples/Trap.antt =====
-- The signals of a small system, and traps over them.
use gwsh.Base.{
  ℕ, zero, suc, ◌+◌, ◌-◌, ◌*◌, ◌≤◌, ◌<◌, ◌≡◌, refl, Bool, true, false, ◌&&◌, none, some, List, [],
  ◌∷◌, Bytes, leb, if◌then◌else◌, arith, codes, bytes_eq, inl,
}
use gwsh.Base.Int.{pos}
use gwsh.Base.Run.{Outcome, ok, err, Ends}
use gwsh.Syntax.{is_digit}
use gwsh.Eval.Shell.{go_on}
use gwsh.Options.Nextopt.{Reader}
use gwsh.Trap.State.{Signals, unknown, s_catch, sig_ign, Traps, Raised, null_pointer}
use gwsh.Trap.Signal.{set, setsignal, clear_traps}
use gwsh.Trap.Cmd.{Ended, listing, status, illegal_option, trapcmd}
use gwsh.Trap.Pending.{T, dotrap}
use gwsh.Trap.Frame.{Left}
use gwsh.Trap.Count.{IsCounted, IsConsistent, trapcmd-IsCounted}
use gwsh.Trap.Edges.{dotrap_null}
use gwsh.Trap.Handled.{plain_action, dotrap_handles}
use gwsh.Trap.Ignored.{IsIgnored, trapcmd-IsIgnored}

unfoldable lower : Bytes → Bytes
lower [] = []
lower (c ∷ s) = (if leb 65 c && leb c 90 then c + 32 else c) ∷ lower s

unfoldable value : ℕ → Bytes → ℕ
value n [] = n
value n (c ∷ s) = value (n * 10 + (c - 48)) s

abbrev signals : Signals
unfolding lower value
signals = record {
  nsig = 20;
  sigint = 2;
  sigquit = 3;
  sigterm = 15;
  sigtstp = 18;
  sigttin = 19;
  sigttou = 16;
  sigchld = 17;
  signal_names =
      some (codes "EXIT") ∷ some (codes "HUP") ∷ some (codes "INT") ∷ some (codes "QUIT") ∷ [];
  strcasecmp_is_0 = λ a b. bytes_eq (lower a) (lower b);
  atoi = λ s. some (value 0 s);
}

-- A shell that is not interactive, whose traps on HUP and QUIT have an action, and whose other state is
-- the list of the actions that were run.
abbrev trapped : Traps (List Bytes)
trapped = record {
  trap = set 1 (some (codes "a")) (set 3 (some (codes "b")) (λ _. none));
  trapcnt = pos 2;
  sigmode = set 1 s_catch (set 3 s_catch (λ _. unknown));
  gotsig = λ _. false;
  pending_sig = 0;
  gotsigchld = false;
  intpending = false;
  suppressint = false;
  iflag = false;
  mflag = false;
  evalskip = go_on;
  exitstatus = 7;
  savestatus = 0;
  sigaction = λ _. sig_ign;
  sigaction_fails = λ _. false;
  env = [];
}

abbrev args : List Bytes → Reader
args words = record { argptr = words; optptr = none; optionarg = none }

abbrev log : Bytes → List Bytes → List Bytes
log p done = p ∷ done

-- HUP and QUIT have come.
abbrev received : Traps (List Bytes)
received = record trapped { gotsig = set 1 true (set 3 true (λ _. false)); pending_sig = 3 }

HasTraps-received : (s : ℕ) → received.gotsig s ≡ true → (p : Bytes) × (received.trap s ≡ some p)
HasTraps-received zero h = absurd cc
HasTraps-received (suc zero) h = (codes "a", refl)
HasTraps-received (suc (suc zero)) h = absurd cc
HasTraps-received (suc (suc (suc zero))) h = (codes "b", refl)
HasTraps-received (suc (suc (suc (suc s)))) h = absurd (ground (arith, h))

dotrap_handles_example :
    Ends
      (λ _ st'.
        (st'.env ≡ codes "b" ∷ codes "a" ∷ [])
        × ((s : ℕ) → 1 ≤ s → s < 20 → st'.gotsig s ≡ false)
        × (st'.pending_sig ≡ 0)
        × (st'.exitstatus ≡ 7)
        × (st'.savestatus ≡ 0))
      (λ _ _. ⊥)
      (dotrap signals (plain_action log (λ _ _. 1)) received)
unfolding signals
dotrap_handles_example = dotrap_handles signals log (λ _ _. 1) received refl HasTraps-received refl

trapcmd-IsIgnored_example :
    Left (IsIgnored 2) (trapcmd signals (args (codes "x" ∷ codes "int" ∷ codes "HUP" ∷ [])) trapped)
    × IsIgnored 2 (clear_traps signals trapped)
    × IsIgnored 2 (setsignal signals 2 true trapped)
trapcmd-IsIgnored_example =
    trapcmd-IsIgnored 2 signals (args (codes "x" ∷ codes "int" ∷ codes "HUP" ∷ [])) 2 true trapped
      (refl, refl)

trapcmd-IsCounted_example :
    Left
      (IsCounted signals)
      (trapcmd signals (args (codes "x" ∷ codes "int" ∷ codes "3" ∷ [])) trapped)
    × IsConsistent signals (clear_traps signals trapped)
    × IsConsistent signals (setsignal signals 3 false trapped)
unfolding signals
trapcmd-IsCounted_example =
    trapcmd-IsCounted signals (args (codes "x" ∷ codes "int" ∷ codes "3" ∷ [])) 3 trapped
      (omega arith) (inl refl)

abbrev left : Ended (List Bytes) → Outcome Raised (Traps (List Bytes)) Unit
left (listing traps) = err null_pointer trapped
left (status n st) = ok tt st
left (illegal_option c) = err null_pointer trapped

-- The action of HUP is `trap - QUIT`.
abbrev reset_quit : Bytes → T (List Bytes) Unit
reset_quit p st = left (trapcmd signals (args (codes "-" ∷ codes "QUIT" ∷ [])) st)

abbrev untrapped : Traps (List Bytes)
untrapped = record received { trap = set 3 none received.trap; gotsig = set 3 true (λ _. false) }

dotrap_null_example :
    dotrap signals reset_quit untrapped
    ≡ err null_pointer (record untrapped {
      gotsig = set 3 false untrapped.gotsig;
      savestatus = 7;
      pending_sig = 0;
    })
unfolding signals
dotrap_null_example =
    dotrap_null signals reset_quit 3 untrapped refl refl (omega arith) (omega arith) below refl refl
  where
    below : (j : ℕ) → 1 ≤ j → j < 3 → untrapped.gotsig j ≡ false
    below j a b = ground arith

abbrev is_null_read : Outcome Raised (Traps (List Bytes)) Unit → Bool
is_null_read (err null_pointer st) = true
is_null_read _ = false

-- HUP and QUIT have come, and the action of HUP takes the trap on QUIT away.
tested_reset_in_action : is_null_read (dotrap signals reset_quit received) ≡ true
unfolding signals dotrap trapcmd is_digit bytes_eq
tested_reset_in_action = refl
