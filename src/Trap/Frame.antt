-- ===== src/Trap/Frame.antt =====
-- What setsignal, clear_traps and trapcmd keep.
use gwsh.Base.{
  ℕ, zero, suc, ◌≡◌, ◌≢◌, ◌≤◌, ◌⊎◌, refl, arith, Bool, false, not, Option, none, some, List, [],
  ◌∷◌, Bytes, ◌==◌, if◌then◌else◌, if_split, if_cases,
}
use gwsh.Base.Int.{ℤ, pos, negsuc}
use gwsh.Options.Nextopt.{Reader, Opt, nextopt}
use gwsh.Trap.State.{Signals, Sigmode, unknown, s_dfl, s_catch, s_ign, s_hard_ign, s_reset, Traps}
use gwsh.Trap.Signal.{
  set, change_action, from_mode, set_action, setsignal, wanted, same_mode, is_action, is_none_left,
  is_negative, is_positive, clear_trap, clear_from, clear_traps, mode_of,
}
use gwsh.Trap.Cmd.{
  put_trap, set_trap, trap_each, Ended, listing, status, illegal_option, next_action, decode_signal,
  trapcmd, trap_words, trap_opt, own_traps, is_signum, decode_signum,
}

-- What holds of the state in which the command ends with a status.
abbrev pub Left : {S : Type 0} → (Traps S → Type 0) → Ended S → Type 0
Left P (status n st) = P st
Left P (listing traps) = Unit
Left P (illegal_option c) = Unit

pub ≤-cases : (i s : ℕ) → i ≤ s → (s ≡ i) ⊎ (suc i ≤ s)
≤-cases i s h = omega arith

pub set_here : {A : Type 0} (i : ℕ) (a : A) (f : ℕ → A) → set i a f i ≡ a
set_here i a f = if_cases (λ b. b ≡ a) (i == i) (λ _. refl) (λ h. absurd (ground (arith, h)))

pub set_other : {A : Type 0} (i j : ℕ) (a : A) (f : ℕ → A) → j ≢ i → set i a f j ≡ f j
set_other i j a f h =
    if_cases (λ b. b ≡ f j) (j == i) (λ e. absurd (ground (arith, h, e))) (λ _. refl)

module _ {S : Type 0} (P : Traps S → Type 0) where
  change_action_keeps :
      (signo : ℕ) (action tsig : Sigmode) (st : Traps S)
      → P st
      → P (set_action signo action st)
      → P (change_action signo action tsig st)
  change_action_keeps signo action s_hard_ign st p q = p
  change_action_keeps signo action unknown st p q = if_split P (same_mode unknown action) p q
  change_action_keeps signo action s_dfl st p q = if_split P (same_mode s_dfl action) p q
  change_action_keeps signo action s_catch st p q = if_split P (same_mode s_catch action) p q
  change_action_keeps signo action s_ign st p q = if_split P (same_mode s_ign action) p q
  change_action_keeps signo action s_reset st p q = if_split P (same_mode s_reset action) p q

  from_mode_keeps :
      (signo : ℕ) (action tsig : Sigmode) (st : Traps S)
      → P st
      → P (set_action signo action st)
      → P (from_mode signo action tsig st)
  from_mode_keeps signo action unknown st p q =
      if_split P (st.sigaction_fails signo) p
        (change_action_keeps signo action (mode_of (st.sigaction signo)) st p q)
  from_mode_keeps signo action s_dfl st p q = change_action_keeps signo action s_dfl st p q
  from_mode_keeps signo action s_catch st p q = change_action_keeps signo action s_catch st p q
  from_mode_keeps signo action s_ign st p q = change_action_keeps signo action s_ign st p q
  from_mode_keeps signo action s_reset st p q = change_action_keeps signo action s_reset st p q
  from_mode_keeps signo action s_hard_ign st p q =
      change_action_keeps signo action s_hard_ign st p q

  pub setsignal_keeps :
      (sig : Signals) (signo : ℕ) (subshell : Bool) (st : Traps S)
      → P st
      → ((action : Sigmode) → P (set_action signo action st))
      → P (setsignal sig signo subshell st)
  unfolding setsignal
  setsignal_keeps sig signo subshell st p q =
      from_mode_keeps signo (wanted sig signo subshell st) (st.sigmode signo) st p
        (q (wanted sig signo subshell st))

  -- A property that setsignal keeps, and that does not read the traps, is kept by what calls it.
  module _ (sig : Signals)
      (by_setsignal : (signo : ℕ) (st : Traps S) → P st → P (setsignal sig signo false st))
      (by_trap : (st : Traps S) (trap : ℕ → Option Bytes)
        → P st
        → P (record st { trap = trap })) where
    clear_trap_keeps : (i : ℕ) (st : Traps S) → P st → P (clear_trap sig i st)
    clear_trap_keeps i st p = if_split P (not (is_action (st.trap i))) p (
        if_split P (is_none_left st.trapcnt) (by_trap st (set i none st.trap) p)
          (if_split P (i == 0) p (by_setsignal i st p)))

    pub clear_from_keeps : (n i : ℕ) (st : Traps S) → P st → P (clear_from sig n i st)
    unfolding clear_from
    clear_from_keeps zero i st p = p
    clear_from_keeps (suc n) i st p =
        clear_from_keeps n (suc i) (clear_trap sig i st) (clear_trap_keeps i st p)

    module _ (by_count : (st : Traps S) (n : ℤ) → P st → P (record st { trapcnt = n })) where
      pub clear_traps_keeps : (st : Traps S) → P st → P (clear_traps sig st)
      unfolding clear_traps
      clear_traps_keeps st p =
          clear_from_keeps sig.nsig 0 _
            (by_count st (if is_positive st.trapcnt then negsuc 0 else pos 0) p)

      set_trap_keeps :
          (signo : ℕ) (action : Option Bytes) (st : Traps S)
          → P st
          → P (set_trap sig signo action st)
      set_trap_keeps signo action st p =
          let p' =
            by_trap _ (set signo action st.trap)
              (by_count st (put_trap signo action st).trapcnt p) in
          if_split P (signo == 0) p' (by_setsignal signo (put_trap signo action st) p')

      trap_each_keeps :
          (words : List Bytes) (action : Option Bytes) (n : ℕ) (st : Traps S)
          → P st
          → P (trap_each sig words action n st).1
      unfolding trap_each
      trap_each_keeps [] action n st p = p
      trap_each_keeps (word ∷ words) action n st p =
          elim (decode_signal sig word)
            as (λ o.
              P
                (elim o as (λ _. ℕ × Traps S) [
                  | none ↦ trap_each sig words action 1 st
                  | some signo ↦
                      trap_each sig words (next_action action) n
                        (set_trap sig signo (next_action action) st)
                ]).1) [
                  | none ↦ trap_each_keeps words action 1 st p
                  | some signo ↦
                      trap_each_keeps words (next_action action) n
                        (set_trap sig signo (next_action action) st)
                        (set_trap_keeps signo (next_action action) st p)
                ]

      own_traps_keeps : (st : Traps S) → P st → P (own_traps sig st)
      own_traps_keeps st p = if_split P (is_negative st.trapcnt) (clear_traps_keeps st p) p

      trap_words_keeps :
          (words : List Bytes) (st : Traps S) → P st → Left P (trap_words sig words st)
      trap_words_keeps [] st p = tt
      trap_words_keeps (word ∷ []) st p =
          trap_each_keeps (word ∷ []) none 0 (own_traps sig st) (own_traps_keeps st p)
      trap_words_keeps (word ∷ w ∷ words) st p =
          if_split (λ (r : ℕ × Traps S). P r.1) (is_signum (decode_signum sig word))
            (trap_each_keeps (word ∷ w ∷ words) none 0 (own_traps sig st) (own_traps_keeps st p))
            (trap_each_keeps (w ∷ words) (some word) 0 (own_traps sig st) (own_traps_keeps st p))

      trap_opt_keeps : (o : Opt) (st : Traps S) → P st → Left P (trap_opt sig o st)
      trap_opt_keeps (Opt.option c r) st p = trap_words_keeps r.argptr st p
      trap_opt_keeps (Opt.at_end r) st p = trap_words_keeps r.argptr st p
      trap_opt_keeps (Opt.illegal_option c) st p = tt
      trap_opt_keeps (Opt.no_arg c) st p = tt

      pub trapcmd_keeps : (args : Reader) (st : Traps S) → P st → Left P (trapcmd sig args st)
      unfolding trapcmd
      trapcmd_keeps args st p = trap_opt_keeps (nextopt [] args) st p
