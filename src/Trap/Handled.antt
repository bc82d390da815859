-- ===== src/Trap/Handled.antt =====
-- Every signal that was received has its action run by dotrap.
use gwsh.Base.{
  ℕ, zero, suc, ◌+◌, ◌-◌, ◌≤◌, ◌<◌, ◌≡◌, ◌∙◌, refl, sym, ap, subst, Bool, true, false, Option, none,
  some, Bytes, ◌==◌, if◌then◌else◌, arith, Bool-cases, inl, inr,
}
use gwsh.Base.Run.{ok, Ends, Ends-map, Ends-bind}
use gwsh.Eval.Shell.{go_on}
use gwsh.Trap.State.{Signals, Traps}
use gwsh.Trap.Signal.{set}
use gwsh.Trap.Frame.{≤-cases, set_here, set_other}
use gwsh.Trap.Pending.{T, dotrap_from, dotrap}

abbrev run_one : {S : Type 0} → (Bytes → S → S) → Option Bytes → S → S
run_one step none env = env
run_one step (some p) env = step p env

-- The actions of the signals received, from the signal `i` on, in the order of their numbers.
abbrev pub run_received :
    {S : Type 0} → (Bytes → S → S) → (ℕ → Option Bytes) → (ℕ → Bool) → ℕ → ℕ → S → S
run_received step trap got zero i env = env
run_received step trap got (suc n) i env =
    run_received step trap got n (suc i) (if got i then run_one step (trap i) env else env)

-- Actions that end, and touch the rest of the shell and the exit status only.
abbrev pub plain_action : {S : Type 0} → (Bytes → S → S) → (Bytes → S → ℕ) → Bytes → T S Unit
plain_action step result p st =
    ok tt (record st { env = step p st.env; exitstatus = result p st.env })

-- A signal that was received has a trap.
abbrev pub HasTraps : {S : Type 0} → Traps S → Type 0
HasTraps st = (s : ℕ) → st.gotsig s ≡ true → (p : Bytes) × (st.trap s ≡ some p)

abbrev Between : {S : Type 0} → (Bytes → S → S) → ℕ → ℕ → Traps S → Traps S → Type 0
Between step n i st st' =
    (st'.env ≡ run_received step st.trap st.gotsig n i st.env)
    × ((s : ℕ) → i ≤ s → s < i + n → st'.gotsig s ≡ false)
    × ((s : ℕ) → s < i → st'.gotsig s ≡ st.gotsig s)
    × (st'.pending_sig ≡ st.pending_sig)
    × (st'.exitstatus ≡ st.exitstatus)
    × (st'.savestatus ≡ st.savestatus)

module _ {S : Type 0} (step : Bytes → S → S) (result : Bytes → S → ℕ) where
  received-agree :
      (n i : ℕ) (trap : ℕ → Option Bytes) (got got' : ℕ → Bool) (env : S)
      → ((s : ℕ) → i ≤ s → got s ≡ got' s)
      → run_received step trap got n i env ≡ run_received step trap got' n i env
  received-agree zero i trap got got' env same = refl
  received-agree (suc n) i trap got got' env same =
      ap (λ b. run_received step trap got n (suc i) (if b then run_one step (trap i) env else env))
        (same i (omega arith))
      ∙ received-agree n (suc i) trap got got' (if got' i then run_one step (trap i) env else env)
          λ s h. same s (omega (arith, h))

  abbrev actions : Bytes → T S Unit
  actions = plain_action step result

  -- The state behind the action of the signal `i`.
  abbrev after : ℕ → Bytes → Traps S → Traps S
  after i p st = record st {
    gotsig = set i false st.gotsig;
    env = step p st.env;
    exitstatus = st.savestatus;
  }

  dotrap_from_skips :
      (n i : ℕ) (st : Traps S)
      → st.gotsig i ≡ false
      → dotrap_from actions (suc n) i st ≡ dotrap_from actions n (suc i) st
  unfolding dotrap_from
  dotrap_from_skips n i st h = rw h refl

  dotrap_from_acts :
      (n i : ℕ) (p : Bytes) (st : Traps S)
      → st.gotsig i ≡ true
      → st.evalskip ≡ go_on
      → st.trap i ≡ some p
      → dotrap_from actions (suc n) i st ≡ dotrap_from actions n (suc i) (after i p st)
  unfolding dotrap_from
  dotrap_from_acts n i p st h skip t = rw (h, skip, t) refl

  abbrev Runs : ℕ → ℕ → Traps S → Type 0
  Runs n i st = Ends (λ _ st'. Between step n i st st') (λ _ _. ⊥) (dotrap_from actions n i st)

  Between-skip :
      (n i : ℕ) (st st' : Traps S)
      → st.gotsig i ≡ false
      → Between step n (suc i) st st'
      → Between step (suc n) i st st'
  Between-skip n i st st' h b = (
    b.0
        ∙ ap
            (λ c.
              run_received step st.trap st.gotsig n (suc i)
                (if c then run_one step (st.trap i) st.env else st.env))
            (sym h),
    (λ s lo hi. elim (≤-cases i s lo) [
      | inl e ↦ b.2 s (omega (arith, e)) ∙ ap st.gotsig e ∙ h
      | inr lt ↦ b.1 s lt (omega (arith, hi))
    ]),
    (λ s lt. b.2 s (omega (arith, lt))),
    b.3,
    b.4,
    b.5,
  )

  Between-act :
      (n i : ℕ) (p : Bytes) (st st' : Traps S)
      → st.gotsig i ≡ true
      → st.trap i ≡ some p
      → st.exitstatus ≡ st.savestatus
      → Between step n (suc i) (after i p st) st'
      → Between step (suc n) i st st'
  Between-act n i p st st' h t e b = (
    b.0
        ∙ received-agree n (suc i) st.trap (set i false st.gotsig) st.gotsig (step p st.env)
            (λ s lt. set_other i s false st.gotsig (λ e. absurd (omega (arith, lt, e))))
        ∙ ap (λ a. run_received step st.trap st.gotsig n (suc i) (run_one step a st.env)) (sym t)
        ∙ ap
            (λ c.
              run_received step st.trap st.gotsig n (suc i)
                (if c then run_one step (st.trap i) st.env else st.env))
            (sym h),
    (λ s lo hi. elim (≤-cases i s lo) [
      | inl x ↦ b.2 s (omega (arith, x)) ∙ ap (set i false st.gotsig) x ∙ set_here i false st.gotsig
      | inr lt ↦ b.1 s lt (omega (arith, hi))
    ]),
    (λ s lt.
        b.2 s (omega (arith, lt))
        ∙ set_other i s false st.gotsig (λ e. absurd (omega (arith, lt, e)))),
    b.3,
    b.4 ∙ sym e,
    b.5,
  )

  HasTraps-after : (i : ℕ) (p : Bytes) (st : Traps S) → HasTraps st → HasTraps (after i p st)
  HasTraps-after i p st has s g = has s (ground (arith, g))

  dotrap_from-Runs :
      (n i : ℕ) (st : Traps S)
      → st.evalskip ≡ go_on
      → st.exitstatus ≡ st.savestatus
      → HasTraps st
      → Runs n i st
  unfolding dotrap_from
  dotrap_from-Runs zero i st skip e has =
      (refl, (λ s a b. absurd (omega (arith, a, b))), (λ s _. refl), refl, refl, refl)
  dotrap_from-Runs (suc n) i st skip e has = elim (Bool-cases (st.gotsig i)) [
    | inl got ↦
        let (p, t) = has i got in
        subst (Ends (λ _ st'. Between step (suc n) i st st') (λ _ _. ⊥))
          (sym (dotrap_from_acts n i p st got skip t))
          (Ends-map (λ _ st'. Between step n (suc i) (after i p st) st')
            (λ _ st'. Between step (suc n) i st st') (λ _ _. ⊥) (λ _ _. ⊥)
            (dotrap_from actions n (suc i) (after i p st))
            (λ _ st' b. Between-act n i p st st' got t e b) (λ _ _ x. x)
            (dotrap_from-Runs n (suc i) (after i p st) skip refl (HasTraps-after i p st has)))
    | inr not_got ↦
        subst (Ends (λ _ st'. Between step (suc n) i st st') (λ _ _. ⊥))
          (sym (dotrap_from_skips n i st not_got))
          (Ends-map (λ _ st'. Between step n (suc i) st st')
            (λ _ st'. Between step (suc n) i st st') (λ _ _. ⊥) (λ _ _. ⊥)
            (dotrap_from actions n (suc i) st) (λ _ st' b. Between-skip n i st st' not_got b)
            (λ _ _ x. x) (dotrap_from-Runs n (suc i) st skip e has))
  ]

-- Where nothing is skipped, every signal that was received has a trap, and the actions do no more than
-- act on the rest of the shell and set a status, dotrap ends, and it runs the action of each signal
-- received, once, in the order of the numbers. Then no signal is pending, and $? is what it was.
pub dotrap_handles :
    {S : Type 0} (sig : Signals) (step : Bytes → S → S) (result : Bytes → S → ℕ) (st : Traps S)
    → st.evalskip ≡ go_on
    → HasTraps st
    → (st.pending_sig == 0) ≡ false
    → Ends
        (λ _ st'.
          (st'.env ≡ run_received step st.trap st.gotsig (sig.nsig - 1) 1 st.env)
          × ((s : ℕ) → 1 ≤ s → s < sig.nsig → st'.gotsig s ≡ false)
          × (st'.pending_sig ≡ 0)
          × (st'.exitstatus ≡ st.exitstatus)
          × (st'.savestatus ≡ st.savestatus))
        (λ _ _. ⊥)
        (dotrap sig (plain_action step result) st)
unfolding dotrap
dotrap_handles {S = S} sig step result st skip has pending = rw pending (
    Ends-bind (λ _ st'. Between step (sig.nsig - 1) 1 started st') _ (λ _ _. ⊥)
      (dotrap_from (plain_action step result) (sig.nsig - 1) 1) _ started
      (dotrap_from-Runs step result (sig.nsig - 1) 1 started skip refl has)
      λ _ st' b. (b.0, (λ s a h. b.1 s a (omega (arith, a, h))), b.3, b.4, refl))
  where
    started : Traps S
    started = record st { savestatus = st.exitstatus; pending_sig = 0 }
