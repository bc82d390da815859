-- ===== src/Trap/Edges.antt =====
-- dotrap does not look whether the signal that it takes has a trap.
use gwsh.Base.{
  ℕ, zero, suc, ◌+◌, ◌-◌, ◌≤◌, ◌<◌, ◌≡◌, refl, ap, subst, true, false, none, Bytes, ◌==◌, arith,
  inl, inr,
}
use gwsh.Base.Run.{Outcome, ok, err, Run, ◌>>=◌}
use gwsh.Eval.Shell.{go_on}
use gwsh.Trap.State.{Signals, Traps, null_pointer}
use gwsh.Trap.Signal.{set}
use gwsh.Trap.Frame.{≤-cases}
use gwsh.Trap.Pending.{T, dotrap_from, dotrap}

bind_err :
    {E S A B : Type 0} (m : Run E S A) (k : A → Run E S B) (s : S) (e : E) (s' : S)
    → m s ≡ err e s'
    → (m >>= k) s ≡ err e s'
bind_err {E} {S} {A} {B} m k s e s' h =
    ap
      (λ (o : Outcome E S A). elim o as (λ _. Outcome E S B) [
        | ok a s' ↦ k a s'
        | err e s' ↦ err e s'
      ])
      h

module _ {S : Type 0} (eval : Bytes → T S Unit) (s : ℕ) (st : Traps S) (skip : st.evalskip ≡ go_on)
    (got : st.gotsig s ≡ true) (untrapped : st.trap s ≡ none) where
  dotrap_from_null_here :
      (n : ℕ)
      → dotrap_from eval (suc n) s st
        ≡ err null_pointer (record st { gotsig = set s false st.gotsig })
  unfolding dotrap_from
  dotrap_from_null_here n = rw (got, skip, untrapped) refl

  dotrap_from_null :
      (n i : ℕ)
      → i ≤ s
      → s < i + n
      → ((j : ℕ) → i ≤ j → j < s → st.gotsig j ≡ false)
      → dotrap_from eval n i st ≡ err null_pointer (record st { gotsig = set s false st.gotsig })
  unfolding dotrap_from
  dotrap_from_null zero i lo hi before = absurd (omega (arith, lo, hi))
  dotrap_from_null (suc n) i lo hi before = elim (≤-cases i s lo) [
    | inl e ↦
        subst
          (λ j.
            dotrap_from eval (suc n) j st
            ≡ err null_pointer (record st { gotsig = set s false st.gotsig }))
          e (dotrap_from_null_here n)
    | inr lt ↦
        rw (before i (omega arith) lt)
          (dotrap_from_null n (suc i) lt (omega (arith, hi)) λ j a b. before j (omega (arith, a)) b)
  ]

-- Where nothing is skipped and a signal is pending, and the first signal that was received has no trap
-- any more, dotrap reads the text of its action by a null pointer, whatever evalstring does.
pub dotrap_null :
    {S : Type 0} (sig : Signals) (eval : Bytes → T S Unit) (s : ℕ) (st : Traps S)
    → st.evalskip ≡ go_on
    → (st.pending_sig == 0) ≡ false
    → 1 ≤ s
    → s < sig.nsig
    → ((j : ℕ) → 1 ≤ j → j < s → st.gotsig j ≡ false)
    → st.gotsig s ≡ true
    → st.trap s ≡ none
    → dotrap sig eval st
      ≡ err null_pointer (record st {
        gotsig = set s false st.gotsig;
        savestatus = st.exitstatus;
        pending_sig = 0;
      })
unfolding dotrap
dotrap_null sig eval s st skip pending lo hi before got untrapped = rw pending (
    bind_err (dotrap_from eval (sig.nsig - 1) 1) _ _ null_pointer _ (
      dotrap_from_null eval s (record st { savestatus = st.exitstatus; pending_sig = 0 }) skip got
        untrapped (sig.nsig - 1) 1 lo (omega (arith, lo, hi)) before))
