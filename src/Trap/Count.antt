-- ===== src/Trap/Count.antt =====
-- trapcnt is the number of the traps that have an action.
use gwsh.Base.{
  bools_apart, ℕ, zero, suc, ◌+◌, ◌≤◌, ◌<◌, ◌≡◌, ◌∙◌, ◌⊎◌, inl, inr, refl, sym, ap, subst, Bool,
  true, false, not, Option, none, some, List, [], ◌∷◌, Bytes, ◌==◌, ltb, ltb→lt, if◌then◌else◌,
  if_split, if_cases, arith, length,
}
use gwsh.Base.Int.{ℤ, pos, negsuc}
use gwsh.MyString.{is_number}
use gwsh.Options.Nextopt.{Reader, Opt, nextopt}
use gwsh.Trap.State.{Signals, Traps}
use gwsh.Trap.Signal.{
  set, setsignal, is_action, is_none_left, is_negative, is_positive, clear_trap, clear_from,
  clear_traps,
}
use gwsh.Trap.Cmd.{
  put_trap, set_trap, trap_each, next_action, decode_signal, find_signal, or_else, below_nsig,
  is_name, incr_if, decr_if, trapcmd, trap_words, trap_opt, own_traps, is_signum, decode_signum,
}
use gwsh.Trap.Frame.{≤-cases, Left, clear_from_keeps, set_here, set_other, setsignal_keeps}

abbrev one_if : Bool → ℕ
one_if true = 1
one_if false = 0

-- How many of the `n` traps from `i` on have an action.
abbrev pub count : ℕ → ℕ → (ℕ → Option Bytes) → ℕ
count zero i trap = 0
count (suc n) i trap = one_if (is_action (trap i)) + count n (suc i) trap

abbrev pub IsCounted : {S : Type 0} → Signals → Traps S → Type 0
IsCounted sig st = st.trapcnt ≡ pos (count sig.nsig 0 st.trap)

count_outside :
    (n i signo : ℕ) (a : Option Bytes) (trap : ℕ → Option Bytes)
    → signo < i
    → count n i (set signo a trap) ≡ count n i trap
count_outside zero i signo a trap h = refl
count_outside (suc n) i signo a trap h =
    rw
      (
        set_other signo i a trap (λ e. absurd (omega (arith, h, e))),
        count_outside n (suc i) signo a trap (omega (arith, h)),
      )
      refl

count-set :
    (n i signo : ℕ) (a : Option Bytes) (trap : ℕ → Option Bytes)
    → i ≤ signo
    → signo < i + n
    → count n i (set signo a trap) + one_if (is_action (trap signo))
      ≡ count n i trap + one_if (is_action a)
count-set zero i signo a trap h k = absurd (omega (arith, h, k))
count-set (suc n) i signo a trap h k = elim (≤-cases i signo h) [
  | inl e ↦
      subst
        (λ j.
          count (suc n) j (set signo a trap) + one_if (is_action (trap signo))
          ≡ count (suc n) j trap + one_if (is_action a))
        e (here signo)
  | inr lt ↦
      let rest = count-set n (suc i) signo a trap lt (omega (arith, k)) in
      rw (set_other signo i a trap (λ e. absurd (omega (arith, lt, e)))) (omega (arith, rest))
]
  where
    here :
        (s : ℕ)
        → count (suc n) s (set s a trap) + one_if (is_action (trap s))
          ≡ count (suc n) s trap + one_if (is_action a)
    here s = rw (set_here s a trap, count_outside n (suc s) s a trap (omega arith)) (omega arith)

negated : (b : Bool) → not b ≡ true → b ≡ false
negated true h = absurd cc
negated false h = refl

negative_not_positive : (z : ℤ) → is_negative z ≡ true → is_positive z ≡ false
negative_not_positive (pos n) h = absurd cc
negative_not_positive (negsuc n) h = refl

recount :
    (old new : Bool) (c c' : ℕ)
    → c' + one_if old ≡ c + one_if new
    → decr_if old (incr_if new (pos c)) ≡ pos c'
recount true true c c' h = ap pos (omega (arith, h))
recount true false zero c' h = absurd (omega (arith, h))
recount true false (suc c) c' h = ap pos (omega (arith, h))
recount false true c c' h = ap pos (omega (arith, h))
recount false false c c' h = ap pos (omega (arith, h))

find_signal_below :
    (sig : Signals) (word : Bytes) (i : ℕ) (names : List (Option Bytes)) (signo : ℕ)
    → find_signal sig word i names ≡ some signo
    → signo < i + length names
unfolding find_signal
find_signal_below sig word i [] signo h = absurd cc
find_signal_below sig word i (name ∷ names) signo h =
    if_cases (λ (o : Option ℕ). o ≡ some signo → signo < i + suc (length names))
      (is_name sig word name) (λ _ e. grind arith)
      (λ _ e. let below = find_signal_below sig word (suc i) names signo e in omega (arith, below))
      h

below_nsig_below :
    (sig : Signals) (o : Option ℕ) (signo : ℕ) → below_nsig sig o ≡ some signo → signo < sig.nsig
below_nsig_below sig none signo h = absurd cc
below_nsig_below sig (some n) signo h =
    if_cases (λ (o : Option ℕ). o ≡ some signo → signo < sig.nsig) (ltb n sig.nsig)
      (λ e x. let lt = ltb→lt n sig.nsig e in grind arith) (λ _ x. absurd cc) h

or_else_below :
    (b signo : ℕ) (o o' : Option ℕ)
    → (o ≡ some signo → signo < b)
    → (o' ≡ some signo → signo < b)
    → or_else o o' ≡ some signo
    → signo < b
or_else_below b signo none o' f g = g
or_else_below b signo (some n) o' f g = f

decode_signal_below :
    (sig : Signals) (word : Bytes) (signo : ℕ)
    → length sig.signal_names ≤ sig.nsig
    → decode_signal sig word ≡ some signo
    → signo < sig.nsig
unfolding decode_signal decode_signum
decode_signal_below sig word signo few =
    or_else_below sig.nsig signo (decode_signum sig word) (find_signal sig word 0 sig.signal_names)
      (if_cases (λ (o : Option ℕ). o ≡ some signo → signo < sig.nsig) (is_number word)
        (λ _. below_nsig_below sig (sig.atoi word) signo) (λ _ e. absurd cc))
      (λ e.
        let below = find_signal_below sig word 0 sig.signal_names signo e in
        omega (arith, few, below))

module _ {S : Type 0} (sig : Signals) where
  setsignal-IsCounted :
      (signo : ℕ) (st : Traps S) → IsCounted sig st → IsCounted sig (setsignal sig signo false st)
  setsignal-IsCounted signo st h = setsignal_keeps (IsCounted sig) sig signo false st h (λ _. h)

  put_trap-IsCounted :
      (signo : ℕ) (action : Option Bytes) (st : Traps S)
      → signo < sig.nsig
      → IsCounted sig st
      → IsCounted sig (put_trap signo action st)
  put_trap-IsCounted signo action st below h = rw h (
      recount (is_action (st.trap signo)) (is_action action) (count sig.nsig 0 st.trap)
        (count sig.nsig 0 (set signo action st.trap))
        (count-set sig.nsig 0 signo action st.trap (omega arith) (omega (arith, below))))

  set_trap-IsCounted :
      (signo : ℕ) (action : Option Bytes) (st : Traps S)
      → signo < sig.nsig
      → IsCounted sig st
      → IsCounted sig (set_trap sig signo action st)
  set_trap-IsCounted signo action st below h =
      let h' = put_trap-IsCounted signo action st below h in
      if_split (IsCounted sig) (signo == 0) h'
        (setsignal-IsCounted signo (put_trap signo action st) h')

  trap_each-IsCounted :
      (words : List Bytes) (action : Option Bytes) (n : ℕ) (st : Traps S)
      → length sig.signal_names ≤ sig.nsig
      → IsCounted sig st
      → IsCounted sig (trap_each sig words action n st).1
  unfolding trap_each
  trap_each-IsCounted [] action n st few h = h
  trap_each-IsCounted (word ∷ words) action n st few h =
      (elim (decode_signal sig word)
          as (λ o.
            ((signo : ℕ) → o ≡ some signo → signo < sig.nsig)
            → IsCounted sig
                (elim o as (λ _. ℕ × Traps S) [
                  | none ↦ trap_each sig words action 1 st
                  | some signo ↦
                      trap_each sig words (next_action action) n
                        (set_trap sig signo (next_action action) st)
                ]).1) [
                  | none ↦ λ below. trap_each-IsCounted words action 1 st few h
                  | some signo ↦ λ below.
                      trap_each-IsCounted words (next_action action) n
                        (set_trap sig signo (next_action action) st) few
                        (set_trap-IsCounted signo (next_action action) st (below signo refl) h)
                ])
        (λ signo. decode_signal_below sig word signo few)

  abbrev Clears : ℕ → ℕ → Traps S → Traps S → Type 0
  Clears n i st st' =
      (st'.trapcnt ≡ pos 0) × (count n i st'.trap ≡ 0) × ((j : ℕ) → j < i → st'.trap j ≡ st.trap j)

  abbrev Emptied : ℕ → Traps S → Traps S → Type 0
  Emptied i st st' =
      (st'.trapcnt ≡ pos 0)
      × (is_action (st'.trap i) ≡ false)
      × ((j : ℕ) → j < i → st'.trap j ≡ st.trap j)

  clear_trap-Emptied :
      (i : ℕ) (st : Traps S) → st.trapcnt ≡ pos 0 → Emptied i st (clear_trap sig i st)
  clear_trap-Emptied i st none_left =
      if_cases (Emptied i st) (not (is_action (st.trap i)))
        (λ idle. (none_left, negated (is_action (st.trap i)) idle, λ j _. refl))
        (λ _.
          if_cases (Emptied i st) (is_none_left st.trapcnt)
            (λ _. (
              none_left,
              rw (set_here i none st.trap) refl,
              λ j lt. set_other i j none st.trap (λ e. absurd (omega (arith, lt, e))),
            ))
            (λ some_left. absurd (bools_apart (ap is_none_left (sym none_left) ∙ some_left))))

  clear_from-Clears :
      (n i : ℕ) (st : Traps S) → st.trapcnt ≡ pos 0 → Clears n i st (clear_from sig n i st)
  unfolding clear_from
  clear_from-Clears zero i st h = (h, refl, λ _ _. refl)
  clear_from-Clears (suc n) i st h =
      let here = clear_trap-Emptied i st h in
      let rest = clear_from-Clears n (suc i) (clear_trap sig i st) here.0 in
      (
        rest.0,
        rw (rest.2 i (omega arith), here.1, rest.1) refl,
        λ j lt. rest.2 j (omega (arith, lt)) ∙ here.2 j lt,
      )

  clear_from-IsInherited :
      (n i : ℕ) (st : Traps S)
      → is_negative st.trapcnt ≡ true
      → is_negative (clear_from sig n i st).trapcnt ≡ true
  clear_from-IsInherited n i st h =
      clear_from_keeps (λ (st : Traps S). is_negative st.trapcnt ≡ true) sig
        (λ signo st h.
          setsignal_keeps (λ (st : Traps S). is_negative st.trapcnt ≡ true) sig signo false st h
            (λ _. h))
        (λ _ _ h. h) n i st h

  -- Either trapcnt counts the traps, or it is negative: the traps are those of the parent, for listing.
  abbrev pub IsConsistent : Traps S → Type 0
  IsConsistent st = IsCounted sig st ⊎ (is_negative st.trapcnt ≡ true)

  cleared-IsCounted :
      (st : Traps S) → IsCounted sig (clear_from sig sig.nsig 0 (record st { trapcnt = pos 0 }))
  cleared-IsCounted st =
      let all = clear_from-Clears sig.nsig 0 (record st { trapcnt = pos 0 }) refl in
      all.0 ∙ ap pos (sym all.1)

  clear_traps-IsConsistent : (st : Traps S) → IsConsistent (clear_traps sig st)
  unfolding clear_traps
  clear_traps-IsConsistent st =
      elim (is_positive st.trapcnt)
        as (λ b.
          IsConsistent
            (clear_from sig sig.nsig 0 (record st { trapcnt = if b then negsuc 0 else pos 0 }))) [
              | true ↦
                  inr (clear_from-IsInherited sig.nsig 0 (record st { trapcnt = negsuc 0 }) refl)
              | false ↦ inl (cleared-IsCounted st)
            ]

  own_traps-IsCounted : (st : Traps S) → IsConsistent st → IsCounted sig (own_traps sig st)
  unfolding clear_traps
  own_traps-IsCounted st (inl h) =
      let kept : is_negative st.trapcnt ≡ false = ap is_negative h in rw kept h
  own_traps-IsCounted st (inr h) = rw (h, negative_not_positive st.trapcnt h) (cleared-IsCounted st)

  module _ (few : length sig.signal_names ≤ sig.nsig) where
    trap_words-IsCounted :
        (words : List Bytes) (st : Traps S)
        → IsConsistent st
        → Left (IsCounted sig) (trap_words sig words st)
    trap_words-IsCounted [] st h = tt
    trap_words-IsCounted (word ∷ []) st h =
        trap_each-IsCounted (word ∷ []) none 0 (own_traps sig st) few (own_traps-IsCounted st h)
    trap_words-IsCounted (word ∷ w ∷ words) st h =
        if_split (λ (r : ℕ × Traps S). IsCounted sig r.1) (is_signum (decode_signum sig word))
          (trap_each-IsCounted (word ∷ w ∷ words) none 0 (own_traps sig st) few
            (own_traps-IsCounted st h))
          (trap_each-IsCounted (w ∷ words) (some word) 0 (own_traps sig st) few
            (own_traps-IsCounted st h))

    trap_opt-IsCounted :
        (o : Opt) (st : Traps S) → IsConsistent st → Left (IsCounted sig) (trap_opt sig o st)
    trap_opt-IsCounted (Opt.option c r) st h = trap_words-IsCounted r.argptr st h
    trap_opt-IsCounted (Opt.at_end r) st h = trap_words-IsCounted r.argptr st h
    trap_opt-IsCounted (Opt.illegal_option c) st h = tt
    trap_opt-IsCounted (Opt.no_arg c) st h = tt

-- Where trapcnt is negative, or is the number of the traps below NSIG whose action is not empty, and
-- there are no more names of signals than NSIG, the same holds when the trap builtin ends with a
-- status, and then trapcnt is not negative; and it holds after clear_traps and setsignal.
pub trapcmd-IsCounted :
    {S : Type 0} (sig : Signals) (args : Reader) (signo : ℕ) (st : Traps S)
    → length sig.signal_names ≤ sig.nsig
    → IsConsistent sig st
    → Left (IsCounted sig) (trapcmd sig args st)
      × IsConsistent sig (clear_traps sig st)
      × IsConsistent sig (setsignal sig signo false st)
unfolding trapcmd
trapcmd-IsCounted sig args signo st few h = (
  trap_opt-IsCounted sig few (nextopt [] args) st h,
  clear_traps-IsConsistent sig st,
  setsignal_keeps (IsConsistent sig) sig signo false st h (λ _. h),
)
