-- ===== src/Eval/Breaks.antt =====
-- src/eval.c: what break and continue do to the loops around them.
use gwsh.Base.{
  ℕ, zero, suc, ◌-◌, ◌≤◌, ◌≡◌, ◌≢◌, ◌⊎◌, ◌∙◌, refl, ap, Bool, true, false, none, some, List, [],
  ◌∷◌, Bytes, codes, ltb, leb, ◌==◌, arith, Bool-cases, inl, inr,
}
use gwsh.Base.Run.{Outcome, ok, err}
use gwsh.MyString.{Strtoimax, number}
use gwsh.Options.Nextopt.{Reader}
use gwsh.Eval.Shell.{Skip, go_on, skip_break, skip_cont, Shell, Raised}
use gwsh.Eval.Tree.{skiploop}
use gwsh.Eval.Builtins.{breakcmd, min}

-- The names that breakcmd is called by, and what each asks a loop for.
abbrev pub called : Bool → Bytes
called true = codes "continue"
called false = codes "break"

abbrev pub asked : Bool → Skip
asked true = skip_cont
asked false = skip_break

-- skiploop in each of `n` loops, from the innermost on: what they do, and the state after them.
unfoldable pub unwind : {S : Type 0} → ℕ → Shell S → List Skip × Shell S
unfolding skiploop
unwind zero st = ([], st)
unwind {S} (suc n) st = elim (skiploop st) as (λ _. List Skip × Shell S) [
  | ok skip st' ↦ let (skips, last) = unwind n st' in (skip ∷ skips, last)
  | err e st' ↦ ([], st')
]

-- That many loops are left, and then one does as it is asked.
abbrev pub leaves : ℕ → Skip → List Skip
leaves zero skip = skip ∷ []
leaves (suc n) skip = skip_break ∷ leaves n skip

abbrev pub nothing_asked : {S : Type 0} → Shell S → Shell S
nothing_asked st = record st { evalskip = go_on; skipcount = 0 }

abbrev one_word : Bytes → Reader
one_word w = record { argptr = w ∷ []; optptr = none; optionarg = none }

abbrev left : {S : Type 0} → Shell S → Outcome Raised (Shell S) Skip
left st = ok skip_break st

asks_for :
    {S : Type 0} (b : Bool) (st : Shell S) {k k' : ℕ}
    → k ≡ k'
    → left (record st { evalskip = asked b; skipcount = k })
      ≡ left (record st { evalskip = asked b; skipcount = k' })
asks_for b st e = ap (λ count. left (record st { evalskip = asked b; skipcount = count })) e

-- A loop that is not the last one is left.
skiploop-asked :
    {S : Type 0} (b : Bool) (m : ℕ) (st : Shell S)
    → skiploop (record st { evalskip = asked b; skipcount = suc (suc m) })
      ≡ ok skip_break (record st { evalskip = asked b; skipcount = suc m })
unfolding skiploop
skiploop-asked true m st =
    let more : leb (suc (suc m)) 1 ≡ false = ground arith in
    let less : suc (suc m) - 1 ≡ suc m = omega arith in rw more (asks_for true st less)
skiploop-asked false m st =
    let more : leb (suc (suc m)) 1 ≡ false = ground arith in
    let less : suc (suc m) - 1 ≡ suc m = omega arith in rw more (asks_for false st less)

unwind-leaves :
    {S : Type 0} (b : Bool) (m : ℕ) (st : Shell S)
    → unwind (suc m) (record st { evalskip = asked b; skipcount = suc m })
      ≡ (leaves m (asked b), nothing_asked st)
unfolding unwind
unwind-leaves true zero st = refl
unwind-leaves false zero st = refl
unwind-leaves {S} b (suc m) st =
    ap
      (λ (o : Outcome Raised (Shell S) Skip). elim o as (λ _. List Skip × Shell S) [
        | ok skip st' ↦ (skip ∷ (unwind (suc m) st').0, (unwind (suc m) st').1)
        | err e st' ↦ ([], st')
      ])
      (skiploop-asked b m st)
    ∙ ap (λ (p : List Skip × Shell S). (skip_break ∷ p.0, p.1)) (unwind-leaves b m st)

-- The smaller of two numbers that are not 0.
abbrev pub IsFewest : ℕ → ℕ → ℕ → Type 0
IsFewest m a b = (m ≤ a) × (m ≤ b) × ((m ≡ a) ⊎ (m ≡ b)) × (1 ≤ m)

min-IsFewest : (a b : ℕ) → a ≢ 0 → b ≢ 0 → IsFewest (min a b) a b
min-IsFewest a b ha hb = elim (Bool-cases (ltb b a)) [
  | inl e ↦ rw e (ground arith, ground arith, inr refl, ground arith)
  | inr e ↦ rw e (ground arith, ground arith, inl refl, ground arith)
]

not_zero : (n : ℕ) → n ≢ 0 → (n == 0) ≡ false
not_zero n h = ground arith

asks :
    {S : Type 0} (strtoimax : Strtoimax) (b : Bool) (ns : Bytes) (n : ℕ) (st : Shell S)
    → number strtoimax ns ≡ some n
    → n ≢ 0
    → min n st.loopnest ≢ 0
    → breakcmd strtoimax (called b) (one_word ns) st
      ≡ ok 0 (record st { evalskip = asked b; skipcount = min n st.loopnest })
unfolding breakcmd
asks strtoimax true ns n st e h k =
    let some_n : (n == 0) ≡ false = ground arith in
    let some_min : (min n st.loopnest == 0) ≡ false = not_zero (min n st.loopnest) k in
    rw (e, some_n, some_min) refl
asks strtoimax false ns n st e h k =
    let some_n : (n == 0) ≡ false = ground arith in
    let some_min : (min n st.loopnest == 0) ≡ false = not_zero (min n st.loopnest) k in
    rw (e, some_n, some_min) refl

-- In loops, with an argument that is a number other than 0, break leaves as many loops as it says or as
-- there are, the smaller of the two, and continue leaves one less and goes on with the next: skiploop,
-- in each loop from the innermost on, says so, and nothing is skipped any more after the last of them.
pub breakcmd-unwind :
    {S : Type 0} (strtoimax : Strtoimax) (b : Bool) (ns : Bytes) (n : ℕ) (st : Shell S)
    → number strtoimax ns ≡ some n
    → n ≢ 0
    → st.loopnest ≢ 0
    → (m : ℕ) × IsFewest (suc m) n st.loopnest
      × ((st' : Shell S) × (breakcmd strtoimax (called b) (one_word ns) st ≡ ok 0 st')
          × (unwind (suc m) st' ≡ (leaves m (asked b), nothing_asked st)))
breakcmd-unwind {S} strtoimax b ns n st e h k =
    by_count (min n st.loopnest) refl (min-IsFewest n st.loopnest h k)
  where
    by_count :
        (m : ℕ)
        → min n st.loopnest ≡ m
        → IsFewest m n st.loopnest
        → (m : ℕ) × IsFewest (suc m) n st.loopnest
          × ((st' : Shell S) × (breakcmd strtoimax (called b) (one_word ns) st ≡ ok 0 st')
              × (unwind (suc m) st' ≡ (leaves m (asked b), nothing_asked st)))
    by_count zero same fewest = absurd (omega (arith, fewest.3))
    by_count (suc m) same fewest = (
      m,
      fewest,
      (
        record st { evalskip = asked b; skipcount = suc m },
        asks strtoimax b ns n st e h (λ q. omega (arith, q, same))
            ∙ ap (λ count. ok 0 (record st { evalskip = asked b; skipcount = count })) same,
        unwind-leaves b m st,
      ),
    )
