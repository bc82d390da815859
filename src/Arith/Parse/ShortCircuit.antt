-- ===== src/Arith/Parse/ShortCircuit.antt =====
-- The operators that evaluate one operand only.
use gwsh.Base.{
  ℕ, suc, ◌≡◌, ◌≢◌, refl, sym, subst, Bool-cases, inl, inr, true, false, ◌==◌, if◌then◌else◌, Bytes,
  ==_iff, ≢-test,
}
use gwsh.MyString.{Strtoimax}
use gwsh.Arith.Token.{tok_and, tok_or, tok_qmark, tok_colon}
use gwsh.Arith.Parse.{
  Parser, Yystype, Outcome, ok, err, M, ◌>>=◌, ret, yylex, Variables, primary, binop, and, or, cond,
  assignment,
}
use gwsh.Arith.Parse.Ends.{Ends, Ends-bind, Ends-if}
use gwsh.Arith.Parse.Noeval.{
  IsSyntaxError, pair-Quiet, and-Quiet, or-Quiet, cond-Quiet, assignment-Quiet,
}

module _ {S : Type 0} (strtoimax : Strtoimax) (vars : Variables S) (pointer : Bytes → ℕ) where
  -- The run ends with the value `v` and the variables `s`, or at a syntax error with these variables.
  abbrev pub GivesIn : ℕ → S → Outcome S ℕ → Type 0
  GivesIn v s o = Ends (λ r st'. (r ≡ v) × (st'.env ≡ s)) (λ e s'. (s' ≡ s) × IsSyntaxError e) o

  -- An operand that is skipped leaves the variables alone, divides by nothing and reads no variable:
  -- only the text's syntax can make it fail.
  pub assignment_skips :
      (f token : ℕ) (st : Parser S)
      → Ends
          (λ r st'. st'.env ≡ st.env)
          (λ e s'. (s' ≡ st.env) × IsSyntaxError e)
          (assignment strtoimax vars pointer f token true st)
  assignment_skips f token st = assignment-Quiet strtoimax vars pointer st.env f token st refl

  -- An operand is skipped, and the value that follows does not depend on it.
  constant :
      (m : M S ℕ) (g : ℕ → ℕ) (v : ℕ) (s : S) (st : Parser S)
      → ((r : ℕ) → g r ≡ v)
      → Ends (λ r st'. st'.env ≡ s) (λ e s'. (s' ≡ s) × IsSyntaxError e) (m st)
      → GivesIn v s ((do r ← m; ret (g r)) st)
  constant m g v s st eq h =
      Ends-bind (λ r st'. st'.env ≡ s) (λ r st'. (r ≡ v) × (st'.env ≡ s))
        (λ e s'. (s' ≡ s) × IsSyntaxError e) m (λ r. ret (g r)) st h (λ r st' h'. (eq r, h'))

  -- A run whose first part is known goes on from where that part ended.
  resume :
      (m : M S ℕ) (k : ℕ → M S ℕ) (st st₁ : Parser S) (a v : ℕ) (s : S)
      → m st ≡ ok a st₁
      → GivesIn v s (k a st₁)
      → GivesIn v s ((m >>= k) st)
  resume m k st st₁ a v s e h =
      subst (λ o. GivesIn v s (elim o [ ok b st' ↦ k b st' | err e' s' ↦ err e' s' ])) (sym e) h

  -- Where the left operand of && is 0, so is the whole, and the right operand is skipped.
  pub and_short_circuit :
      (f token : ℕ) (v : Yystype) (op : ℕ) (st st₁ : Parser S)
      → binop strtoimax vars pointer f token v op false st ≡ ok 0 st₁
      → GivesIn 0 st₁.env (and strtoimax vars pointer (suc f) token v op false st)
  unfolding primary
  and_short_circuit f token v op st st₁ e =
      resume (binop strtoimax vars pointer f token v op false) _ st st₁ 0 0 st₁.env e (
        Ends-if _ _ (st₁.last_token == tok_and) _ _ st₁
          (λ _. pair-Quiet strtoimax vars pointer st₁.env _ _ st₁ refl λ t v' op' st₂ h₂.
            constant (and strtoimax vars pointer f t v' op' true) _ 0 st₁.env st₂ (λ r. refl)
              (and-Quiet strtoimax vars pointer st₁.env f t v' op' st₂ h₂))
          (λ _. (refl, refl)))

  -- Where the left operand of || is not 0, the whole is true, and the right operand is skipped; with
  -- no || the value is the operand's.
  pub or_short_circuit :
      (f token : ℕ) (v : Yystype) (op a : ℕ) (st st₁ : Parser S)
      → and strtoimax vars pointer f token v op false st ≡ ok a st₁
      → a ≢ 0
      → GivesIn
          (if st₁.last_token == tok_or then 1 else a)
          st₁.env
          (or strtoimax vars pointer (suc f) token v op false st)
  unfolding primary
  or_short_circuit f token v op a st st₁ e nonzero =
      resume (and strtoimax vars pointer f token v op false) _ st st₁ a _ st₁.env e
        (elim (Bool-cases (st₁.last_token == tok_or)) [
          | inl is_or ↦ rw is_or (
              pair-Quiet strtoimax vars pointer st₁.env _ _ st₁ refl λ t v' op' st₂ h₂.
                rw (≢-test a 0 nonzero) (
                  constant (or strtoimax vars pointer f t v' op' true) _ 1 st₁.env st₂ (λ r. refl)
                    (or-Quiet strtoimax vars pointer st₁.env f t v' op' st₂ h₂)))
          | inr other ↦ rw other (refl, refl)
        ])

  -- Where the condition of ?: is not 0, the value and the variables are those of the second operand;
  -- the third is skipped.
  pub cond_takes_second :
      (f token : ℕ) (v : Yystype) (op a t b : ℕ) (st st₁ st₂ st₃ : Parser S)
      → or strtoimax vars pointer f token v op false st ≡ ok a st₁
      → a ≢ 0
      → st₁.last_token ≡ tok_qmark
      → yylex strtoimax vars pointer st₁ ≡ ok t st₂
      → assignment strtoimax vars pointer f t false st₂ ≡ ok b st₃
      → GivesIn b st₃.env (cond strtoimax vars pointer (suc f) token v op false st)
  unfolding primary
  cond_takes_second f token v op a t b st st₁ st₂ st₃ e nonzero q lexed e' =
      resume (or strtoimax vars pointer f token v op false) _ st st₁ a b st₃.env e (
        rw ((==_iff st₁.last_token tok_qmark).1 q) (
          resume (yylex strtoimax vars pointer) _ st₁ st₂ t b st₃.env lexed (
            rw (≢-test a 0 nonzero) (
              resume (assignment strtoimax vars pointer f t false) _ st₂ st₃ b b st₃.env e' (
                Ends-if _ _ (st₃.last_token == tok_colon) _ _ st₃
                  (λ _. pair-Quiet strtoimax vars pointer st₃.env _ _ st₃ refl λ t' v' op' st₄ h₄.
                    constant (cond strtoimax vars pointer f t' v' op' true) _ b st₃.env st₄
                      (λ r. refl) (cond-Quiet strtoimax vars pointer st₃.env f t' v' op' st₄ h₄))
                  (λ _. (refl, tt)))))))
