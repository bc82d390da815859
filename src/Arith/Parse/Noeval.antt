-- ===== src/Arith/Parse/Noeval.antt =====
-- What the parser does where it does not evaluate: it reads, and leaves the variables alone.
use gwsh.Base.{ℕ, zero, suc, ◌≡◌, Bool, true, not, ◌&&◌, ◌||◌, leb, ◌==◌, if◌then◌else◌, Bytes}
use gwsh.MyString.{Strtoimax}
use gwsh.Intmax.{u_neg, u_not, of_bool}
use gwsh.Arith.Token.{
  tok_and, tok_or, tok_qmark, tok_colon, tok_ass, tok_var, tok_num, tok_add, tok_sub, tok_not,
  tok_bnot, tok_lparen, tok_rparen, is_binop, is_compound, arith_prec, higher_prec, max_prec,
}
use gwsh.Arith.Ops.{Error}
use gwsh.Arith.Lex.{Lexeme, token_at, num_at, name_at, bad, illegal, lexeme}
use gwsh.Arith.Parse.{
  Parser, Yystype, Outcome, M, ◌>>=◌, took, ret, get_yylval, yylex, Variables, primary, binop2,
  binop, and, or, cond, assignment,
}
use gwsh.Arith.Parse.Ends.{Ends, Ends-bind, Ends-if}

-- The errors of a text that is no expression, or too long for the fuel.
abbrev pub IsSyntaxError : Error → Type 0
IsSyntaxError Error.division_by_zero = ⊥
IsSyntaxError (Error.variable e) = ⊥
IsSyntaxError _ = Unit

module _ {S : Type 0} (strtoimax : Strtoimax) (vars : Variables S) (pointer : Bytes → ℕ)
    (s : S) where
  abbrev pub Kept : {A : Type 0} → A → Parser S → Type 0
  Kept a st = st.env ≡ s

  abbrev pub Failed : Error → S → Type 0
  Failed e s' = (s' ≡ s) × IsSyntaxError e

  abbrev pub Quiet : {A : Type 0} → Outcome S A → Type 0
  Quiet o = Ends Kept Failed o

  took-Quiet : (l : Lexeme) (st : Parser S) → st.env ≡ s → Quiet (took l st)
  took-Quiet (token_at t rest) st h = h
  took-Quiet (num_at v rest) st h = h
  took-Quiet (name_at w rest) st h = h
  took-Quiet bad st h = h
  took-Quiet illegal st h = (h, tt)

  pub then_Quiet :
      {A : Type 0} (m : M S A) (k : A → M S ℕ) (st : Parser S)
      → Quiet (m st)
      → ((a : A) (st' : Parser S) → st'.env ≡ s → Quiet (k a st'))
      → Quiet ((m >>= k) st)
  then_Quiet m k st h next = Ends-bind Kept Kept Failed m k st h next

  pub next-Quiet :
      (P : ℕ → Parser S → Type 0) (k : ℕ → M S ℕ) (st : Parser S)
      → st.env ≡ s
      → ((t : ℕ) (st' : Parser S) → st'.env ≡ s → Ends P Failed (k t st'))
      → Ends P Failed ((yylex strtoimax vars pointer >>= k) st)
  unfolding yylex
  next-Quiet P k st h next =
      Ends-bind Kept P Failed (yylex strtoimax vars pointer) k st
        (took-Quiet (lexeme strtoimax st.buf) st h) next

  pub if_Quiet :
      (b : Bool) (m m' : M S ℕ) (st : Parser S)
      → Quiet (m st)
      → Quiet (m' st)
      → Quiet ((if b then m else m') st)
  if_Quiet b m m' st h h' = Ends-if Kept Failed b m m' st (λ _. h) (λ _. h')

  pub pair-Quiet :
      (P : ℕ → Parser S → Type 0) (k : ℕ → Yystype → ℕ → M S ℕ) (st : Parser S)
      → st.env ≡ s
      → ((t : ℕ) (v : Yystype) (op : ℕ) (st' : Parser S)
          → st'.env ≡ s
          → Ends P Failed (k t v op st'))
      → Ends P Failed (
          (do
            t ← yylex strtoimax vars pointer
            v ← get_yylval
            op ← yylex strtoimax vars pointer
            k t v op)
            st)
  pair-Quiet P k st h next =
      next-Quiet P _ st h λ t st₁ h₁. next-Quiet P _ st₁ h₁ λ op st₂ h₂. next t st₁.yylval op st₂ h₂

  mutual
    unfolding primary

    pub primary-Quiet :
        (f token : ℕ) (v : Yystype) (op : ℕ) (st : Parser S)
        → st.env ≡ s
        → Quiet (primary strtoimax vars pointer f token v op true st)
    primary-Quiet zero token v op st h = (h, tt)
    primary-Quiet (suc f) token v op st h =
        let signed : M S ℕ = (do
          v' ← get_yylval
          op' ← yylex strtoimax vars pointer
          primary strtoimax vars pointer f op v' op' true) in
        let again : Quiet (signed st) =
          next-Quiet Kept _ st h λ op' st' h'. primary-Quiet f op st.yylval op' st' h' in
        if_Quiet (token == tok_lparen) _ _ st
          (then_Quiet (assignment strtoimax vars pointer f op true) _ st
            (assignment-Quiet f op st h)
            λ r st' h'.
              if_Quiet (st'.last_token == tok_rparen) _ _ st'
                (next-Quiet Kept _ st' h' (λ t st'' h''. h'')) (h', tt))
          (if_Quiet (token == tok_num) _ _ st h (
            if_Quiet (token == tok_var) _ _ st h (
              if_Quiet (token == tok_add) _ _ st again (
                if_Quiet (token == tok_sub) _ _ st
                  (then_Quiet signed (λ r. ret (u_neg r)) st again (λ r st' h'. h'))
                  (if_Quiet (token == tok_not) _ _ st
                    (then_Quiet signed (λ r. ret (of_bool (r == 0))) st again (λ r st' h'. h'))
                    (if_Quiet (token == tok_bnot) _ _ st
                      (then_Quiet signed (λ r. ret (u_not r)) st again (λ r st' h'. h'))
                      (h, tt)))))))

    pub binop2-Quiet :
        (f a op prec : ℕ) (st : Parser S)
        → st.env ≡ s
        → Quiet (binop2 strtoimax vars pointer f a op prec true st)
    binop2-Quiet zero a op prec st h = (h, tt)
    binop2-Quiet (suc f) a op prec st h = pair-Quiet Kept _ st h λ token v op1 st₁ h₁.
        then_Quiet (primary strtoimax vars pointer f token v op1 true) _ st₁
          (primary-Quiet f token v op1 st₁ h₁)
          λ b1 st₂ h₂.
            then_Quiet
              (if is_binop st₂.last_token && higher_prec st₂.last_token op
                then binop2 strtoimax vars pointer f b1 st₂.last_token (arith_prec op) true
                else ret b1)
              _ st₂
              (if_Quiet (is_binop st₂.last_token && higher_prec st₂.last_token op) _ _ st₂
                (binop2-Quiet f b1 st₂.last_token (arith_prec op) st₂ h₂) h₂)
              λ b st₃ h₃.
                if_Quiet (not (is_binop st₃.last_token) || leb prec (arith_prec st₃.last_token)) _ _
                  st₃ h₃ (binop2-Quiet f b st₃.last_token prec st₃ h₃)

    pub binop-Quiet :
        (f token : ℕ) (v : Yystype) (op : ℕ) (st : Parser S)
        → st.env ≡ s
        → Quiet (binop strtoimax vars pointer f token v op true st)
    binop-Quiet zero token v op st h = (h, tt)
    binop-Quiet (suc f) token v op st h =
        then_Quiet (primary strtoimax vars pointer f token v op true) _ st
          (primary-Quiet f token v op st h)
          λ a st₁ h₁.
            if_Quiet (is_binop st₁.last_token) _ _ st₁
              (binop2-Quiet f a st₁.last_token max_prec st₁ h₁) h₁

    pub and-Quiet :
        (f token : ℕ) (v : Yystype) (op : ℕ) (st : Parser S)
        → st.env ≡ s
        → Quiet (and strtoimax vars pointer f token v op true st)
    and-Quiet zero token v op st h = (h, tt)
    and-Quiet (suc f) token v op st h =
        then_Quiet (binop strtoimax vars pointer f token v op true) _ st
          (binop-Quiet f token v op st h)
          λ a st₁ h₁.
            if_Quiet (st₁.last_token == tok_and) _ _ st₁
              (pair-Quiet Kept _ st₁ h₁ λ t v' op' st₂ h₂.
                then_Quiet (and strtoimax vars pointer f t v' op' true) _ st₂
                  (and-Quiet f t v' op' st₂ h₂) (λ b st₃ h₃. h₃))
              h₁

    pub or-Quiet :
        (f token : ℕ) (v : Yystype) (op : ℕ) (st : Parser S)
        → st.env ≡ s
        → Quiet (or strtoimax vars pointer f token v op true st)
    or-Quiet zero token v op st h = (h, tt)
    or-Quiet (suc f) token v op st h =
        then_Quiet (and strtoimax vars pointer f token v op true) _ st (and-Quiet f token v op st h)
          λ a st₁ h₁.
            if_Quiet (st₁.last_token == tok_or) _ _ st₁
              (pair-Quiet Kept _ st₁ h₁ λ t v' op' st₂ h₂.
                then_Quiet (or strtoimax vars pointer f t v' op' true) _ st₂
                  (or-Quiet f t v' op' st₂ h₂) (λ b st₃ h₃. h₃))
              h₁

    pub cond-Quiet :
        (f token : ℕ) (v : Yystype) (op : ℕ) (st : Parser S)
        → st.env ≡ s
        → Quiet (cond strtoimax vars pointer f token v op true st)
    cond-Quiet zero token v op st h = (h, tt)
    cond-Quiet (suc f) token v op st h =
        then_Quiet (or strtoimax vars pointer f token v op true) _ st (or-Quiet f token v op st h)
          λ a st₁ h₁.
            if_Quiet (st₁.last_token == tok_qmark) _ _ st₁
              (next-Quiet Kept _ st₁ h₁ λ t st₂ h₂.
                then_Quiet (assignment strtoimax vars pointer f t true) _ st₂
                  (assignment-Quiet f t st₂ h₂)
                  λ b st₃ h₃.
                    if_Quiet (st₃.last_token == tok_colon) _ _ st₃
                      (pair-Quiet Kept _ st₃ h₃ λ t' v' op' st₄ h₄.
                        then_Quiet (cond strtoimax vars pointer f t' v' op' true) _ st₄
                          (cond-Quiet f t' v' op' st₄ h₄) (λ c st₅ h₅. h₅))
                      (h₃, tt))
              h₁

    pub assignment-Quiet :
        (f token : ℕ) (st : Parser S)
        → st.env ≡ s
        → Quiet (assignment strtoimax vars pointer f token true st)
    assignment-Quiet zero token st h = (h, tt)
    assignment-Quiet (suc f) token st h = next-Quiet Kept _ st h λ op st₁ h₁.
        if_Quiet (token == tok_var && (op == tok_ass || is_compound op)) _ _ st₁
          (next-Quiet Kept _ st₁ h₁ λ t st₂ h₂.
            then_Quiet (assignment strtoimax vars pointer f t true) _ st₂
              (assignment-Quiet f t st₂ h₂) (λ r st₃ h₃. h₃))
          (cond-Quiet f token st.yylval op st₁ h₁)
