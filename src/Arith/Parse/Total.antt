-- ===== src/Arith/Parse/Total.antt =====
-- The parser ends within its fuel, on every text.
use gwsh.Base.{
  ℕ, zero, suc, ◌+◌, ◌-◌, ◌*◌, ap, leb, ◌<◌, ◌≤◌, ◌≡◌, refl, Bool, true, false, not, ◌&&◌, ◌||◌,
  arith, ◌==◌, ==_iff, if◌then◌else◌, length, Bytes,
}
use gwsh.MyString.{Strtoimax, IsStrtoimax}
use gwsh.Arith.Token.{
  tok_eof, tok_var, tok_num, tok_add, tok_sub, tok_not, tok_bnot, tok_lparen, tok_rparen, tok_and,
  tok_or, tok_qmark, tok_colon, tok_ass, is_binop, is_compound, arith_prec, higher_prec, max_prec,
}
use gwsh.Intmax.{u_neg, u_not, of_bool}
use gwsh.Arith.Ops.{Error, Value, value, fail, do_binop}
use gwsh.Arith.Ops.Errors.{OnlyDivides, do_binop-OnlyDivides}
use gwsh.Arith.Lex.{Lexeme, token_at, num_at, name_at, bad, illegal, lexeme}
use gwsh.Arith.Lex.Progress.{weight, Fits, lexeme-Fits}
use gwsh.Arith.Parse.{
  Parser, Yystype, val, name, Answer, answer, refused, of_answer, of_value, ret, Outcome, ok, M,
  ◌>>=◌, took, yylex, set_last, val_of, name_of, lookupvarint, assign, arith as arith_text,
  arith_fuel, Variables, primary, binop2, binop, and, or, cond, assignment,
}
use gwsh.Arith.Parse.Ends.{Ends, Ends-bind, Ends-map, Ends-if, IsName, Goes, IsReported}

module _ {S : Type 0} where
  abbrev Reported : Error → S → Type 0
  Reported e s = IsReported e

  -- The token at hand and the text left are fewer than `n`.
  abbrev Below : ℕ → ℕ → Parser S → Type 0
  Below n v st = weight st.last_token + length st.buf < n

  -- What yylex returns of a text of `n` bytes at most.
  abbrev Lexed : ℕ → ℕ → Parser S → Type 0
  Lexed n t st = (weight t + length st.buf ≤ n) × Goes t st.yylval

  -- Nothing was read.
  abbrev SamePlace : Parser S → Parser S → Type 0
  SamePlace st st' = (st'.last_token ≡ st.last_token) × (st'.buf ≡ st.buf)

  took-Lexed :
      (n : ℕ) (l : Lexeme) (st : Parser S)
      → length st.buf ≤ n
      → Fits n l
      → Ends (Lexed n) Reported (took l st)
  took-Lexed n (token_at t rest) st h fits = (fits.0, λ e. absurd (fits.1 e))
  took-Lexed n (num_at v rest) st h fits = ground arith
  took-Lexed n (name_at w rest) st h fits = (omega arith, λ _. tt)
  took-Lexed n bad st h fits = ground arith
  took-Lexed n illegal st h fits = tt

answer-Ends :
    {S : Type 0} (n : ℕ) (a : Answer S) (st : Parser S)
    → Below n 0 st
    → Ends (Below n) Reported (of_answer a st)
answer-Ends n (answer v s) st h = h
answer-Ends n (refused e s) st h = tt

value-Ends :
    {S : Type 0} (P : Parser S → Type 0) (op a b : ℕ) (st : Parser S)
    → P st
    → Ends (λ _ s. P s) Reported (of_value (do_binop op a b) st)
value-Ends P op a b st h = go (do_binop op a b) (do_binop-OnlyDivides op a b)
  where
    go : (v : Value) → OnlyDivides v → Ends (λ _ s. P s) Reported (of_value v st)
    go (value x) t = h
    go (fail Error.division_by_zero) t = tt
    go (fail _) t = absurd t

weight_of : (t c : ℕ) → weight c ≡ 1 → (t == c) ≡ true → weight t ≡ 1
weight_of t c w h = ground arith

not_left : (a b : Bool) → (not a || b) ≡ false → a ≡ true
not_left true b h = refl
not_left false b h = cc

and_left : (a b : Bool) → (a && b) ≡ true → a ≡ true
and_left true b h = refl
and_left false b h = h

weight_of_binop : (op : ℕ) → is_binop op ≡ true → weight op ≡ 1
weight_of_binop op h = ground arith

Below-mono :
    {S : Type 0} (m n : ℕ)
    → m ≤ n
    → (o : Outcome S ℕ) → Ends (Below m) Reported o
    → Ends (Below n) Reported o
Below-mono m n h o = Ends-map (Below m) (Below n) Reported o (λ v st below. omega arith)

module _ {S : Type 0} (strtoimax : Strtoimax) (vars : Variables S) (pointer : Bytes → ℕ)
    (laws : IsStrtoimax strtoimax) where
  -- One token is read, then `k` runs.
  next-Ends :
      (P : ℕ → Parser S → Type 0) (n : ℕ) (k : ℕ → M S ℕ) (st : Parser S)
      → length st.buf ≤ n
      → ((t : ℕ) (st' : Parser S) → Lexed n t st' → Ends P Reported (k t st'))
      → Ends P Reported ((yylex strtoimax vars pointer >>= k) st)
  unfolding yylex
  next-Ends P n k st h next =
      Ends-bind (Lexed (length st.buf)) P Reported (yylex strtoimax vars pointer) k st
        (took-Lexed (length st.buf) (lexeme strtoimax st.buf) st (omega arith)
          (lexeme-Fits laws st.buf))
        (λ t st' lexed. next t st' (omega arith, lexed.1))

  -- A token and the one after it are read, then `k` runs on both.
  pair-Ends :
      (P : ℕ → Parser S → Type 0) (n : ℕ) (k : ℕ → Yystype → ℕ → M S ℕ) (st : Parser S)
      → length st.buf ≤ n
      → ((t : ℕ) (v : Yystype) (op : ℕ) (st' : Parser S)
          → weight t + weight op + length st'.buf ≤ n
          → Goes t v
          → Goes op st'.yylval
          → Ends P Reported (k t v op st'))
      → Ends P Reported (
          (do
            t ← yylex strtoimax vars pointer
            v ← λ s. ok s.yylval s
            op ← yylex strtoimax vars pointer
            k t v op)
            st)
  pair-Ends P n k st h next = next-Ends P n _ st h λ t st₁ first.
      next-Ends P (length st₁.buf) _ st₁ (omega arith)
        λ op st₂ second. next t st₁.yylval op st₂ (omega arith) first.1 second.1

  -- A variable's value, or the bits of its name.
  var-Ends :
      (n token : ℕ) (v : Yystype) (op : ℕ) (noeval : Bool) (st : Parser S)
      → weight token + weight op + length st.buf ≤ n
      → (token == tok_var) ≡ true
      → IsName v
      → Ends (Below n) Reported (
          (if noeval
              then set_last op (val_of strtoimax vars pointer v)
              else (do w ← set_last op v; x ← name_of w; lookupvarint strtoimax vars pointer x))
            st)
  unfolding lookupvarint
  var-Ends n token (val x) op noeval st room e named = absurd named
  var-Ends n token (name w) op true st room e named = omega (arith, weight_of token tok_var refl e)
  var-Ends n token (name w) op false st room e named =
      answer-Ends n (vars.lookupvarint w st.env) (record st { last_token = op })
        (omega (arith, weight_of token tok_var refl e))

  assign-Ends :
      (n op : ℕ) (target : Yystype) (r : ℕ) (st : Parser S)
      → IsName target
      → Below n 0 st
      → Ends (Below n) Reported (assign strtoimax vars pointer op target r st)
  unfolding assign
  assign-Ends n op (val x) r st named h = absurd named
  assign-Ends n op (name x) r st named h =
      Ends-if (Below n) Reported (op == tok_ass) _ _ st
        (λ _. answer-Ends n (vars.setvarint x r st.env) st h)
        (λ _.
          Ends-bind (Below n) (Below n) Reported (lookupvarint strtoimax vars pointer x) _ st
            (answer-Ends n (vars.lookupvarint x st.env) st h)
            λ old st₁ h₁.
              Ends-bind (Below n) (Below n) Reported (of_value (do_binop (op - 14) old r)) _ st₁
                (value-Ends (Below n 0) (op - 14) old r st₁ h₁)
                λ v st₂ h₂. answer-Ends n (vars.setvarint x v st₂.env) st₂ h₂)

  then_ret :
      (n : ℕ) (m : M S ℕ) (st : Parser S)
      → Ends (Below n) Reported (m st)
      → (g : ℕ → ℕ) → Ends (Below n) Reported ((do r ← m; ret (g r)) st)
  then_ret n m st h g =
      Ends-bind (Below n) (Below n) Reported m (λ r. ret (g r)) st h (λ r st' below. below)

  mutual
    unfolding primary

    primary-Ends :
        (f n token : ℕ) (v : Yystype) (op : ℕ) (noeval : Bool) (st : Parser S)
        → weight token + weight op + length st.buf ≤ n
        → 8 * n < f
        → Goes token v
        → Goes op st.yylval
        → Ends (Below n) Reported (primary strtoimax vars pointer f token v op noeval st)
    primary-Ends zero n token v op noeval st room fuel goes goes' = absurd (omega arith)
    primary-Ends (suc f) n token v op noeval st room fuel goes goes' =
        let signed : M S ℕ = (do
          v' ← λ s. ok s.yylval s
          op' ← yylex strtoimax vars pointer
          primary strtoimax vars pointer f op v' op' noeval) in
        let again : weight token ≡ 1 → Ends (Below n) Reported (signed st) = λ w.
          next-Ends (Below n) (length st.buf) _ st (omega arith) λ op' st' lexed.
            Below-mono (weight op + length st.buf) n (omega arith) _ (
              primary-Ends f (weight op + length st.buf) op st.yylval op' noeval st' (omega arith)
                (omega arith) goes' lexed.1) in
        Ends-if (Below n) Reported (token == tok_lparen) _ _ st
          (λ e.
            Ends-bind (Below (weight op + length st.buf)) (Below n) Reported
              (assignment strtoimax vars pointer f op noeval) _ st
              (assignment-Ends f (weight op + length st.buf) op noeval st (omega arith)
                (omega (arith, weight_of token tok_lparen refl e)) goes')
              (λ r st' below.
                Ends-if (Below n) Reported (st'.last_token == tok_rparen) _ _ st'
                  (λ e'.
                    next-Ends (Below n) (length st'.buf) _ st' (omega arith)
                      (λ t st'' lexed. omega arith))
                  (λ _. tt)))
          (λ _.
            Ends-if (Below n) Reported (token == tok_num) _ _ st
              (λ e. omega (arith, weight_of token tok_num refl e))
              (λ _.
                Ends-if (Below n) Reported (token == tok_var) _ _ st
                  (λ e. var-Ends n token v op noeval st room e (goes ((==_iff token tok_var).0 e)))
                  (λ _.
                    Ends-if (Below n) Reported (token == tok_add) _ _ st
                      (λ e. again (weight_of token tok_add refl e))
                      (λ _.
                        Ends-if (Below n) Reported (token == tok_sub) _ _ st
                          (λ e. then_ret n signed st (again (weight_of token tok_sub refl e)) u_neg)
                          (λ _.
                            Ends-if (Below n) Reported (token == tok_not) _ _ st
                              (λ e.
                                then_ret n signed st (again (weight_of token tok_not refl e))
                                  (λ r. of_bool (r == 0)))
                              (λ _.
                                Ends-if (Below n) Reported (token == tok_bnot) _ _ st
                                  (λ e.
                                    then_ret n signed st (again (weight_of token tok_bnot refl e))
                                      u_not)
                                  (λ _. tt)))))))

    binop2-Ends :
        (f n a op prec : ℕ) (noeval : Bool) (st : Parser S)
        → length st.buf ≤ n
        → 8 * n + 1 < f
        → Ends (Below n) Reported (binop2 strtoimax vars pointer f a op prec noeval st)
    binop2-Ends zero n a op prec noeval st room fuel = absurd (omega arith)
    binop2-Ends (suc f) n a op prec noeval st room fuel =
        pair-Ends (Below n) n _ st room λ token v op1 st₁ room₁ goes goes'.
          Ends-bind (Below n) (Below n) Reported
            (primary strtoimax vars pointer f token v op1 noeval) _ st₁
            (primary-Ends f n token v op1 noeval st₁ room₁ (omega arith) goes goes')
            λ b1 st₂ below.
              Ends-bind (Below n) (Below n) Reported
                (if is_binop st₂.last_token && higher_prec st₂.last_token op
                  then binop2 strtoimax vars pointer f b1 st₂.last_token (arith_prec op) noeval
                  else ret b1)
                _ st₂
                (Ends-if (Below n) Reported
                  (is_binop st₂.last_token && higher_prec st₂.last_token op) _ _ st₂
                  (λ e.
                    let w = weight_of_binop st₂.last_token (and_left _ _ e) in
                    Below-mono (length st₂.buf) n (omega arith) _ (
                      binop2-Ends f (length st₂.buf) b1 st₂.last_token (arith_prec op) noeval st₂
                        (omega arith) (omega arith)))
                  (λ _. below))
                λ b st₃ below'.
                  Ends-bind (λ _ st₄. SamePlace st₃ st₄) (Below n) Reported
                    (if noeval then ret b else of_value (do_binop op a b)) _ st₃
                    (Ends-if (λ _ st₄. SamePlace st₃ st₄) Reported noeval _ _ st₃
                      (λ _. (refl, refl)) (λ _. value-Ends (SamePlace st₃) op a b st₃ (refl, refl)))
                    λ a' st₄ same.
                      let l = ap weight same.0 in
                      let r = ap length same.1 in
                      Ends-if (Below n) Reported
                        (not (is_binop st₃.last_token) || leb prec (arith_prec st₃.last_token)) _ _
                        st₄ (λ _. omega arith)
                        (λ e.
                          let w = weight_of_binop st₃.last_token (not_left _ _ e) in
                          Below-mono (length st₃.buf) n (omega arith) _ (
                            binop2-Ends f (length st₃.buf) a' st₃.last_token prec noeval st₄
                              (omega arith) (omega arith)))

    binop-Ends :
        (f n token : ℕ) (v : Yystype) (op : ℕ) (noeval : Bool) (st : Parser S)
        → weight token + weight op + length st.buf ≤ n
        → 8 * n + 2 ≤ f
        → Goes token v
        → Goes op st.yylval
        → Ends (Below n) Reported (binop strtoimax vars pointer f token v op noeval st)
    binop-Ends zero n token v op noeval st room fuel goes goes' = absurd (omega arith)
    binop-Ends (suc f) n token v op noeval st room fuel goes goes' =
        Ends-bind (Below n) (Below n) Reported (primary strtoimax vars pointer f token v op noeval)
          _ st (primary-Ends f n token v op noeval st room (omega arith) goes goes')
          λ a st₁ below.
            Ends-if (Below n) Reported (is_binop st₁.last_token) _ _ st₁
              (λ e.
                let w = weight_of_binop st₁.last_token e in
                Below-mono (length st₁.buf) n (omega arith) _ (
                  binop2-Ends f (length st₁.buf) a st₁.last_token max_prec noeval st₁ (omega arith)
                    (omega arith)))
              (λ _. below)

    and-Ends :
        (f n token : ℕ) (v : Yystype) (op : ℕ) (noeval : Bool) (st : Parser S)
        → weight token + weight op + length st.buf ≤ n
        → 8 * n + 3 ≤ f
        → Goes token v
        → Goes op st.yylval
        → Ends (Below n) Reported (and strtoimax vars pointer f token v op noeval st)
    and-Ends zero n token v op noeval st room fuel goes goes' = absurd (omega arith)
    and-Ends (suc f) n token v op noeval st room fuel goes goes' =
        Ends-bind (Below n) (Below n) Reported (binop strtoimax vars pointer f token v op noeval) _
          st (binop-Ends f n token v op noeval st room (omega arith) goes goes')
          λ a st₁ below.
            Ends-if (Below n) Reported (st₁.last_token == tok_and) _ _ st₁
              (λ e.
                let w = weight_of st₁.last_token tok_and refl e in
                pair-Ends (Below n) (length st₁.buf) _ st₁ (omega arith) λ t v' op' st₂ room' g g'.
                  Ends-bind (Below n) (Below n) Reported
                    (and strtoimax vars pointer f t v' op' (noeval || a == 0)) _ st₂
                    (Below-mono (length st₁.buf) n (omega arith) _ (
                      and-Ends f (length st₁.buf) t v' op' (noeval || a == 0) st₂ room'
                        (omega arith) g g'))
                    (λ b st₃ below'. below'))
              (λ _. below)

    or-Ends :
        (f n token : ℕ) (v : Yystype) (op : ℕ) (noeval : Bool) (st : Parser S)
        → weight token + weight op + length st.buf ≤ n
        → 8 * n + 4 ≤ f
        → Goes token v
        → Goes op st.yylval
        → Ends (Below n) Reported (or strtoimax vars pointer f token v op noeval st)
    or-Ends zero n token v op noeval st room fuel goes goes' = absurd (omega arith)
    or-Ends (suc f) n token v op noeval st room fuel goes goes' =
        Ends-bind (Below n) (Below n) Reported (and strtoimax vars pointer f token v op noeval) _ st
          (and-Ends f n token v op noeval st room (omega arith) goes goes')
          λ a st₁ below.
            Ends-if (Below n) Reported (st₁.last_token == tok_or) _ _ st₁
              (λ e.
                let w = weight_of st₁.last_token tok_or refl e in
                pair-Ends (Below n) (length st₁.buf) _ st₁ (omega arith) λ t v' op' st₂ room' g g'.
                  Ends-bind (Below n) (Below n) Reported
                    (or strtoimax vars pointer f t v' op' (noeval || not (a == 0))) _ st₂
                    (Below-mono (length st₁.buf) n (omega arith) _ (
                      or-Ends f (length st₁.buf) t v' op' (noeval || not (a == 0)) st₂ room'
                        (omega arith) g g'))
                    (λ b st₃ below'. below'))
              (λ _. below)

    cond-Ends :
        (f n token : ℕ) (v : Yystype) (op : ℕ) (noeval : Bool) (st : Parser S)
        → weight token + weight op + length st.buf ≤ n
        → 8 * n + 5 ≤ f
        → Goes token v
        → Goes op st.yylval
        → Ends (Below n) Reported (cond strtoimax vars pointer f token v op noeval st)
    cond-Ends zero n token v op noeval st room fuel goes goes' = absurd (omega arith)
    cond-Ends (suc f) n token v op noeval st room fuel goes goes' =
        Ends-bind (Below n) (Below n) Reported (or strtoimax vars pointer f token v op noeval) _ st
          (or-Ends f n token v op noeval st room (omega arith) goes goes')
          λ a st₁ below.
            Ends-if (Below n) Reported (st₁.last_token == tok_qmark) _ _ st₁
              (λ e.
                let w = weight_of st₁.last_token tok_qmark refl e in
                next-Ends (Below n) (length st₁.buf) _ st₁ (omega arith) λ t st₂ lexed.
                  Ends-bind (Below (length st₁.buf)) (Below n) Reported
                    (assignment strtoimax vars pointer f t (noeval || a == 0)) _ st₂
                    (assignment-Ends f (length st₁.buf) t (noeval || a == 0) st₂ lexed.0
                      (omega arith) lexed.1)
                    λ b st₃ below'.
                      Ends-if (Below n) Reported (st₃.last_token == tok_colon) _ _ st₃
                        (λ _.
                          pair-Ends (Below n) (length st₃.buf) _ st₃ (omega arith)
                            λ t' v' op' st₄ room' g g'.
                              then_ret n
                                (cond strtoimax vars pointer f t' v' op' (noeval || not (a == 0)))
                                st₄
                                (Below-mono (length st₃.buf) n (omega arith) _ (
                                  cond-Ends f (length st₃.buf) t' v' op' (noeval || not (a == 0))
                                    st₄ room' (omega arith) g g'))
                                (λ c. if a == 0 then c else b))
                        (λ _. tt))
              (λ _. below)

    assignment-Ends :
        (f n token : ℕ) (noeval : Bool) (st : Parser S)
        → weight token + length st.buf ≤ n
        → 8 * n + 6 ≤ f
        → Goes token st.yylval
        → Ends (Below n) Reported (assignment strtoimax vars pointer f token noeval st)
    assignment-Ends zero n token noeval st room fuel goes = absurd (omega arith)
    assignment-Ends (suc f) n token noeval st room fuel goes =
        next-Ends (Below n) (length st.buf) _ st (omega arith) λ op st₁ lexed.
          Ends-if (Below n) Reported (token == tok_var && (op == tok_ass || is_compound op)) _ _ st₁
            (λ e.
              let is_var = and_left _ _ e in
              let w = weight_of token tok_var refl is_var in
              next-Ends (Below n) (length st₁.buf) _ st₁ (omega arith) λ t st₂ lexed'.
                Ends-bind (Below (length st₁.buf)) (Below n) Reported
                  (assignment strtoimax vars pointer f t noeval) _ st₂
                  (assignment-Ends f (length st₁.buf) t noeval st₂ lexed'.0 (omega arith) lexed'.1)
                  λ r st₃ below.
                    Ends-if (Below n) Reported noeval _ _ st₃ (λ _. omega arith)
                      (λ _.
                        assign-Ends n op st.yylval r st₃ (goes ((==_iff token tok_var).0 is_var))
                          (omega arith)))
            (λ _.
              cond-Ends f n token st.yylval op noeval st₁ (omega arith) (omega arith) goes lexed.1)

  -- With a strtoimax that consumes a digit, arithmetic on any text ends: with a value, the whole
  -- text read, or with an error that the program reports. So the model's fuel is enough, and a number
  -- is never used as the pointer to a name.
  pub arith-Ends :
      (s : Bytes) (st : Parser S)
      → Ends
          (λ v st'. st'.last_token ≡ tok_eof)
          (λ e s'. IsReported e)
          (arith_text strtoimax vars pointer s st)
  unfolding arith_text
  arith-Ends s st =
      next-Ends (λ _ st'. st'.last_token ≡ tok_eof) (length s) _ (record st { buf = s })
        (omega arith)
        λ t st₁ lexed.
          Ends-bind (Below (length s + 1)) (λ _ st'. st'.last_token ≡ tok_eof) Reported
            (assignment strtoimax vars pointer (arith_fuel strtoimax vars pointer s) t false) _ st₁
            (assignment-Ends (arith_fuel strtoimax vars pointer s) (length s + 1) t false st₁
              (omega arith) (omega arith) lexed.1)
            λ r st₂ below.
              Ends-if (λ _ st'. st'.last_token ≡ tok_eof) Reported (st₂.last_token == tok_eof) _ _
                st₂ (λ e. (==_iff st₂.last_token tok_eof).0 e) (λ _. tt)
