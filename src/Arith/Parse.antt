-- ===== src/Arith/Parse.antt =====
-- src/arith_yacc.c: the parser, which evaluates as it reads. `noeval` is set in the parts of an
-- expression that `&&`, `||` and `?:` skip.
pub mod Ends
pub mod Total
pub mod Noeval
pub mod ShortCircuit
use gwsh.Base.{
  ℕ, zero, suc, ◌+◌, ◌-◌, ◌*◌, ◌≡◌, Bool, true, false, not, ◌&&◌, ◌||◌, List, [], ◌∷◌, ltb, leb,
  ◌==◌, if◌then◌else◌, length, Bytes,
}
use gwsh.Syntax.{is_space, is_digit, is_name, is_in_name}
use gwsh.MyString.{Strtoimax, atomax_end, skip_spaces}
use gwsh.Intmax.{u_neg, u_not, of_bool}
use gwsh.Arith.Token.{
  tok_eof, tok_or, tok_and, tok_bad, tok_num, tok_var, tok_ass, tok_not, tok_add, tok_sub,
  tok_lparen, tok_rparen, tok_bnot, tok_qmark, tok_colon, is_binop, is_compound, max_prec,
  arith_prec, higher_prec,
}
use gwsh.Arith.Ops.{
  Error, division_by_zero, expecting_rparen, expecting_primary, expecting_colon, expecting_eof,
  illegal_number, VariableError, variable, fault, out_of_fuel, Value, value, fail, do_binop,
}
use gwsh.Arith.Lex.{Lexeme, token_at, num_at, name_at, bad, illegal, lexeme, lex_byte, scan_name}

-- union yystype
pub data Yystype : Type 0 where
  val : ℕ → Yystype
  name : Bytes → Yystype

-- The static variables of the parser, and the shell's variables.
pub record Parser (S : Type 0) : Type 0 where
  pub buf : Bytes
  pub yylval : Yystype
  pub last_token : ℕ
  pub env : S

-- A value in a state, or an error, which leaves the parser and keeps what the variables have become.
pub data Outcome (S : Type 0) (A : Type 0) : Type 0 where
  ok : A → Parser S → Outcome S A
  err : Error → S → Outcome S A

-- The functions of src/var.c that arithmetic calls, over the state of the variables. An error
-- comes with the state that it leaves.
pub data Answer (S : Type 0) : Type 0 where
  answer : ℕ → S → Answer S
  refused : VariableError → S → Answer S

pub record Variables (S : Type 0) : Type 0 where
  pub lookupvarint : Bytes → S → Answer S
  pub setvarint : Bytes → ℕ → S → Answer S

abbrev pub M : Type 0 → Type 0 → Type 0
M S A = Parser S → Outcome S A

infixl 5 ◌>>=◌
abbrev pub ◌>>=◌ : {S A B : Type 0} → M S A → (A → M S B) → M S B
◌>>=◌ m k st = elim (m st) [ ok a st' ↦ k a st' | err e s ↦ err e s ]

abbrev pub ret : {S A : Type 0} → A → M S A
ret a st = ok a st

abbrev pub yyerror : {S A : Type 0} → Error → M S A
yyerror e st = err e st.env

abbrev pub get_yylval : {S : Type 0} → M S Yystype
get_yylval st = ok st.yylval st

abbrev pub get_last : {S : Type 0} → M S ℕ
get_last st = ok st.last_token st

-- last_token = t, then return a
abbrev pub set_last : {S A : Type 0} → ℕ → A → M S A
set_last t a st = ok a (record st { last_token = t })

abbrev pub of_value : {S : Type 0} → Value → M S ℕ
of_value (value v) st = ok v st
of_value (fail e) st = err e st.env

abbrev pub of_answer : {S : Type 0} → Answer S → M S ℕ
of_answer (answer v s) st = ok v (record st { env = s })
of_answer (refused e s) st = err (variable e) s

abbrev pub took : {S : Type 0} → Lexeme → M S ℕ
took (token_at t rest) st = ok t (record st { buf = rest })
took (num_at v rest) st = ok tok_num (record st { buf = rest; yylval = val v })
took (name_at w rest) st = ok tok_var (record st { buf = rest; yylval = name w })
took bad st = ok tok_bad st
took illegal st = err illegal_number st.env

-- the name behind a token ARITH_VAR
abbrev pub name_of : {S : Type 0} → Yystype → M S Bytes
name_of (val v) st = err fault st.env
name_of (name w) st = ok w st

-- `pointer` is the number that the bytes of a pointer to a name make, which is what the code reads
-- for a variable's value where it does not evaluate.
module _ {S : Type 0} (strtoimax : Strtoimax) (vars : Variables S) (pointer : Bytes → ℕ) where
  unfoldable pub yylex : M S ℕ
  yylex st = took (lexeme strtoimax st.buf) st

  abbrev pub val_of : Yystype → ℕ
  val_of (val v) = v
  val_of (name w) = pointer w

  unfoldable pub lookupvarint : Bytes → M S ℕ
  lookupvarint x st = of_answer (vars.lookupvarint x st.env) st

  unfoldable pub setvarint : Bytes → ℕ → M S ℕ
  setvarint x v st = of_answer (vars.setvarint x v st.env) st

  -- what assignment does with the value of its right side
  unfoldable pub assign : ℕ → Yystype → ℕ → M S ℕ
  unfolding lookupvarint setvarint
  assign op target result =
      if op == tok_ass then (do x ← name_of target; setvarint x result) else (do
        x ← name_of target
        old ← lookupvarint x
        v ← of_value (do_binop (op - 14) old result)
        setvarint x v)

  -- Each call spends one unit of fuel.
  unfoldable mutual
    pub primary : ℕ → ℕ → Yystype → ℕ → Bool → M S ℕ
    primary zero token v op noeval = yyerror out_of_fuel
    primary (suc f) token v op noeval =
        let paren : M S ℕ = (do
          result ← assignment f op noeval
          last ← get_last
          if last == tok_rparen
              then (do t ← yylex; set_last t result)
              else yyerror expecting_rparen) in
        let again : M S ℕ = (do v' ← get_yylval; op' ← yylex; primary f op v' op' noeval) in
        if token == tok_lparen
        then paren
        else if token == tok_num
        then set_last op (val_of v)
        else if token == tok_var
        then (if noeval
            then set_last op (val_of v)
            else (do w ← set_last op v; x ← name_of w; lookupvarint x))
        else if token == tok_add
        then again
        else if token == tok_sub
        then (do r ← again; ret (u_neg r))
        else if token == tok_not
        then (do r ← again; ret (of_bool (r == 0)))
        else if token == tok_bnot
        then (do r ← again; ret (u_not r))
        else yyerror expecting_primary

    pub binop2 : ℕ → ℕ → ℕ → ℕ → Bool → M S ℕ
    binop2 zero a op prec noeval = yyerror out_of_fuel
    binop2 (suc f) a op prec noeval = do
      token ← yylex
      v ← get_yylval
      op1 ← yylex
      b1 ← primary f token v op1 noeval
      op2 ← get_last
      let tighter : M S ℕ = binop2 f b1 op2 (arith_prec op) noeval
      b ← if is_binop op2 && higher_prec op2 op then tighter else ret b1
      op3 ← get_last
      a' ← if noeval then ret b else of_value (do_binop op a b)
      let again : M S ℕ = binop2 f a' op3 prec noeval
      if not (is_binop op3) || leb prec (arith_prec op3) then ret a' else again

    pub binop : ℕ → ℕ → Yystype → ℕ → Bool → M S ℕ
    binop zero token v op noeval = yyerror out_of_fuel
    binop (suc f) token v op noeval = do
      a ← primary f token v op noeval
      op' ← get_last
      let more : M S ℕ = binop2 f a op' max_prec noeval
      if is_binop op' then more else ret a

    pub and : ℕ → ℕ → Yystype → ℕ → Bool → M S ℕ
    and zero token v op noeval = yyerror out_of_fuel
    and (suc f) token v op noeval = do
      a ← binop f token v op noeval
      last ← get_last
      let more : M S ℕ = do
        token' ← yylex
        v' ← get_yylval
        op' ← yylex
        b ← and f token' v' op' (noeval || a == 0)
        ret (of_bool (not (a == 0) && not (b == 0)))
      if last == tok_and then more else ret a

    pub or : ℕ → ℕ → Yystype → ℕ → Bool → M S ℕ
    or zero token v op noeval = yyerror out_of_fuel
    or (suc f) token v op noeval = do
      a ← and f token v op noeval
      last ← get_last
      let more : M S ℕ = do
        token' ← yylex
        v' ← get_yylval
        op' ← yylex
        b ← or f token' v' op' (noeval || not (a == 0))
        ret (of_bool (not (a == 0) || not (b == 0)))
      if last == tok_or then more else ret a

    pub cond : ℕ → ℕ → Yystype → ℕ → Bool → M S ℕ
    cond zero token v op noeval = yyerror out_of_fuel
    cond (suc f) token v op noeval = do
      a ← or f token v op noeval
      last ← get_last
      let more : M S ℕ = do
        t ← yylex
        b ← assignment f t (noeval || a == 0)
        last' ← get_last
        let otherwise : M S ℕ = do
          token' ← yylex
          v' ← get_yylval
          op' ← yylex
          c ← cond f token' v' op' (noeval || not (a == 0))
          ret (if a == 0 then c else b)
        if last' == tok_colon then otherwise else yyerror expecting_colon
      if last == tok_qmark then more else ret a

    pub assignment : ℕ → ℕ → Bool → M S ℕ
    assignment zero token noeval = yyerror out_of_fuel
    assignment (suc f) token noeval = do
      v ← get_yylval
      op ← yylex
      let plain : M S ℕ = cond f token v op noeval
      let assigned : M S ℕ = do
        t ← yylex
        result ← assignment f t noeval
        if noeval then ret result else assign op v result
      if token == tok_var && (op == tok_ass || is_compound op) then assigned else plain

  abbrev pub arith_fuel : Bytes → ℕ
  arith_fuel s = 8 * length s + 16

  -- `yylval` and `last_token` keep what an earlier call left in them.
  unfoldable pub arith : Bytes → M S ℕ
  unfolding yylex assign primary do_binop higher_prec lexeme lex_byte scan_name atomax_end
      skip_spaces is_space is_digit is_name is_in_name
  arith s st =
      (do
        t ← yylex
        result ← assignment (arith_fuel s) t false
        last ← get_last
        if last == tok_eof then ret result else yyerror expecting_eof)
        (record st { buf = s })
