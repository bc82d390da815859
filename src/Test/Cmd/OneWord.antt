-- ===== src/Test/Cmd/OneWord.antt =====
-- src/bltin/test.c: test with one argument.
use gwsh.Base.{
  ℕ, suc, ◌≡◌, ◌≢◌, refl, ap, ◌∙◌, true, false, not, Option, none, some, [], ◌∷◌, Bytes, codes,
  arith, Bool-cases, Option-cases, inl, inr,
}
use gwsh.MyString.{Strtoimax}
use gwsh.Test.Ops.{Token, eoi, operand, lparen, unot, Op, getop, unop, is_type}
use gwsh.Test.Ops.Table.{NonEmpty, getop_lem}
use gwsh.Test.File.{System}
use gwsh.Test.Monad.{Argv, Cursor, ok, >>=-ok}
use gwsh.Test.Eval.{nonempty, is_lparen, t_lex, operand_cmd, nexpr, oexpr}
use gwsh.Test.Eval.Single.{oexpr-single}
use gwsh.Test.Cmd.{exited, verdict, testcmd}

abbrev start_op : Option Op → Cursor
start_op op = record { t_wp = 0; t_wp_op = op }

-- `nulls` is what stands behind the null pointer that ends the arguments.
module _ (strtoimax : Strtoimax) (sys : System) (x : Bytes) (nulls : Argv) where
  abbrev argv : Argv
  argv = some x ∷ none ∷ nulls

  abbrev at_start : Option Op → Cursor
  at_start op = start_op op

  operand_cmd-word :
      (n : Token) (op : Option Op)
      → is_type unop op ≡ false
      → operand_cmd strtoimax sys argv n (at_start op) ≡ ok (nonempty x) (at_start none)
  unfolding operand_cmd
  operand_cmd-word n op e = rw e

  -- `!` alone negates nothing, and any other word is tested.
  nexpr-word :
      (f : ℕ) (n : Token) (op : Option Op)
      → is_type unop op ≡ false
      → n ≢ eoi
      → n ≢ lparen
      → (n ≡ unot → nonempty x ≡ true)
      → nexpr strtoimax sys argv (suc (suc (suc f))) n (at_start op)
        ≡ ok (nonempty x) (at_start none)
  unfolding oexpr t_lex
  nexpr-word f unot op e h k u = rw (u refl)
  nexpr-word f eoi op e h k u = absurd (h refl)
  nexpr-word f lparen op e h k u = absurd (k refl)
  nexpr-word f n op e h k u = operand_cmd-word _ op e

  nonempty_of : (s : Bytes) → NonEmpty s → nonempty s ≡ true
  nonempty_of [] h = absurd h
  nonempty_of (c ∷ s) h = refl

  -- What the only word is read as.
  record Read (n : Token) (op : Option Op) : Type 0 where
    lexed : t_lex strtoimax sys argv 0 (at_start none) ≡ ok n (at_start op)
    no_unop : is_type unop op ≡ false
    no_end : n ≢ eoi
    no_lparen : n ≢ lparen
    negation : n ≡ unot → nonempty x ≡ true

  Read-word : (n : Token) × (op : Option Op) × Read n op
  unfolding t_lex
  Read-word = elim (Option-cases (getop x)) [
    | inl e ↦ (
      operand,
      none,
      record {
        lexed = rw e;
        no_unop = refl;
        no_end = λ q. cc;
        no_lparen = λ q. cc;
        negation = λ q. cc;
      },
    )
    | inr (op, e) ↦ elim (Bool-cases (is_type unop (some op))) [
      | inl u ↦ (
        operand,
        none,
        record {
          lexed = rw (e, u);
          no_unop = refl;
          no_end = λ q. cc;
          no_lparen = λ q. cc;
          negation = λ q. cc;
        },
      )
      | inr u ↦ elim (Bool-cases (is_lparen (some op))) [
        | inl l ↦ (
          operand,
          none,
          record {
            lexed = rw (e, u, l);
            no_unop = refl;
            no_end = λ q. cc;
            no_lparen = λ q. cc;
            negation = λ q. cc;
          },
        )
        | inr l ↦ (
          op.op_num,
          some op,
          record {
            lexed = rw (e, u, l);
            no_unop = u;
            no_end = λ q. rw q at (getop_lem x op e).0.0;
            no_lparen = λ q. ground arith;
            negation = λ q. rw (getop_lem x op e).1 (nonempty_of op.op_text (getop_lem x op e).0.1);
          },
        )
      ]
    ]
  ]

  -- The only word is the whole expression, with the fuel that there is.
  oexpr-word :
      (f : ℕ) (n : Token) (op : Option Op)
      → Read n op
      → oexpr strtoimax sys argv (suc (suc (suc (suc (suc f))))) n false (at_start op)
        ≡ ok (nonempty x) (at_start none)
  unfolding t_lex
  oexpr-word f n op r =
      oexpr-single strtoimax sys argv (suc (suc (suc f))) n (nonempty x) (at_start op)
        (at_start none) (at_start none) (at_start none)
        (nexpr-word f n op r.no_unop r.no_end r.no_lparen r.negation) refl refl

module _ (strtoimax : Strtoimax) (sys : System) (x : Bytes) where
  -- With one argument the test is true exactly if the argument is not empty, also where it is an
  -- operator, `!` or a parenthesis.
  pub test_one_word : testcmd strtoimax sys (codes "test") (x ∷ []) ≡ exited (not (nonempty x))
  unfolding testcmd t_lex
  test_one_word =
      let (n, op, r) = Read-word strtoimax sys x [] in
      ap (verdict true) (
        >>=-ok (t_lex strtoimax sys (argv strtoimax sys x []) 0) _ (start_op none) (start_op op) n
          r.lexed
        ∙ >>=-ok (oexpr strtoimax sys (argv strtoimax sys x []) 16 n false) _ (start_op op)
            (start_op none) (nonempty x) (oexpr-word strtoimax sys x [] 11 n op r))

  -- And so is [, where the argument behind that one begins with `]`.
  pub bracket_one_word :
      (rest : Bytes)
      → testcmd strtoimax sys (codes "[") (x ∷ (b']' ∷ rest) ∷ []) ≡ exited (not (nonempty x))
  unfolding testcmd t_lex
  bracket_one_word rest =
      let (n, op, r) = Read-word strtoimax sys x (none ∷ []) in
      ap (verdict true) (
        >>=-ok (t_lex strtoimax sys (argv strtoimax sys x (none ∷ [])) 0) _ (start_op none)
          (start_op op) n r.lexed
        ∙ >>=-ok (oexpr strtoimax sys (argv strtoimax sys x (none ∷ [])) 20 n false) _ (start_op op)
            (start_op none) (nonempty x) (oexpr-word strtoimax sys x (none ∷ []) 15 n op r))
