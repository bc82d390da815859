-- ===== src/Test/Cmd/Posix.antt =====
-- src/bltin/test.c: what POSIX says of test with one to four arguments.
use gwsh.Base.{
  ◌≡◌, refl, ap, ◌∙◌, Bool, true, false, not, ◌&&◌, none, some, List, [], ◌∷◌, Bytes, bytes_eq,
  codes, arith, Bool-cases, inl, inr, if◌then◌else◌,
}
use gwsh.MyString.{Strtoimax}
use gwsh.Test.Ops.{operand, Op, OpType, getop, binop, is_type}
use gwsh.Test.File.{System}
use gwsh.Test.Monad.{>>=-ok, >>=-err, Argv, Cursor, illegal_number, Outcome, ok, err}
use gwsh.Test.Eval.{
  Tested, tested, not_a_number, of_tested, is_lparen, t_lex, oexpr, operand_cmd, binop_test,
}
use gwsh.Test.Eval.Single.{oexpr-single, oexpr-single_err}
use gwsh.Test.Cmd.{
  Verdict, exited, failed, verdict, eval_from, words_argv, run_operand, recheck, testcmd,
}

-- The opposite exit status; an error stays.
abbrev pub opposite : Verdict → Verdict
opposite (exited b) = exited (not b)
opposite (failed e) = failed e

-- The status of a test that has a result.
abbrev pub status : Tested → Verdict
status (tested b) = exited (not b)
status not_a_number = failed illegal_number

verdict-not : (res : Bool) (o : Outcome Bool) → verdict (not res) o ≡ opposite (verdict res o)
verdict-not true (ok true c) = refl
verdict-not true (ok false c) = refl
verdict-not false (ok true c) = refl
verdict-not false (ok false c) = refl
verdict-not true (err e) = refl
verdict-not false (err e) = refl

opposite_if :
    (b : Bool) {x y : Verdict} (x' y' : Verdict)
    → x ≡ opposite x'
    → y ≡ opposite y'
    → (if b then x else y) ≡ opposite (if b then x' else y')
opposite_if true x' y' h k = h
opposite_if false x' y' h k = k

module _ (strtoimax : Strtoimax) (sys : System) where
  -- Where a test starts with the other result, it ends with the other result.
  recheck-not :
      (nulls : Argv) (words : List Bytes) (res : Bool)
      → recheck strtoimax sys nulls words (not res)
        ≡ opposite (recheck strtoimax sys nulls words res)
  unfolding recheck
  recheck-not nulls [] res = refl
  recheck-not nulls (a ∷ []) res = verdict-not res _
  recheck-not nulls (a ∷ b ∷ []) res = verdict-not res _
  recheck-not nulls (a ∷ b ∷ c ∷ []) res =
      opposite_if (is_type binop (getop b)) _ _ (verdict-not res _) (
        opposite_if (bytes_eq a (codes "(") && bytes_eq c (codes ")")) _ _ (verdict-not res _) (
          opposite_if (bytes_eq a (codes "!")) _ _ (recheck-not nulls (b ∷ c ∷ []) (not res))
            (verdict-not res _)))
  recheck-not nulls (a ∷ b ∷ c ∷ d ∷ []) res =
      opposite_if (bytes_eq a (codes "(") && bytes_eq d (codes ")")) _ _ (verdict-not res _) (
        opposite_if (bytes_eq a (codes "!")) _ _ (recheck-not nulls (b ∷ c ∷ d ∷ []) (not res))
          (verdict-not res _))
  recheck-not nulls (a ∷ b ∷ c ∷ d ∷ e ∷ words) res = verdict-not res _

  -- With four arguments of which the first is `!`, the exit status is the opposite of that of the
  -- other three.
  pub test_negates_four :
      (b c d : Bytes)
      → testcmd strtoimax sys (codes "test") (codes "!" ∷ b ∷ c ∷ d ∷ [])
        ≡ opposite (testcmd strtoimax sys (codes "test") (b ∷ c ∷ d ∷ []))
  unfolding testcmd
  test_negates_four b c d = recheck-not (none ∷ []) (b ∷ c ∷ d ∷ []) true

  -- With three arguments of which the first is `!` and the second no binary operator, the exit status
  -- is the opposite of that of the other two.
  pub test_negates_three :
      (b c : Bytes)
      → is_type binop (getop b) ≡ false
      → testcmd strtoimax sys (codes "test") (codes "!" ∷ b ∷ c ∷ [])
        ≡ opposite (testcmd strtoimax sys (codes "test") (b ∷ c ∷ []))
  unfolding testcmd
  test_negates_three b c e = rw e (recheck-not (none ∷ []) (b ∷ c ∷ []) true)

  binop_type : (op : Op) → is_type binop (some op) ≡ true → op.op_type ≡ OpType.binop
  binop_type op e = ground arith

  -- The second of three arguments is read as the operator that it is.
  t_lex-binary :
      (a b c : Bytes) (op : Op) (cur : Cursor)
      → getop b ≡ some op
      → is_type binop (some op) ≡ true
      → t_lex strtoimax sys (words_argv (a ∷ b ∷ c ∷ []) (none ∷ [])) 1 cur
        ≡ ok op.op_num (record cur { t_wp_op = some op })
  unfolding t_lex
  t_lex-binary a b c op cur e t =
      rw (e, binop_type op t)
        (elim (Bool-cases (is_lparen (some op))) [ inl l ↦ rw l | inr l ↦ rw l ])

  operand_cmd-binary :
      (a b c : Bytes) (op : Op)
      → getop b ≡ some op
      → is_type binop (some op) ≡ true
      → operand_cmd strtoimax sys
          (words_argv (a ∷ b ∷ c ∷ []) (none ∷ []))
          operand
          (record { t_wp = 0; t_wp_op = none })
        ≡ of_tested
            (binop_test strtoimax sys op.op_num a c)
            (record { t_wp = 2; t_wp_op = some op })
  unfolding operand_cmd
  operand_cmd-binary a b c op e t =
      >>=-ok (t_lex strtoimax sys (words_argv (a ∷ b ∷ c ∷ []) (none ∷ [])) 1) _
        (record { t_wp = 0; t_wp_op = none }) (record { t_wp = 0; t_wp_op = some op }) op.op_num
        (t_lex-binary a b c op (record { t_wp = 0; t_wp_op = none }) e t)
      ∙ rw (binop_type op t)

  -- What runs after the operator has been tested finds the end of the arguments.
  run_operand_of :
      (a b c : Bytes) (op : Op) (r : Tested)
      → operand_cmd strtoimax sys
          (words_argv (a ∷ b ∷ c ∷ []) (none ∷ []))
          operand
          (record { t_wp = 0; t_wp_op = none })
        ≡ of_tested r (record { t_wp = 2; t_wp_op = some op })
      → run_operand strtoimax sys (words_argv (a ∷ b ∷ c ∷ []) (none ∷ [])) true ≡ status r
  unfolding eval_from t_lex
  run_operand_of a b c op (tested v) e = ap (verdict true) (
      >>=-ok (oexpr strtoimax sys (words_argv (a ∷ b ∷ c ∷ []) (none ∷ [])) 24 operand false) _
        (record { t_wp = 0; t_wp_op = none }) (record { t_wp = 2; t_wp_op = none }) v
        (oexpr-single strtoimax sys (words_argv (a ∷ b ∷ c ∷ []) (none ∷ [])) 22 operand v
          (record { t_wp = 0; t_wp_op = none }) (record { t_wp = 2; t_wp_op = some op })
          (record { t_wp = 2; t_wp_op = none }) (record { t_wp = 2; t_wp_op = none }) e refl refl))
  run_operand_of a b c op not_a_number e = ap (verdict true) (
      >>=-err (oexpr strtoimax sys (words_argv (a ∷ b ∷ c ∷ []) (none ∷ [])) 24 operand false) _
        (record { t_wp = 0; t_wp_op = none }) illegal_number
        (oexpr-single_err strtoimax sys (words_argv (a ∷ b ∷ c ∷ []) (none ∷ [])) 22 operand
          illegal_number (record { t_wp = 0; t_wp_op = none }) e))

  -- With three arguments of which the second is a binary operator, the test is that of the operator,
  -- whatever the operands look like.
  pub test_binary :
      (a b c : Bytes) (op : Op)
      → getop b ≡ some op
      → is_type binop (some op) ≡ true
      → testcmd strtoimax sys (codes "test") (a ∷ b ∷ c ∷ [])
        ≡ status (binop_test strtoimax sys op.op_num a c)
  unfolding testcmd
  test_binary a b c op e t =
      rw (e, binop_type op t)
        (run_operand_of a b c op (binop_test strtoimax sys op.op_num a c)
          (operand_cmd-binary a b c op e t))
