-- ===== src/Test/Cmd.antt =====
-- src/bltin/test.c: testcmd, with the rules of POSIX for one to four arguments.
pub mod Posix
pub mod OneWord
pub mod Edges
pub mod Total
use gwsh.Base.{
  ℕ, ◌+◌, ◌*◌, Bool, true, false, not, ◌&&◌, Option, none, some, List, [], ◌∷◌, ◌++◌, Bytes,
  bytes_eq, codes, head_byte, ◌==◌, if◌then◌else◌, length,
}
use gwsh.MyString.{Strtoimax}
use gwsh.Test.Ops.{Token, operand, binop, is_type, getop}
use gwsh.Test.File.{System}
use gwsh.Test.Monad.{
  Argv, Cursor, Error, missing_bracket, unexpected_operator, Outcome, ok, err, T, ◌>>=◌, ret, fail,
  get_wp, slot,
}
use gwsh.Test.Eval.{t_lex, oexpr, operand_cmd}

-- The exit status is 1 for `exited true` and 0 for `exited false`.
pub data Verdict : Type 0 where
  exited : Bool → Verdict
  failed : Error → Verdict

-- res ^= value
abbrev pub flip : Bool → Bool → Bool
flip true v = not v
flip false v = v

abbrev pub words_argv : List Bytes → Argv → Argv
words_argv [] nulls = nulls
words_argv (w ∷ words) nulls = some w ∷ words_argv words nulls

abbrev pub verdict : Bool → Outcome Bool → Verdict
verdict res (ok v c) = exited (flip res v)
verdict res (err e) = failed e

-- if (argv[0] != NULL && argv[1] != NULL) syntax(argv[0], "unexpected operator")
abbrev pub leftover : Option Bytes → Option Bytes → Bool → T Bool
leftover (some w) (some w') v = fail (unexpected_operator w)
leftover _ _ v = ret v

-- The words before the last one, and the last one.
unfoldable pub split_last : Bytes → List Bytes → List Bytes × Bytes
split_last w [] = ([], w)
split_last w (w' ∷ words) = let (front, last) = split_last w' words in (w ∷ front, last)

module _ (strtoimax : Strtoimax) (sys : System) where
  abbrev pub test_fuel : Argv → ℕ
  test_fuel argv = 4 * length argv + 8

  abbrev pub check_end : Argv → Option Bytes → ℕ → Bool → T Bool
  check_end argv none i v = ret v
  check_end argv (some w) i v = do next ← slot argv (i + 1); leftover (some w) next v

  -- from the label eval on
  unfoldable pub eval_from : Argv → Token → T Bool
  unfolding oexpr
  eval_from argv n = do
    v ← oexpr strtoimax sys argv (test_fuel argv) n false
    i ← get_wp
    word ← slot argv i
    check_end argv word i v

  abbrev pub start : Option Cursor → Cursor
  start none = record { t_wp = 0; t_wp_op = none }
  start (some c) = c

  -- n = t_lex(argv), then eval
  unfoldable pub eval_lexed : Argv → T Bool
  unfolding eval_from t_lex
  eval_lexed argv = do n ← t_lex strtoimax sys argv 0; eval_from argv n

  abbrev pub run_lexed : Argv → Bool → Verdict
  run_lexed argv res = verdict res (eval_lexed argv (record { t_wp = 0; t_wp_op = none }))

  abbrev pub run_operand : Argv → Bool → Verdict
  run_operand argv res = verdict res (eval_from argv operand (record { t_wp = 0; t_wp_op = none }))

  -- The label recheck: `words` are the arguments left, `nulls` the slots after them.
  unfoldable pub recheck : Argv → List Bytes → Bool → Verdict
  unfolding eval_lexed
  recheck nulls [] res = exited res
  recheck nulls (a ∷ b ∷ c ∷ []) res =
      if is_type binop (getop b)
      then run_operand (words_argv (a ∷ b ∷ c ∷ []) nulls) res
      else if bytes_eq a (codes "(") && bytes_eq c (codes ")")
      then run_lexed (words_argv (b ∷ []) (none ∷ nulls)) res
      else if bytes_eq a (codes "!")
      then recheck nulls (b ∷ c ∷ []) (not res)
      else run_lexed (words_argv (a ∷ b ∷ c ∷ []) nulls) res
  recheck nulls (a ∷ b ∷ c ∷ d ∷ []) res =
      if bytes_eq a (codes "(") && bytes_eq d (codes ")")
      then run_lexed (words_argv (b ∷ c ∷ []) (none ∷ nulls)) res
      else if bytes_eq a (codes "!")
      then recheck nulls (b ∷ c ∷ d ∷ []) (not res)
      else run_lexed (words_argv (a ∷ b ∷ c ∷ d ∷ []) nulls) res
  recheck nulls words res = run_lexed (words_argv words nulls) res

  abbrev pub bracket : List Bytes → Verdict
  bracket [] = failed missing_bracket
  bracket (w ∷ words) =
      let (front, last) = split_last w words in
      if head_byte last == b']'
      then recheck (none ∷ none ∷ []) front true
      else failed missing_bracket

  unfoldable pub testcmd : Bytes → List Bytes → Verdict
  unfolding recheck split_last operand_cmd getop bytes_eq
  testcmd name words =
      if head_byte name == b'[' then bracket words else recheck (none ∷ []) words true
