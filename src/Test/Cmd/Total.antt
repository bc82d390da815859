-- ===== src/Test/Cmd/Total.antt =====
-- src/bltin/test.c: testcmd ends with an exit status or with an error of the program.
use gwsh.Base.{
  ℕ, ◌+◌, ◌*◌, ◌&&◌, Bool, true, false, not, Option, none, some, List, [], ◌∷◌, Bytes,
  if◌then◌else◌, length, arith, codes, bytes_eq, head_byte, ◌==◌,
}
use gwsh.MyString.{Strtoimax}
use gwsh.Test.Ops.{Token, operand, binop, is_type, getop}
use gwsh.Test.File.{System}
use gwsh.Test.Monad.{Argv, Cursor, Outcome, ok, err, slot}
use gwsh.Test.Eval.{t_lex, oexpr}
use gwsh.Test.Eval.Total.{Onward, t_lex-Ends, oexpr-Ends}
use gwsh.Test.Ends.{IsReal, Ends, Ends-bind, Inside, slot-Ends}
use gwsh.Test.Cmd.{
  Verdict, exited, failed, verdict, words_argv, leftover, check_end, eval_from, eval_lexed,
  run_lexed, run_operand, recheck, bracket, split_last, testcmd,
}

-- An exit status, or an error of the program.
abbrev pub IsAnswer : Verdict → Type 0
IsAnswer (exited v) = Unit
IsAnswer (failed e) = IsReal e

abbrev Any : Bool → Cursor → Type 0
Any v c = Unit

verdict-IsAnswer : (res : Bool) (o : Outcome Bool) → Ends Any o → IsAnswer (verdict res o)
verdict-IsAnswer res (ok v c) h = tt
verdict-IsAnswer res (err e) h = h

if-IsAnswer : (b : Bool) (v w : Verdict) → IsAnswer v → IsAnswer w → IsAnswer (if b then v else w)
if-IsAnswer true v w hv hw = hv
if-IsAnswer false v w hv hw = hw

module _ (strtoimax : Strtoimax) (sys : System) where
  leftover-Ends : (w w' : Option Bytes) (v : Bool) (c : Cursor) → Ends Any (leftover w w' v c)
  leftover-Ends (some w) (some w') v c = tt
  leftover-Ends (some w) none v c = tt
  leftover-Ends none w' v c = tt

  check_end-Ends :
      (argv : Argv) (w : Option Bytes) (i : ℕ) (v : Bool) (c : Cursor)
      → Ends Any (check_end strtoimax sys argv w i v c)
  check_end-Ends argv none i v c = tt
  check_end-Ends argv (some w) i v c =
      Ends-bind (Inside argv (i + 1) c) Any (slot argv (i + 1)) _ c (slot-Ends argv (i + 1) c)
        λ next c' h. leftover-Ends (some w) next v c'

  eval_from-Ends :
      (argv : Argv) (n : Token) (c : Cursor) → Ends Any (eval_from strtoimax sys argv n c)
  unfolding eval_from
  eval_from-Ends argv n c =
      Ends-bind (Onward c) Any (oexpr strtoimax sys argv (4 * length argv + 8) n false) _ c
        (oexpr-Ends strtoimax sys argv (4 * length argv + 8) n false c (omega arith))
        λ v c₁ h.
          Ends-bind (Inside argv c₁.t_wp c₁) Any (slot argv c₁.t_wp) _ c₁
            (slot-Ends argv c₁.t_wp c₁) λ w c₂ h₂. check_end-Ends argv w c₁.t_wp v c₂

  eval_lexed-Ends : (argv : Argv) (c : Cursor) → Ends Any (eval_lexed strtoimax sys argv c)
  unfolding eval_lexed
  eval_lexed-Ends argv c =
      Ends-bind (Inside argv 0 c) Any (t_lex strtoimax sys argv 0) _ c
        (t_lex-Ends strtoimax sys argv 0 c) λ n c₁ h. eval_from-Ends argv n c₁

  run_lexed-IsAnswer : (argv : Argv) (res : Bool) → IsAnswer (run_lexed strtoimax sys argv res)
  run_lexed-IsAnswer argv res = verdict-IsAnswer res _ (eval_lexed-Ends argv _)

  run_operand-IsAnswer : (argv : Argv) (res : Bool) → IsAnswer (run_operand strtoimax sys argv res)
  run_operand-IsAnswer argv res = verdict-IsAnswer res _ (eval_from-Ends argv operand _)

  recheck-IsAnswer :
      (nulls : Argv) (words : List Bytes) (res : Bool)
      → IsAnswer (recheck strtoimax sys nulls words res)
  unfolding recheck
  recheck-IsAnswer nulls [] res = tt
  recheck-IsAnswer nulls (a ∷ []) res = run_lexed-IsAnswer (words_argv (a ∷ []) nulls) res
  recheck-IsAnswer nulls (a ∷ b ∷ []) res = run_lexed-IsAnswer (words_argv (a ∷ b ∷ []) nulls) res
  recheck-IsAnswer nulls (a ∷ b ∷ c ∷ []) res =
      if-IsAnswer (is_type binop (getop b)) _ _
        (run_operand-IsAnswer (words_argv (a ∷ b ∷ c ∷ []) nulls) res)
        (if-IsAnswer (bytes_eq a (codes "(") && bytes_eq c (codes ")")) _ _
          (run_lexed-IsAnswer (words_argv (b ∷ []) (none ∷ nulls)) res)
          (if-IsAnswer (bytes_eq a (codes "!")) _ _ (recheck-IsAnswer nulls (b ∷ c ∷ []) (not res))
            (run_lexed-IsAnswer (words_argv (a ∷ b ∷ c ∷ []) nulls) res)))
  recheck-IsAnswer nulls (a ∷ b ∷ c ∷ d ∷ []) res =
      if-IsAnswer (bytes_eq a (codes "(") && bytes_eq d (codes ")")) _ _
        (run_lexed-IsAnswer (words_argv (b ∷ c ∷ []) (none ∷ nulls)) res)
        (if-IsAnswer (bytes_eq a (codes "!")) _ _
          (recheck-IsAnswer nulls (b ∷ c ∷ d ∷ []) (not res))
          (run_lexed-IsAnswer (words_argv (a ∷ b ∷ c ∷ d ∷ []) nulls) res))
  recheck-IsAnswer nulls (a ∷ b ∷ c ∷ d ∷ e ∷ words) res =
      run_lexed-IsAnswer (words_argv (a ∷ b ∷ c ∷ d ∷ e ∷ words) nulls) res

  bracket-IsAnswer : (words : List Bytes) → IsAnswer (bracket strtoimax sys words)
  bracket-IsAnswer [] = tt
  bracket-IsAnswer (w ∷ words) =
      if-IsAnswer (head_byte (split_last w words).1 == b']') _ _
        (recheck-IsAnswer (none ∷ none ∷ []) (split_last w words).0 true) tt

  -- On any arguments the test builtin ends with an exit status or with an error that the program
  -- reports or a read behind the arguments; so the model's fuel is enough.
  pub testcmd-IsAnswer :
      (name : Bytes) (words : List Bytes) → IsAnswer (testcmd strtoimax sys name words)
  unfolding testcmd
  testcmd-IsAnswer name words =
      if-IsAnswer (head_byte name == b'[') _ _ (bracket-IsAnswer words)
        (recheck-IsAnswer (none ∷ []) words true)
