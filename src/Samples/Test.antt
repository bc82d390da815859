-- ===== src/Samples/Test.antt =====
-- The test builtin on concrete arguments.
use gwsh.Base.{◌≡◌, refl, false, none, some, List, [], ◌∷◌, Bytes, String, codes}
use gwsh.Test.File.{System}
use gwsh.Test.Ops.{binop, intlt, getop}
use gwsh.Test.Eval.{binop_test}
use gwsh.Test.Cmd.Posix.{status, test_binary}
use gwsh.Test.Cmd.Total.{IsAnswer, testcmd-IsAnswer}
use gwsh.Test.Cmd.Edges.{test_reads_past_end, bracket_by_first_byte}
use gwsh.Test.Monad.{missing_bracket, Error, out_of_bounds}
use gwsh.Test.Cmd.{Verdict, exited, failed, testcmd}
use gwsh.Samples.Libc.{decimal}

-- No file exists.
abbrev empty_system : System
empty_system = record {
  stat = λ f. none;
  lstat = λ f. none;
  isatty = λ n. false;
  access_ok = λ f m. false;
  geteuid = 0;
  getegid = 0;
}

abbrev words : List String → List Bytes
words [] = []
words (s ∷ ss) = codes s ∷ words ss

abbrev run : List String → Verdict
run ss = testcmd decimal empty_system (codes "test") (words ss)

one_word : run ("!" ∷ []) ≡ exited false
unfolding testcmd
one_word = refl

equal_words : run ("(" ∷ "=" ∷ "(" ∷ []) ≡ exited false
unfolding testcmd
equal_words = refl

both : run ("a" ∷ "-a" ∷ "!" ∷ "-z" ∷ "b" ∷ "-o" ∷ "" ∷ []) ≡ exited false
unfolding testcmd
both = refl

past_the_end : run ("a" ∷ "-a" ∷ []) ≡ failed Error.out_of_bounds
unfolding testcmd
past_the_end = refl

less_than_op :
    getop (codes "-lt") ≡ some (record { op_text = codes "-lt"; op_num = intlt; op_type = binop })
unfolding getop
less_than_op = refl

test_binary_example :
    run ("2" ∷ "-lt" ∷ "10" ∷ [])
    ≡ status (binop_test decimal empty_system intlt (codes "2") (codes "10"))
test_binary_example =
    test_binary decimal empty_system (codes "2") (codes "-lt") (codes "10") _ less_than_op refl

x_getop : getop (codes "x") ≡ none
unfolding getop
x_getop = refl

test_reads_past_end_example :
    (testcmd decimal empty_system (codes "test") (codes "x" ∷ codes "-a" ∷ [])
      ≡ failed out_of_bounds)
    × (testcmd decimal empty_system (codes "test") (codes "x" ∷ codes "-o" ∷ [])
        ≡ failed out_of_bounds)
test_reads_past_end_example = test_reads_past_end decimal empty_system (codes "x") x_getop

bracket_by_first_byte_example :
    (testcmd decimal empty_system (codes "[") (codes "x" ∷ codes "]foo" ∷ []) ≡ exited false)
    × (testcmd decimal empty_system
          (codes "[")
          (codes "x" ∷ codes "=" ∷ codes "y" ∷ codes "]foo" ∷ [])
        ≡ testcmd decimal empty_system
            (codes "[")
            (codes "x" ∷ codes "=" ∷ codes "y" ∷ codes "]" ∷ []))
    × (testcmd decimal empty_system
          (codes "[")
          (codes "x" ∷ codes "=" ∷ codes "y" ∷ codes "z]" ∷ [])
        ≡ failed missing_bracket)
bracket_by_first_byte_example =
    bracket_by_first_byte decimal empty_system (codes "x") (codes "=" ∷ codes "y" ∷ [])
      (codes "foo") (codes "z]") refl

testcmd-IsAnswer_example : IsAnswer (run ("!" ∷ "(" ∷ "a" ∷ "-o" ∷ "!" ∷ ")" ∷ []))
testcmd-IsAnswer_example =
    testcmd-IsAnswer decimal empty_system (codes "test")
      (words ("!" ∷ "(" ∷ "a" ∷ "-o" ∷ "!" ∷ ")" ∷ []))
