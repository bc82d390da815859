-- ===== src/Test/Cmd/Edges.antt =====
-- src/bltin/test.c: where testcmd takes what it should not, or reads where nothing is.
use gwsh.Base.{
  head_byte, ◌==◌, false, not, ◌≡◌, refl, ap, ◌∙◌, true, none, List, [], ◌∷◌, ◌++◌, Bytes, codes,
}
use gwsh.MyString.{Strtoimax}
use gwsh.Test.Ops.{getop, operand}
use gwsh.Test.File.{System}
use gwsh.Test.Monad.{Cursor, ok, err, out_of_bounds, missing_bracket, >>=-ok}
use gwsh.Test.Eval.{t_lex, nonempty}
use gwsh.Test.Cmd.OneWord.{bracket_one_word}
use gwsh.Test.Cmd.{exited, failed, verdict, words_argv, eval_from, split_last, testcmd}

module _ (strtoimax : Strtoimax) (sys : System) where
  abbrev fresh : Cursor
  fresh = record { t_wp = 0; t_wp_op = none }

  read_first :
      (x y : Bytes)
      → getop x ≡ none
      → t_lex strtoimax sys (words_argv (x ∷ y ∷ []) (none ∷ [])) 0 fresh ≡ ok operand fresh
  unfolding t_lex
  read_first x y e = rw e

  -- The rest of the run is known once the first word is read.
  read_past :
      (x y : Bytes)
      → getop x ≡ none
      → eval_from strtoimax sys (words_argv (x ∷ y ∷ []) (none ∷ [])) operand fresh
        ≡ err out_of_bounds
      → testcmd strtoimax sys (codes "test") (x ∷ y ∷ []) ≡ failed out_of_bounds
  unfolding testcmd
  read_past x y e run = ap (verdict true) (
      >>=-ok (t_lex strtoimax sys (words_argv (x ∷ y ∷ []) (none ∷ [])) 0) _ fresh fresh operand
        (read_first x y e)
      ∙ run)

  -- With two arguments, a word that is no operator and then -a or -o, testcmd reads the slot behind
  -- the null pointer that ends the arguments.
  pub test_reads_past_end :
      (x : Bytes)
      → getop x ≡ none
      → (testcmd strtoimax sys (codes "test") (x ∷ codes "-a" ∷ []) ≡ failed out_of_bounds)
        × (testcmd strtoimax sys (codes "test") (x ∷ codes "-o" ∷ []) ≡ failed out_of_bounds)
  unfolding testcmd
  test_reads_past_end x e = (read_past x (codes "-a") e refl, read_past x (codes "-o") e refl)

split_last-append :
    (w : Bytes) (words : List Bytes) (last : Bytes)
    → split_last w (words ++ last ∷ []) ≡ (w ∷ words, last)
unfolding split_last
split_last-append w [] last = refl
split_last-append w (w' ∷ words) last =
    ap (λ (p : List Bytes × Bytes). (w ∷ p.0, p.1)) (split_last-append w' words last)

module _ (strtoimax : Strtoimax) (sys : System) where
  -- [ takes every last argument that begins with `]` for its closing bracket. With one argument before
  -- it, the test is true exactly if that is not empty; with any arguments before it, the result is the
  -- one that `]` itself would give; and with a last argument that does not begin with `]`, the bracket
  -- is reported as missing.
  pub bracket_by_first_byte :
      (w : Bytes) (words : List Bytes) (rest last : Bytes)
      → (head_byte last == b']') ≡ false
      → (testcmd strtoimax sys (codes "[") (w ∷ (b']' ∷ rest) ∷ []) ≡ exited (not (nonempty w)))
        × (testcmd strtoimax sys (codes "[") (w ∷ (words ++ (b']' ∷ rest) ∷ []))
            ≡ testcmd strtoimax sys (codes "[") (w ∷ (words ++ codes "]" ∷ [])))
        × (testcmd strtoimax sys (codes "[") (w ∷ (words ++ last ∷ [])) ≡ failed missing_bracket)
  unfolding testcmd
  bracket_by_first_byte w words rest last other = (
    bracket_one_word strtoimax sys w rest,
    rw (split_last-append w words (b']' ∷ rest), split_last-append w words (codes "]")),
    rw (split_last-append w words last, other),
  )
