-- ===== src/Test/Eval/Single.antt =====
-- src/bltin/test.c: an expression with no -a and no -o is its one primary.
use gwsh.Base.{ℕ, suc, ◌+◌, ◌≡◌, ◌∙◌, Bool, true, false}
use gwsh.MyString.{Strtoimax}
use gwsh.Test.Ops.{Token, eoi}
use gwsh.Test.File.{System}
use gwsh.Test.Monad.{Argv, Cursor, Error, ok, err, >>=-ok, >>=-err}
use gwsh.Test.Eval.{t_lex, nexpr, aexpr, oexpr}

module _ (strtoimax : Strtoimax) (sys : System) (argv : Argv) where
  aexpr-single :
      (f : ℕ) (n : Token) (v : Bool) (c c₁ c₂ : Cursor)
      → nexpr strtoimax sys argv f n c ≡ ok v c₁
      → t_lex strtoimax sys argv (c₁.t_wp + 1) c₁ ≡ ok eoi c₂
      → aexpr strtoimax sys argv (suc f) n true c ≡ ok v c₂
  unfolding oexpr
  aexpr-single f n true c c₁ c₂ e l =
      >>=-ok (nexpr strtoimax sys argv f n) _ c c₁ true e
      ∙ >>=-ok (t_lex strtoimax sys argv (c₁.t_wp + 1)) _ c₁ c₂ eoi l
  aexpr-single f n false c c₁ c₂ e l =
      >>=-ok (nexpr strtoimax sys argv f n) _ c c₁ false e
      ∙ >>=-ok (t_lex strtoimax sys argv (c₁.t_wp + 1)) _ c₁ c₂ eoi l

  -- The value of a negated word list that ends after one primary is that of the primary.
  pub oexpr-single :
      (f : ℕ) (n : Token) (v : Bool) (c c₁ c₂ c₃ : Cursor)
      → nexpr strtoimax sys argv f n c ≡ ok v c₁
      → t_lex strtoimax sys argv (c₁.t_wp + 1) c₁ ≡ ok eoi c₂
      → t_lex strtoimax sys argv (c₂.t_wp + 1) c₂ ≡ ok eoi c₃
      → oexpr strtoimax sys argv (suc (suc f)) n false c ≡ ok v c₃
  unfolding oexpr
  oexpr-single f n true c c₁ c₂ c₃ e l l' =
      >>=-ok (aexpr strtoimax sys argv (suc f) n true) _ c c₂ true
        (aexpr-single f n true c c₁ c₂ e l)
      ∙ >>=-ok (t_lex strtoimax sys argv (c₂.t_wp + 1)) _ c₂ c₃ eoi l'
  oexpr-single f n false c c₁ c₂ c₃ e l l' =
      >>=-ok (aexpr strtoimax sys argv (suc f) n true) _ c c₂ false
        (aexpr-single f n false c c₁ c₂ e l)
      ∙ >>=-ok (t_lex strtoimax sys argv (c₂.t_wp + 1)) _ c₂ c₃ eoi l'

  pub oexpr-single_err :
      (f : ℕ) (n : Token) (x : Error) (c : Cursor)
      → nexpr strtoimax sys argv f n c ≡ err x
      → oexpr strtoimax sys argv (suc (suc f)) n false c ≡ err x
  unfolding oexpr
  oexpr-single_err f n x c e =
      >>=-err (aexpr strtoimax sys argv (suc f) n true) _ c x
        (>>=-err (nexpr strtoimax sys argv f n) _ c x e)
