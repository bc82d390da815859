-- ===== src/Arith/Lex/Progress.antt =====
-- src/arith_yylex.c: every token but the end of the text takes a byte, and `ARITH_BAD` none.
use gwsh.Base.{
  ℕ, suc, ◌+◌, ◌≤◌, ◌≢◌, [], ◌∷◌, arith, ◌==◌, ◌||◌, if_split, if◌then◌else◌, length, Bytes,
}
use gwsh.MyString.{Strtoimax, IsStrtoimax, atomax_end, length-skip_spaces}
use gwsh.Arith.Token.{tok_eof, tok_bad, tok_var}
use gwsh.Arith.Lex.{Lexeme, token_at, num_at, name_at, bad, illegal, scan_name, lex_byte, lexeme}

-- The bytes that a token has at least: none for the end of the text and for ARITH_BAD.
abbrev pub weight : ℕ → ℕ
weight t = if t == tok_eof then 0 else if t == tok_bad then 0 else 1

-- A token and the text after it have together no more than `n` bytes, and only a name is ARITH_VAR.
abbrev pub Fits : ℕ → Lexeme → Type 0
Fits n (token_at t rest) = (weight t + length rest ≤ n) × (t ≢ tok_var)
Fits n (num_at v rest) = suc (length rest) ≤ n
Fits n (name_at w rest) = suc (length rest) ≤ n
Fits n bad = Unit
Fits n illegal = Unit

Fits-suc : (n : ℕ) (l : Lexeme) → Fits n l → Fits (suc n) l
Fits-suc n (token_at t rest) h = (omega arith, h.1)
Fits-suc n (num_at v rest) h = omega arith
Fits-suc n (name_at w rest) h = omega arith
Fits-suc n bad h = tt
Fits-suc n illegal h = tt

length-scan_name : (s : Bytes) → length (scan_name s).1 ≤ length s
unfolding scan_name
length-scan_name [] = omega arith
length-scan_name (c ∷ s) = ground (arith, length-scan_name s)

module _ {strtoimax : Strtoimax} (laws : IsStrtoimax strtoimax) where
  lex_byte-Fits : (c : ℕ) (buf : Bytes) → Fits (suc (length buf)) (lex_byte strtoimax c buf)
  unfolding lex_byte atomax_end
  lex_byte-Fits c [] = ground (
    arith,
    length-scan_name [],
    laws.takes_digit c [],
    length-skip_spaces (strtoimax 0 (c ∷ [])).rest,
  )
  lex_byte-Fits c (d ∷ buf) = ground (
    arith,
    length-scan_name (d ∷ buf),
    laws.takes_digit c (d ∷ buf),
    length-skip_spaces (strtoimax 0 (c ∷ d ∷ buf)).rest,
  )

  pub lexeme-Fits : (s : Bytes) → Fits (length s) (lexeme strtoimax s)
  unfolding lexeme
  lexeme-Fits [] = ground arith
  lexeme-Fits (c ∷ s) =
      if_split (Fits (suc (length s))) (c == b' ' || c == 9 || c == 10)
        (Fits-suc (length s) _ (lexeme-Fits s)) (lex_byte-Fits c s)
