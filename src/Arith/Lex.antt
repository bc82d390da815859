-- ===== src/Arith/Lex.antt =====
-- src/arith_yylex.c: yylex. `lexeme` is what one call finds in the text; `bad` leaves the text as it
-- was before the blanks.
pub mod Progress
use gwsh.Base.{
  ℕ, ◌+◌, ◌≡◌, Bool, true, false, not, ◌&&◌, ◌||◌, List, [], ◌∷◌, ltb, leb, ◌==◌, if◌then◌else◌,
  Bytes, head_byte, tail_bytes,
}
use gwsh.Syntax.{is_digit, is_name, is_in_name}
use gwsh.MyString.{Strtoimax, Number, number_at, badnum, atomax_end}
use gwsh.Arith.Token.{
  tok_eof, tok_or, tok_and, tok_ass, tok_not, tok_lt, tok_gt, tok_rem, tok_band, tok_lshift,
  tok_rshift, tok_mul, tok_add, tok_bor, tok_sub, tok_bxor, tok_div, tok_lparen, tok_rparen,
  tok_bnot, tok_qmark, tok_colon,
}

pub data Lexeme : Type 0 where
  token_at : ℕ → Bytes → Lexeme
  num_at : ℕ → Bytes → Lexeme
  name_at : Bytes → Bytes → Lexeme
  bad : Lexeme
  illegal : Lexeme

-- the label checkeqcur
abbrev pub checkeqcur : ℕ → Bytes → Lexeme
checkeqcur tok buf =
    if head_byte buf == b'=' then token_at (tok + 14) (tail_bytes buf) else token_at tok buf

-- the two angles: the byte may be doubled
abbrev pub angle : ℕ → ℕ → ℕ → Bytes → Lexeme
angle c shift compare buf =
    if head_byte buf == c then checkeqcur shift (tail_bytes buf) else checkeqcur compare buf

-- `|` and `&`: doubled they are the logical operators
abbrev pub doubled : ℕ → ℕ → ℕ → Bytes → Lexeme
doubled c logical bitwise buf =
    if head_byte buf == c then token_at logical (tail_bytes buf) else checkeqcur bitwise buf

unfoldable pub scan_name : Bytes → Bytes × Bytes
scan_name [] = ([], [])
scan_name (c ∷ s) =
    let (word, rest) = scan_name s in if is_in_name c then (c ∷ word, rest) else ([], c ∷ s)

abbrev of_number : Number → Lexeme
of_number (number_at v rest) = num_at v rest
of_number badnum = illegal

-- The switch on the first byte that is no blank; `buf` is the text after it.
unfoldable pub lex_byte : Strtoimax → ℕ → Bytes → Lexeme
lex_byte strtoimax c buf =
    if is_digit c
    then of_number (atomax_end strtoimax (c ∷ buf) 0)
    else if is_name c
    then name_at (c ∷ (scan_name buf).0) (scan_name buf).1
    else if c == b'='
    then checkeqcur tok_ass buf
    else if c == b'>'
    then angle c tok_rshift tok_gt buf
    else if c == b'<'
    then angle c tok_lshift tok_lt buf
    else if c == b'|'
    then doubled c tok_or tok_bor buf
    else if c == b'&'
    then doubled c tok_and tok_band buf
    else if c == b'!'
    then checkeqcur tok_not buf
    else if c == 0
    then token_at tok_eof (c ∷ buf)
    else if c == b'('
    then token_at tok_lparen buf
    else if c == b')'
    then token_at tok_rparen buf
    else if c == b'*'
    then checkeqcur tok_mul buf
    else if c == b'/'
    then checkeqcur tok_div buf
    else if c == b'%'
    then checkeqcur tok_rem buf
    else if c == b'+'
    then checkeqcur tok_add buf
    else if c == b'-'
    then checkeqcur tok_sub buf
    else if c == b'~'
    then token_at tok_bnot buf
    else if c == b'^'
    then checkeqcur tok_bxor buf
    else if c == b'?'
    then token_at tok_qmark buf
    else if c == b':'
    then token_at tok_colon buf
    else bad

-- the loop over blanks
unfoldable pub lexeme : Strtoimax → Bytes → Lexeme
lexeme strtoimax [] = token_at tok_eof []
lexeme strtoimax (c ∷ buf) =
    if c == b' ' || c == 9 || c == 10 then lexeme strtoimax buf else lex_byte strtoimax c buf
