-- ===== src/Test/Eval.antt =====
-- src/bltin/test.c: the parser, which evaluates as it reads, and the builtin.
pub mod Single
pub mod Total
use gwsh.Base.{
  ℕ, zero, suc, ◌+◌, ◌*◌, Bool, true, false, not, ◌&&◌, ◌||◌, Option, none, some, List, [], ◌∷◌,
  Bytes, bytes_eq, codes, ltb, leb, ◌==◌, if◌then◌else◌, length,
}
use gwsh.Intmax.{s_lt}
use gwsh.MyString.{Strtoimax, atomax10}
use gwsh.Test.Ops.{
  Token, eoi, filrd, filwr, filex, filtt, filnt, filot, fileq, strez, strnz, streq, strne, strlt,
  strgt, inteq, intne, intge, intgt, intle, intlt, unot, band, bor, lparen, rparen, operand, Op,
  unop, binop, is_type, getop,
}
use gwsh.Test.File.{System, filstat, newerf, olderf, equalf}
use gwsh.Test.Monad.{
  Argv, Cursor, Error, missing_bracket, closing_paren_expected, illegal_number, unexpected_operator,
  argument_expected, out_of_bounds, out_of_fuel, Outcome, ok, err, T, ◌>>=◌, ret, fail, get_wp,
  get_op, set_op, advance, slot_at, slot,
}

-- strcmp(s, t) < 0
unfoldable pub bytes_lt : Bytes → Bytes → Bool
bytes_lt s [] = false
bytes_lt [] (b ∷ t) = true
bytes_lt (a ∷ s) (b ∷ t) = ltb a b || a == b && bytes_lt s t

abbrev pub is_lparen : Option Op → Bool
is_lparen none = false
is_lparen (some op) = elim op.op_num [ lparen ↦ true | _ ↦ false ]

abbrev is_null : Option Bytes → Bool
is_null none = true
is_null (some s) = false

abbrev pub text_of : Option Op → Bytes
text_of none = []
text_of (some op) = op.op_text

abbrev pub nonempty : Bytes → Bool
nonempty [] = false
nonempty (c ∷ s) = true

-- A result, or the error of getn.
pub data Tested : Type 0 where
  tested : Bool → Tested
  not_a_number : Tested

abbrev pub of_tested : Tested → T Bool
of_tested (tested b) = ret b
of_tested not_a_number = fail illegal_number

module _ (strtoimax : Strtoimax) (sys : System) where
  -- getn, and what is done with the number
  abbrev with_number : (ℕ → Tested) → Option ℕ → Tested
  with_number k none = not_a_number
  with_number k (some n) = k n

  abbrev getn : Bytes → (ℕ → Tested) → Tested
  getn s k = with_number k (atomax10 strtoimax s)

  abbrev compare_n : (ℕ → ℕ → Bool) → Bytes → Bytes → Tested
  compare_n test a b = getn a λ x. getn b λ y. tested (test x y)

  -- the switch of binop
  unfoldable pub binop_test : Token → Bytes → Bytes → Tested
  binop_test strne a b = tested (not (bytes_eq a b))
  binop_test strlt a b = tested (bytes_lt a b)
  binop_test strgt a b = tested (bytes_lt b a)
  binop_test inteq a b = compare_n (λ x y. x == y) a b
  binop_test intne a b = compare_n (λ x y. not (x == y)) a b
  binop_test intge a b = compare_n (λ x y. not (s_lt x y)) a b
  binop_test intgt a b = compare_n (λ x y. s_lt y x) a b
  binop_test intle a b = compare_n (λ x y. not (s_lt y x)) a b
  binop_test intlt a b = compare_n (λ x y. s_lt x y) a b
  binop_test filnt a b = tested (newerf sys a b)
  binop_test filot a b = tested (olderf sys a b)
  binop_test fileq a b = tested (equalf sys a b)
  binop_test _ a b = tested (bytes_eq a b)

  -- the switch on a unary operator
  unfoldable pub unary_test : Token → Bytes → Tested
  unary_test strez s = tested (not (nonempty s))
  unary_test strnz s = tested (nonempty s)
  unary_test filtt s = getn s λ n. tested (sys.isatty n)
  unary_test filrd s = tested (sys.access_ok s filrd)
  unary_test filwr s = tested (sys.access_ok s filwr)
  unary_test filex s = tested (sys.access_ok s filex)
  unary_test n s = tested (filstat sys s n)

module _ (strtoimax : Strtoimax) (sys : System) (argv : Argv) where
  abbrev pub isoperand_word : ℕ → Option Bytes → T Bool
  isoperand_word i none = ret true
  isoperand_word i (some s) = do
    after ← slot argv (i + 2)
    elim after [ none ↦ ret false | some w ↦ ret (is_type binop (getop s)) ]

  unfoldable pub isoperand : ℕ → T Bool
  isoperand i = do word ← slot argv (i + 1); isoperand_word i word

  -- `!(op->op_type == UNOP && isoperand(tp)) && !(op->op_num == LPAREN && !tp[1])`
  unfoldable pub is_operator : ℕ → Option Op → T Bool
  unfolding isoperand
  is_operator i op =
      if is_type unop op
      then (do here ← isoperand i; ret (not here))
      else if is_lparen op
      then (do next ← slot argv (i + 1); ret (not (is_null next)))
      else ret true

  abbrev pub lex_op : ℕ → Option Op → T Token
  lex_op i none = set_op none operand
  lex_op i (some op) = do
    yes_op ← is_operator i (some op)
    if yes_op then set_op (some op) op.op_num else set_op none operand

  abbrev pub lex_word : ℕ → Option Bytes → T Token
  lex_word i none = set_op none eoi
  lex_word i (some s) = lex_op i (getop s)

  unfoldable pub t_lex : ℕ → T Token
  unfolding is_operator
  t_lex i = do word ← slot argv i; lex_word i word

  abbrev pub num_of : Option Op → Token
  num_of none = operand
  num_of (some op) = op.op_num

  -- A word that the code uses with no test for the null pointer.
  abbrev pub the_word : Option Bytes → T Bytes
  the_word none = fail out_of_bounds
  the_word (some s) = ret s

  unfoldable pub binop_cmd : T Bool
  unfolding binop_test
  binop_cmd = do
    i ← get_wp
    first ← slot argv i
    opnd1 ← the_word first
    op ← get_op
    j ← advance 2
    second ← slot argv j
    elim second [
      | none ↦ fail (argument_expected (text_of op))
      | some opnd2 ↦ of_tested (binop_test strtoimax sys (num_of op) opnd1 opnd2)
    ]

  unfoldable pub unary_cmd : Token → T Bool
  unfolding unary_test
  unary_cmd n = do
    op ← get_op
    i ← advance 1
    word ← slot argv i
    elim word [
      | none ↦ fail (argument_expected (text_of op))
      | some s ↦ of_tested (unary_test strtoimax sys n s)
    ]

  -- what primary does with anything but the end and `(`
  unfoldable pub operand_cmd : Token → T Bool
  unfolding t_lex binop_cmd unary_cmd
  operand_cmd n = do
    op ← get_op
    let binary_or_word : T Bool = (do
      i ← get_wp
      token ← t_lex (i + 1)
      op' ← get_op
      let word_test : T Bool = (do w ← slot argv i; s ← the_word w; ret (nonempty s))
      if is_type binop op' then binop_cmd else word_test)
    if is_type unop op then unary_cmd n else binary_or_word

  abbrev pub is_band : Token → Bool
  is_band band = true
  is_band _ = false

  abbrev pub is_bor : Token → Bool
  is_bor bor = true
  is_bor _ = false

  abbrev pub is_rparen : Token → Bool
  is_rparen rparen = true
  is_rparen _ = false

  abbrev pub is_eoi : Token → Bool
  is_eoi eoi = true
  is_eoi _ = false

  abbrev pub skip_unless : Bool → T ℕ
  skip_unless true = get_wp
  skip_unless false = advance 1

  -- Each call, and each round of a loop, spends one unit of fuel.
  unfoldable mutual
    pub oexpr : ℕ → Token → Bool → T Bool
    oexpr zero n res = fail out_of_fuel
    oexpr (suc f) n res = do
      a ← aexpr f n true
      let res' = res || a
      i ← get_wp
      n' ← t_lex (i + 1)
      let again : T Bool = (do j ← advance 2; n'' ← t_lex j; oexpr f n'' res')
      if is_bor n' then again else ret res'

    pub aexpr : ℕ → Token → Bool → T Bool
    aexpr zero n res = fail out_of_fuel
    aexpr (suc f) n res = do
      a ← nexpr f n
      let res' = a && res
      i ← get_wp
      n' ← t_lex (i + 1)
      let again : T Bool = (do j ← advance 2; n'' ← t_lex j; aexpr f n'' res')
      if is_band n' then again else ret res'

    pub nexpr : ℕ → Token → T Bool
    nexpr zero n = fail out_of_fuel
    nexpr (suc f) unot = do
      i ← get_wp
      n' ← t_lex (i + 1)
      k ← skip_unless (is_eoi n')
      r ← nexpr f n'
      ret (not r)
    nexpr (suc f) n = primary f n

    pub primary : ℕ → Token → T Bool
    primary zero n = fail out_of_fuel
    primary (suc f) eoi = ret false
    primary (suc f) lparen = do
      i ← advance 1
      nn ← t_lex i
      let inner : T Bool = (do
        res ← oexpr f nn false
        j ← advance 1
        close ← t_lex j
        if is_rparen close then ret res else fail closing_paren_expected)
      if is_rparen nn then ret false else inner
    primary (suc f) n = operand_cmd n
