-- ===== src/Arith/Token.antt =====
-- src/arith_yacc.h: the token codes, and the table of precedences of src/arith_yacc.c. A compound
-- assignment has the code of its operator plus 14, and so have `==`, `!=`, `<=` and `>=` over `=`,
-- `!`, `<` and `>`.
use gwsh.Base.{ℕ, Bool, ◌&&◌, ltb, leb, ◌==◌, if◌then◌else◌}

abbrev pub tok_eof : ℕ
tok_eof = 0

abbrev pub tok_or : ℕ
tok_or = 1

abbrev pub tok_and : ℕ
tok_and = 2

abbrev pub tok_bad : ℕ
tok_bad = 3

abbrev pub tok_num : ℕ
tok_num = 4

abbrev pub tok_var : ℕ
tok_var = 5

abbrev pub tok_ass : ℕ
tok_ass = 6

abbrev pub tok_not : ℕ
tok_not = 7

abbrev pub binop_min : ℕ
binop_min = 8

abbrev pub tok_lt : ℕ
tok_lt = 8

abbrev pub tok_gt : ℕ
tok_gt = 9

abbrev pub tok_rem : ℕ
tok_rem = 10

abbrev pub tok_band : ℕ
tok_band = 11

abbrev pub tok_lshift : ℕ
tok_lshift = 12

abbrev pub tok_rshift : ℕ
tok_rshift = 13

abbrev pub tok_mul : ℕ
tok_mul = 14

abbrev pub tok_add : ℕ
tok_add = 15

abbrev pub tok_bor : ℕ
tok_bor = 16

abbrev pub tok_sub : ℕ
tok_sub = 17

abbrev pub tok_bxor : ℕ
tok_bxor = 18

abbrev pub tok_div : ℕ
tok_div = 19

abbrev pub tok_eq : ℕ
tok_eq = 20

abbrev pub tok_ne : ℕ
tok_ne = 21

abbrev pub tok_le : ℕ
tok_le = 22

abbrev pub tok_ge : ℕ
tok_ge = 23

abbrev pub binop_max : ℕ
binop_max = 24

abbrev pub ass_min : ℕ
ass_min = 24

abbrev pub ass_max : ℕ
ass_max = 34

abbrev pub tok_lparen : ℕ
tok_lparen = 34

abbrev pub tok_rparen : ℕ
tok_rparen = 35

abbrev pub tok_bnot : ℕ
tok_bnot = 36

abbrev pub tok_qmark : ℕ
tok_qmark = 37

abbrev pub tok_colon : ℕ
tok_colon = 38

-- op >= ARITH_BINOP_MIN && op < ARITH_BINOP_MAX
abbrev pub is_binop : ℕ → Bool
is_binop op = leb binop_min op && ltb op binop_max

-- op >= ARITH_ASS_MIN && op < ARITH_ASS_MAX
abbrev pub is_compound : ℕ → Bool
is_compound op = leb ass_min op && ltb op ass_max

abbrev pub max_prec : ℕ
max_prec = 8

-- The level of a binary operator; 0 binds tightest.
unfoldable pub arith_prec : ℕ → ℕ
arith_prec op =
    if op == tok_mul
    then 0
    else if op == tok_div
    then 0
    else if op == tok_rem
    then 0
    else if op == tok_add
    then 1
    else if op == tok_sub
    then 1
    else if op == tok_lshift
    then 2
    else if op == tok_rshift
    then 2
    else if op == tok_lt
    then 3
    else if op == tok_le
    then 3
    else if op == tok_gt
    then 3
    else if op == tok_ge
    then 3
    else if op == tok_eq
    then 4
    else if op == tok_ne
    then 4
    else if op == tok_band
    then 5
    else if op == tok_bxor
    then 6
    else if op == tok_bor
    then 7
    else 0

unfoldable pub higher_prec : ℕ → ℕ → Bool
unfolding arith_prec
higher_prec op1 op2 = ltb (arith_prec op1) (arith_prec op2)
