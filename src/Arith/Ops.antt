-- ===== src/Arith/Ops.antt =====
-- src/arith_yacc.c: do_binop, and the errors that arithmetic can end with.
pub mod Errors
pub mod Values
use gwsh.Base.{ℕ, ◌+◌, ◌-◌, ◌≡◌, Bool, true, false, not, arith, ltb, leb, ◌==◌, if◌then◌else◌}
use gwsh.Intmax.{
  uint_mod, intmax_width, is_neg, u_add, u_sub, u_mul, u_neg, u_not, u_shl, u_shr, s_div, s_rem,
  s_lt, of_bool, b_and, b_or, b_xor,
}
use gwsh.Arith.Token.{
  tok_lt, tok_gt, tok_rem, tok_band, tok_lshift, tok_rshift, tok_mul, tok_add, tok_bor, tok_sub,
  tok_bxor, tok_eq, tok_ne, tok_le, tok_ge,
}

-- What the functions of src/var.c that arithmetic calls can fail with.
pub data VariableError : Type 0 where
  not_a_number parameter_not_set read_only bad_variable_name : VariableError

-- The messages of yyerror, that of atomax, and those of the variables. `fault` is the use of a number
-- as the pointer to a name; `out_of_fuel` belongs to the model only.
pub data Error : Type 0 where
  division_by_zero expecting_rparen expecting_primary expecting_colon expecting_eof : Error
  illegal_number : Error
  variable : VariableError → Error
  fault out_of_fuel : Error

pub data Value : Type 0 where
  value : ℕ → Value
  fail : Error → Value

-- ((uintmax_t) (a ^ neg) >> b) ^ neg, with neg all ones or zero
abbrev pub shift_right : Bool → ℕ → ℕ → ℕ
shift_right true a b = u_not (u_shr (u_not a) b)
shift_right false a b = u_shr a b

-- all ones or zero
abbrev pub sign_mask : Bool → ℕ
sign_mask true = uint_mod - 1
sign_mask false = 0

unfoldable pub do_binop : ℕ → ℕ → ℕ → Value
unfolding is_neg u_add u_sub u_mul u_neg u_not u_shl u_shr s_div s_rem s_lt b_and b_or b_xor
do_binop op a b =
    if op == tok_mul
    then value (u_mul a b)
    else if op == tok_add
    then value (u_add a b)
    else if op == tok_sub
    then value (u_sub a b)
    else if op == tok_lshift
    then (if leb intmax_width b then value 0 else value (u_shl a b))
    else if op == tok_rshift
    then (if leb intmax_width b
        then value (sign_mask (is_neg a))
        else value (shift_right (is_neg a) a b))
    else if op == tok_lt
    then value (of_bool (s_lt a b))
    else if op == tok_le
    then value (of_bool (not (s_lt b a)))
    else if op == tok_gt
    then value (of_bool (s_lt b a))
    else if op == tok_ge
    then value (of_bool (not (s_lt a b)))
    else if op == tok_eq
    then value (of_bool (a == b))
    else if op == tok_ne
    then value (of_bool (not (a == b)))
    else if op == tok_band
    then value (b_and a b)
    else if op == tok_bxor
    then value (b_xor a b)
    else if op == tok_bor
    then value (b_or a b)
    else if b == 0
    then fail division_by_zero
    else if b == uint_mod - 1
    then value (if op == tok_rem then 0 else u_neg a)
    else value (if op == tok_rem then s_rem a b else s_div a b)
