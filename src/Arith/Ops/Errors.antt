-- ===== src/Arith/Ops/Errors.antt =====
-- src/arith_yacc.c: when do_binop fails.
use gwsh.Base.{ℕ, arith}
use gwsh.Arith.Ops.{division_by_zero, Value, value, fail, do_binop}

-- Division by zero is the only error.
abbrev pub OnlyDivides : Value → Type 0
OnlyDivides (value v) = Unit
OnlyDivides (fail division_by_zero) = Unit
OnlyDivides (fail _) = ⊥

pub do_binop-OnlyDivides : (op a b : ℕ) → OnlyDivides (do_binop op a b)
unfolding do_binop
do_binop-OnlyDivides op a b = ground arith
