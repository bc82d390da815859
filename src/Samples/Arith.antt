-- ===== src/Samples/Arith.antt =====
-- Shell arithmetic on concrete texts.
use gwsh.Base.{
  ℕ, ◌+◌, ◌-◌, ◌^◌, ◌≡◌, refl, String, [], ◌∷◌, true, false, codes, Bytes, length, arith as tactics,
}
use gwsh.Base.{zero, ◌⊎◌, ◌↔◌}
use gwsh.Intmax.{uint_mod}
use gwsh.Arith.Ops.{Error, division_by_zero, value, fail, do_binop}
use gwsh.Arith.Ops.Values.{ByMinusOne, ByOther, do_binop-division, do_binop-fails_iff}
use gwsh.Arith.Token.{tok_div, tok_rem, tok_lparen, tok_num, tok_and}
use gwsh.Arith.Parse.{Parser, val, Outcome, ok, err, binop, and, assignment, arith}
use gwsh.Arith.Parse.Ends.{Ends, IsReported}
use gwsh.Arith.Parse.Total.{arith-Ends}
use gwsh.Arith.Parse.Noeval.{IsSyntaxError}
use gwsh.Arith.Parse.ShortCircuit.{GivesIn, assignment_skips, and_short_circuit}
use gwsh.Samples.Libc.{decimal, decimal-IsStrtoimax, digits, Store, store_variables, find}

abbrev pointer : Bytes → ℕ
pointer w = 4096 + length w

data Summary : Type 0 where
  result : ℕ → Store → Summary
  error : Error → Store → Summary

abbrev summary : Outcome Store ℕ → Summary
summary (ok v st) = result v st.env
summary (err e s) = error e s

abbrev start : Store → Parser Store
start m = record { buf = []; yylval = val 0; last_token = 0; env = m }

abbrev run : String → Summary
run s = summary (arith decimal store_variables pointer (codes s) (start []))

precedence : run "2 + 3 * 4 - 10 / 2" ≡ result 9 []
unfolding arith find digits
precedence = refl

left_assoc : run "20 - 5 - 3 << 1 + 1" ≡ result 48 []
unfolding arith find digits
left_assoc = refl

abbrev x_is : ℕ → Store
x_is v = (codes "x", v) ∷ []

assigns : run "(x += 3) * (1 ? 2 : 1/0)" ≡ result 6 (x_is 3)
unfolding arith find digits
assigns = refl

skips : run "0 && (x = 3) || !(5 > 7) ? -1 : 2" ≡ result (2 ^ 64 - 1) []
unfolding arith find digits
skips = refl

faults : run "(x = 1) + 1 / 0" ≡ error Error.division_by_zero (x_is 1)
unfolding arith find digits
faults = refl

arith-Ends_example :
    Ends
      (λ v st'. st'.last_token ≡ 0)
      (λ e s'. IsReported e)
      (arith decimal store_variables pointer (codes "(x = 1) + 1 / 0") (start []))
arith-Ends_example =
    arith-Ends decimal store_variables pointer decimal-IsStrtoimax (codes "(x = 1) + 1 / 0")
      (start [])

-- a parser that has read `last` and has `text` before it
abbrev reading : ℕ → String → Parser Store
reading last text = record { buf = codes text; yylval = val 0; last_token = last; env = x_is 5 }

assignment_skips_example :
    Ends
      (λ r st'. st'.env ≡ x_is 5)
      (λ e s'. (s' ≡ x_is 5) × IsSyntaxError e)
      (assignment decimal store_variables pointer 40 tok_lparen true (reading 0 "x = 3) / 0"))
assignment_skips_example =
    assignment_skips decimal store_variables pointer 40 tok_lparen (reading 0 "x = 3) / 0")

zero_read :
    binop decimal store_variables pointer 5 tok_num (val 0) tok_and false (reading 0 " x = 3")
    ≡ ok 0 (reading tok_and " x = 3")
unfolding arith
zero_read = refl

and_short_circuit_example :
    GivesIn decimal store_variables pointer 0
      (x_is 5)
      (and decimal store_variables pointer 6 tok_num (val 0) tok_and false (reading 0 " x = 3"))
and_short_circuit_example =
    and_short_circuit decimal store_variables pointer 5 tok_num (val 0) tok_and (reading 0 " x = 3")
      (reading tok_and " x = 3") zero_read

-- -7 as a pattern
abbrev minus_7 : ℕ
minus_7 = uint_mod - 7

do_binop-division_example :
    (q : ℕ) × (r : ℕ) × (do_binop tok_div minus_7 2 ≡ value q)
    × (do_binop tok_rem minus_7 2 ≡ value r)
    × (ByMinusOne minus_7 2 q r ⊎ ByOther minus_7 2 q r)
do_binop-division_example =
    do_binop-division minus_7 2 (omega tactics) (omega tactics) (omega tactics)

do_binop-fails_iff_example : (do_binop tok_rem 3 0 ≡ fail division_by_zero) ↔ (
    (division_by_zero ≡ division_by_zero)
    × (zero ≡ zero)
    × ((tok_rem ≡ tok_div) ⊎ (tok_rem ≡ tok_rem)))
do_binop-fails_iff_example = do_binop-fails_iff tok_rem 3 0 division_by_zero refl
