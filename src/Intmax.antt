-- ===== src/Intmax.antt =====
-- intmax_t, as the code of src/arith_yacc.c uses it: 64 bits in two's complement. A value is its bit
-- pattern, a number below 2 ^ 64, so that a conversion to uintmax_t and back is the identity.
pub mod Signed
pub mod Division
use Prim.Native.Nat.{bit_and, bit_or, bit_xor}
use gwsh.Base.{
  ℕ, ◌+◌, ◌-◌, ◌*◌, ◌/◌, ◌%◌, ◌^◌, Bool, true, false, not, ltb, leb, ◌==◌, if◌then◌else◌,
}

abbrev pub uint_mod : ℕ
uint_mod = 2 ^ 64

abbrev pub int_half : ℕ
int_half = 2 ^ 63

abbrev pub intmax_width : ℕ
intmax_width = 64

-- a < 0
unfoldable pub is_neg : ℕ → Bool
is_neg a = leb int_half a

unfoldable pub u_add : ℕ → ℕ → ℕ
u_add a b = (a + b) % uint_mod

unfoldable pub u_sub : ℕ → ℕ → ℕ
u_sub a b = (a + uint_mod - b) % uint_mod

unfoldable pub u_mul : ℕ → ℕ → ℕ
u_mul a b = (a * b) % uint_mod

unfoldable pub u_neg : ℕ → ℕ
u_neg a = (uint_mod - a) % uint_mod

-- ~a, which is also a ^ -1
unfoldable pub u_not : ℕ → ℕ
u_not a = uint_mod - 1 - a

unfoldable pub u_shl : ℕ → ℕ → ℕ
u_shl a b = (a * 2 ^ b) % uint_mod

unfoldable pub u_shr : ℕ → ℕ → ℕ
u_shr a b = a / 2 ^ b

-- The absolute value, which for the least integer is 2 ^ 63.
unfoldable pub magnitude : ℕ → ℕ
unfolding is_neg
magnitude a = if is_neg a then uint_mod - a else a

abbrev pub with_sign : Bool → ℕ → ℕ
with_sign true m = (uint_mod - m) % uint_mod
with_sign false m = m

-- a / b and a % b on intmax_t: the quotient goes towards zero, the remainder has the sign of a.
unfoldable pub s_div : ℕ → ℕ → ℕ
unfolding magnitude is_neg
s_div a b = with_sign (if is_neg a then not (is_neg b) else is_neg b) (magnitude a / magnitude b)

unfoldable pub s_rem : ℕ → ℕ → ℕ
unfolding magnitude is_neg
s_rem a b = with_sign (is_neg a) (magnitude a % magnitude b)

-- a < b on intmax_t: with the sign bit turned over the order is that of the patterns.
unfoldable pub s_lt : ℕ → ℕ → Bool
s_lt a b = ltb ((a + int_half) % uint_mod) ((b + int_half) % uint_mod)

-- a truth value as an integer
abbrev pub of_bool : Bool → ℕ
of_bool true = 1
of_bool false = 0

unfoldable pub b_and : ℕ → ℕ → ℕ
b_and a b = bit_and a b

unfoldable pub b_xor : ℕ → ℕ → ℕ
b_xor a b = bit_xor a b

unfoldable pub b_or : ℕ → ℕ → ℕ
b_or a b = bit_or a b
