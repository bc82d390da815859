-- ===== src/Intmax/Division.antt =====
-- Division of intmax_t: quotient and remainder make up the dividend.
use native.Mathlib.Nat.{div-le_self, mul-div-le}
use gwsh.Base.{
  ℕ, ◌-◌, ◌+◌, ◌*◌, ◌/◌, ◌%◌, ◌≤◌, ◌<◌, ◌≡◌, ◌≢◌, ◌⊎◌, Bool, true, false, not, arith, if◌then◌else◌,
}
use gwsh.Base.Int.{◌+ℤ◌, ◌*ℤ◌}
use gwsh.Intmax.{uint_mod, int_half, with_sign, s_div, s_rem, is_neg, magnitude}
use gwsh.Intmax.Signed.{to_int, signed, to_int-with_sign, to_int-magnitude}

-- The signs of the parts of a division.
signed_division :
    (s t : Bool) (q b r a : ℕ)
    → q * b + r ≡ a
    → signed (if s then not t else t) q *ℤ signed t b +ℤ signed s r ≡ signed s a
unfolding ◌+ℤ◌ ◌*ℤ◌
signed_division true true q b r a e = ground arith
signed_division true false q b r a e = ground arith
signed_division false true q b r a e = ground arith
signed_division false false q b r a e = ground arith

div-le : (a b : ℕ) → a / b ≤ a
div-le a b = div-le_self a b

-- With a divisor of 2 or more a quotient is less than the dividend's bound.
quotient-lt : (a b : ℕ) → a ≤ int_half → 2 ≤ b → a / b < int_half
quotient-lt a b h two = grind (arith, mul-div-le a b)

magnitude-le : (a : ℕ) → a < uint_mod → magnitude a ≤ int_half
unfolding magnitude is_neg
magnitude-le a h = ground arith

quotient-fits :
    (a b : ℕ)
    → a < uint_mod
    → b < uint_mod
    → b ≢ 0
    → b ≢ uint_mod - 1
    → (if is_neg a then not (is_neg b) else is_neg b) ≡ false
    → magnitude a / magnitude b < int_half
unfolding is_neg magnitude
quotient-fits a b ha hb h0 h1 e =
    ground (arith, quotient-lt (uint_mod - a) (uint_mod - b), div-le a b)

rem-lt : (a b : ℕ) → b < uint_mod → b ≢ 0 → magnitude a % magnitude b < int_half
unfolding is_neg magnitude
rem-lt a b hb h0 = ground arith

divides : (a b : ℕ) → a / b * b + a % b ≡ a
divides a b = omega arith

-- With a divisor other than 0 and -1 the quotient times the divisor and the remainder make up the
-- dividend, as integers.
pub s_div-s_rem :
    (a b : ℕ)
    → a < uint_mod
    → b < uint_mod
    → b ≢ 0
    → b ≢ uint_mod - 1
    → to_int (s_div a b) *ℤ to_int b +ℤ to_int (s_rem a b) ≡ to_int a
unfolding s_div s_rem
s_div-s_rem a b ha hb h0 h1 =
    let q =
      to_int-with_sign (if is_neg a then not (is_neg b) else is_neg b) (magnitude a / magnitude b)
        (omega (arith, magnitude-le a ha, div-le (magnitude a) (magnitude b)))
        (quotient-fits a b ha hb h0 h1) in
    let r =
      to_int-with_sign (is_neg a) (magnitude a % magnitude b) (omega (arith, rem-lt a b hb h0))
        (λ _. rem-lt a b hb h0) in
    rw (q, r, to_int-magnitude a ha, to_int-magnitude b hb)
      (signed_division (is_neg a) (is_neg b) (magnitude a / magnitude b) (magnitude b)
        (magnitude a % magnitude b) (magnitude a) (divides (magnitude a) (magnitude b)))

magnitude-with_sign : (neg : Bool) (m : ℕ) → m < int_half → magnitude (with_sign neg m) ≡ m
unfolding magnitude is_neg
magnitude-with_sign true m h = ground arith
magnitude-with_sign false m h = ground arith

is_neg-with_sign :
    (neg : Bool) (m : ℕ) → m < int_half → (with_sign neg m ≡ 0) ⊎ (is_neg (with_sign neg m) ≡ neg)
unfolding is_neg
is_neg-with_sign true m h = ground arith
is_neg-with_sign false m h = ground arith

magnitude-pos : (b : ℕ) → b < uint_mod → b ≢ 0 → 0 < magnitude b
unfolding magnitude is_neg
magnitude-pos b hb h0 = ground arith

-- The remainder is smaller than the divisor, and has the sign of the dividend.
pub s_rem-bound :
    (a b : ℕ)
    → b < uint_mod
    → b ≢ 0
    → (magnitude (s_rem a b) < magnitude b) × ((s_rem a b ≡ 0) ⊎ (is_neg (s_rem a b) ≡ is_neg a))
unfolding s_rem
s_rem-bound a b hb h0 = (
  omega (
    arith,
    magnitude-with_sign (is_neg a) (magnitude a % magnitude b) (rem-lt a b hb h0),
    magnitude-pos b hb h0,
  ),
  is_neg-with_sign (is_neg a) (magnitude a % magnitude b) (rem-lt a b hb h0),
)
