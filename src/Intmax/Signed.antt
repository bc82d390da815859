-- ===== src/Intmax/Signed.antt =====
-- The integer that a 64-bit pattern stands for, and the order of intmax_t.
use gwsh.Base.{ℕ, ◌-◌, ◌≤◌, ◌<◌, ◌≡◌, refl, Bool, true, false, arith, ltb, if◌then◌else◌}
use gwsh.Base.Int.{ℤ, pos, negsuc, sub_ℕ, lt_ℤ}
use gwsh.Intmax.{uint_mod, int_half, with_sign, s_lt, is_neg, magnitude}

abbrev pub to_int : ℕ → ℤ
to_int a = if ltb a int_half then pos a else negsuc (uint_mod - a - 1)

-- plus or minus a number
abbrev pub signed : Bool → ℕ → ℤ
signed true m = sub_ℕ 0 m
signed false m = pos m

-- The order by turned sign bits is the order of the integers.
pub s_lt-lt_ℤ : (a b : ℕ) → a < uint_mod → b < uint_mod → s_lt a b ≡ lt_ℤ (to_int a) (to_int b)
unfolding s_lt
s_lt-lt_ℤ a b ha hb = ground arith

pub to_int-with_sign :
    (neg : Bool) (m : ℕ)
    → m ≤ int_half
    → (neg ≡ false → m < int_half)
    → to_int (with_sign neg m) ≡ signed neg m
to_int-with_sign true m h k = ground arith
to_int-with_sign false m h k = let h' = k refl in ground arith

-- A pattern is the number of its sign and magnitude.
pub to_int-magnitude : (a : ℕ) → a < uint_mod → to_int a ≡ signed (is_neg a) (magnitude a)
unfolding is_neg magnitude
to_int-magnitude a h = ground arith
