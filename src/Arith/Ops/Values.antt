-- ===== src/Arith/Ops/Values.antt =====
-- src/arith_yacc.c: what do_binop computes, as integers.
use gwsh.Base.{
  ℕ, ◌+◌, ◌-◌, ◌%◌, ◌<◌, ◌≡◌, ◌≢◌, ◌⊎◌, ◌↔◌, ◌∙◌, sym, refl, true, not, arith, ◌==◌, Bool-cases,
  inl, inr, ==_iff, bools_apart,
}
use gwsh.Base.Int.{lt_ℤ, ◌+ℤ◌, ◌*ℤ◌}
use gwsh.Intmax.{u_neg, uint_mod, is_neg, magnitude, of_bool, s_lt, s_div, s_rem}
use gwsh.Intmax.Signed.{to_int, s_lt-lt_ℤ}
use gwsh.Intmax.Division.{s_div-s_rem, s_rem-bound}
use gwsh.Arith.Token.{tok_div, tok_rem, tok_lt, tok_le, tok_gt, tok_ge, is_binop}
use gwsh.Arith.Ops.{Error, division_by_zero, value, fail, do_binop}

ordered :
    (a b : ℕ)
    → (do_binop tok_lt a b ≡ value (of_bool (s_lt a b)))
      × (do_binop tok_gt a b ≡ value (of_bool (s_lt b a)))
      × (do_binop tok_le a b ≡ value (of_bool (not (s_lt b a))))
      × (do_binop tok_ge a b ≡ value (of_bool (not (s_lt a b))))
unfolding do_binop
ordered a b = (refl, refl, refl, refl)

module _ (a b : ℕ) where
  -- The quotient and the remainder of a division by -1.
  abbrev pub ByMinusOne : ℕ → ℕ → Type 0
  ByMinusOne q r = (b ≡ uint_mod - 1) × ((q < uint_mod) × ((q + a) % uint_mod ≡ 0)) × (r ≡ 0)

  -- Those of a division by another divisor.
  abbrev pub ByOther : ℕ → ℕ → Type 0
  ByOther q r =
      (b ≢ uint_mod - 1)
      × (to_int q *ℤ to_int b +ℤ to_int r ≡ to_int a)
      × (magnitude r < magnitude b)
      × ((r ≡ 0) ⊎ (is_neg r ≡ is_neg a))

  negated : b ≡ uint_mod - 1 → do_binop tok_div a b ≡ value (u_neg a)
  unfolding do_binop
  negated h = ground arith

  no_remainder : b ≡ uint_mod - 1 → do_binop tok_rem a b ≡ value 0
  unfolding do_binop
  no_remainder h = ground arith

module _ (a : ℕ) (ha : a < uint_mod) where
  negation : (u_neg a < uint_mod) × ((u_neg a + a) % uint_mod ≡ 0)
  unfolding u_neg
  negation = (omega (arith, ha), omega (arith, ha))

module _ (a b : ℕ) (ha : a < uint_mod) (hb : b < uint_mod) where
  divided : b ≢ 0 → b ≢ uint_mod - 1 → do_binop tok_div a b ≡ value (s_div a b)
  unfolding do_binop
  divided h0 h1 = ground arith

  remaindered : b ≢ 0 → b ≢ uint_mod - 1 → do_binop tok_rem a b ≡ value (s_rem a b)
  unfolding do_binop
  remaindered h0 h1 = ground arith

  -- A division by anything but 0 has a quotient and a remainder. By -1 the remainder is 0 and the
  -- quotient is the 64-bit word that the dividend is added to to give 0, modulo 2^64. By any other
  -- divisor the two make up the dividend as integers, and the remainder is smaller than the divisor and
  -- is 0 or has the sign of the dividend.
  pub do_binop-division :
      b ≢ 0
      → (q : ℕ) × (r : ℕ) × (do_binop tok_div a b ≡ value q)
        × (do_binop tok_rem a b ≡ value r)
        × (ByMinusOne a b q r ⊎ ByOther a b q r)
  do_binop-division h0 = elim (Bool-cases (b == uint_mod - 1)) [
    | inl e ↦
        let minus = (==_iff b (uint_mod - 1)).0 e in
        (u_neg a, 0, negated a b minus, no_remainder a b minus, inl (minus, negation a ha, refl))
    | inr e ↦
        let h1 : b ≢ uint_mod - 1 = λ q. bools_apart (sym ((==_iff b (uint_mod - 1)).1 q) ∙ e) in
        (
          s_div a b,
          s_rem a b,
          divided h0 h1,
          remaindered h0 h1,
          inr (
            h1,
            s_div-s_rem a b ha hb h0 h1,
            (s_rem-bound a b hb h0).0,
            (s_rem-bound a b hb h0).1,
          ),
        )
  ]

  -- The four comparisons give 1 or 0 by the order of the integers that the words stand for.
  pub do_binop-order :
      (do_binop tok_lt a b ≡ value (of_bool (lt_ℤ (to_int a) (to_int b))))
      × (do_binop tok_gt a b ≡ value (of_bool (lt_ℤ (to_int b) (to_int a))))
      × (do_binop tok_le a b ≡ value (of_bool (not (lt_ℤ (to_int b) (to_int a)))))
      × (do_binop tok_ge a b ≡ value (of_bool (not (lt_ℤ (to_int a) (to_int b)))))
  do_binop-order = rw (← s_lt-lt_ℤ a b ha hb, ← s_lt-lt_ℤ b a hb ha) (ordered a b)

-- Of the binary operators / and % fail, by 0 alone.
pub do_binop-fails_iff :
    (op a b : ℕ) (e : Error)
    → is_binop op ≡ true
    → (do_binop op a b ≡ fail e)
      ↔ ((e ≡ division_by_zero) × (b ≡ 0) × ((op ≡ tok_div) ⊎ (op ≡ tok_rem)))
unfolding do_binop
do_binop-fails_iff op a b e h = ground arith
