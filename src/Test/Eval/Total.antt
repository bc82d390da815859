-- ===== src/Test/Eval/Total.antt =====
-- src/bltin/test.c: the parser of tests ends, and never goes back in the argument vector.
use gwsh.Base.{
  ℕ, zero, suc, ◌+◌, ◌-◌, ◌*◌, ◌<◌, ◌≤◌, ◌≡◌, ◌∙◌, ◌&&◌, ◌||◌, refl, Bool, true, false, not, Option,
  none, some, Bytes, length, arith,
}
use gwsh.MyString.{Strtoimax}
use gwsh.Test.Ops.{Op, Token, unop, unot, lparen, eoi, is_type, getop, binop}
use gwsh.Test.File.{System}
use gwsh.Test.Monad.{Argv, Cursor, ◌>>=◌, slot, ret}
use gwsh.Test.Eval.{
  t_lex, nexpr, aexpr, oexpr, primary, operand_cmd, isoperand, is_operator, binop_cmd, unary_cmd,
  isoperand_word, lex_op, lex_word, is_lparen, Tested, tested, not_a_number, of_tested, binop_test,
  unary_test, num_of, the_word, is_eoi, is_bor, is_band, is_rparen, skip_unless,
}
use gwsh.Test.Ends.{Ends, Ends-bind, Ends-if, Ends-map, Ends-option, Inside, slot-Ends}

-- t_wp stays where it is, or goes on.
abbrev Stays : {A : Type 0} → Cursor → A → Cursor → Type 0
Stays c a c' = c'.t_wp ≡ c.t_wp

abbrev pub Onward : {A : Type 0} → Cursor → A → Cursor → Type 0
Onward c a c' = c.t_wp ≤ c'.t_wp

module _ (strtoimax : Strtoimax) (sys : System) (argv : Argv) where
  isoperand_word-Ends :
      (i : ℕ) (w : Option Bytes) (c : Cursor)
      → Ends (Stays c) (isoperand_word strtoimax sys argv i w c)
  isoperand_word-Ends i none c = refl
  isoperand_word-Ends i (some s) c =
      Ends-bind (Inside argv (i + 2) c) (Stays c) (slot argv (i + 2)) _ c (slot-Ends argv (i + 2) c)
        λ w c' h. Ends-option (Stays c) w _ _ c' h.0 (λ _. h.0)

  isoperand-Ends : (i : ℕ) (c : Cursor) → Ends (Stays c) (isoperand strtoimax sys argv i c)
  unfolding isoperand
  isoperand-Ends i c =
      Ends-bind (Inside argv (i + 1) c) (Stays c) (slot argv (i + 1)) _ c (slot-Ends argv (i + 1) c)
        λ w c' h. Ends-map (Stays c') (Stays c) _ (λ a d k. k ∙ h.0) (isoperand_word-Ends i w c')

  is_operator-Ends :
      (i : ℕ) (op : Option Op) (c : Cursor) → Ends (Stays c) (is_operator strtoimax sys argv i op c)
  unfolding is_operator
  is_operator-Ends i op c =
      Ends-if (Stays c) (is_type unop op) _ _ c
        (Ends-bind (Stays c) (Stays c) (isoperand strtoimax sys argv i) _ c (isoperand-Ends i c)
          λ a c' h. h)
        (Ends-if (Stays c) (is_lparen op) _ _ c
          (Ends-bind (Inside argv (i + 1) c) (Stays c) (slot argv (i + 1)) _ c
            (slot-Ends argv (i + 1) c) (λ a c' h. h.0))
          refl)

  lex_op-Ends :
      (i : ℕ) (op : Option Op) (c : Cursor) → Ends (Stays c) (lex_op strtoimax sys argv i op c)
  lex_op-Ends i none c = refl
  lex_op-Ends i (some op) c =
      Ends-bind (Stays c) (Stays c) (is_operator strtoimax sys argv i (some op)) _ c
        (is_operator-Ends i (some op) c) λ yes c' h. Ends-if (Stays c) yes _ _ c' h h

  lex_word-Ends :
      (i : ℕ) (w : Option Bytes) (c : Cursor) → Ends (Stays c) (lex_word strtoimax sys argv i w c)
  lex_word-Ends i none c = refl
  lex_word-Ends i (some s) c = lex_op-Ends i (getop s) c

  pub t_lex-Ends : (i : ℕ) (c : Cursor) → Ends (Inside argv i c) (t_lex strtoimax sys argv i c)
  unfolding t_lex
  t_lex-Ends i c =
      Ends-bind (Inside argv i c) (Inside argv i c) (slot argv i) _ c (slot-Ends argv i c) λ w c' h.
        Ends-map (Stays c') (Inside argv i c) _ (λ t d k. (k ∙ h.0, h.1)) (lex_word-Ends i w c')

  of_tested-Ends : (t : Tested) (c : Cursor) → Ends (Stays c) (of_tested t c)
  of_tested-Ends (tested b) c = refl
  of_tested-Ends not_a_number c = tt

  the_word-Ends : (w : Option Bytes) (c : Cursor) → Ends (Stays c) (the_word strtoimax sys argv w c)
  the_word-Ends none c = tt
  the_word-Ends (some s) c = refl

  binop_cmd-Ends : (c : Cursor) → Ends (Onward c) (binop_cmd strtoimax sys argv c)
  unfolding binop_cmd
  binop_cmd-Ends c =
      Ends-bind (Inside argv c.t_wp c) (Onward c) (slot argv c.t_wp) _ c (slot-Ends argv c.t_wp c)
        λ first c₁ h₁.
          Ends-bind (Stays c₁) (Onward c) (the_word strtoimax sys argv first) _ c₁
            (the_word-Ends first c₁)
            λ opnd1 c₂ h₂.
              let c₃ : Cursor = record c₂ { t_wp = c₂.t_wp + 2 } in
              Ends-bind (Inside argv (c₂.t_wp + 2) c₃) (Onward c) (slot argv (c₂.t_wp + 2)) _ c₃
                (slot-Ends argv (c₂.t_wp + 2) c₃)
                λ second c₄ h₄. Ends-option (Onward c) second _ _ c₄ tt λ opnd2.
                  Ends-map (Stays c₄) (Onward c) _ (λ a d k. omega (arith, k, h₄.0, h₂, h₁.0))
                    (of_tested-Ends
                      (binop_test strtoimax sys (num_of strtoimax sys argv c₂.t_wp_op) opnd1 opnd2)
                      c₄)

  unary_cmd-Ends : (n : Token) (c : Cursor) → Ends (Onward c) (unary_cmd strtoimax sys argv n c)
  unfolding unary_cmd
  unary_cmd-Ends n c =
      let c₁ : Cursor = record c { t_wp = c.t_wp + 1 } in
      Ends-bind (Inside argv (c.t_wp + 1) c₁) (Onward c) (slot argv (c.t_wp + 1)) _ c₁
        (slot-Ends argv (c.t_wp + 1) c₁)
        λ w c₂ h. Ends-option (Onward c) w _ _ c₂ tt λ s.
          Ends-map (Stays c₂) (Onward c) _ (λ a d k. omega (arith, k, h.0))
            (of_tested-Ends (unary_test strtoimax sys n s) c₂)

  operand_cmd-Ends : (n : Token) (c : Cursor) → Ends (Onward c) (operand_cmd strtoimax sys argv n c)
  unfolding operand_cmd
  operand_cmd-Ends n c = Ends-if (Onward c) (is_type unop c.t_wp_op) _ _ c (unary_cmd-Ends n c) (
      Ends-bind (Inside argv (c.t_wp + 1) c) (Onward c) (t_lex strtoimax sys argv (c.t_wp + 1)) _ c
        (t_lex-Ends (c.t_wp + 1) c)
        λ t c₁ h.
          Ends-if (Onward c) (is_type binop c₁.t_wp_op) _ _ c₁
            (Ends-map (Onward c₁) (Onward c) _ (λ a d k. omega (arith, k, h.0)) (binop_cmd-Ends c₁))
            (Ends-bind (Inside argv c.t_wp c₁) (Onward c) (slot argv c.t_wp) _ c₁
              (slot-Ends argv c.t_wp c₁)
              λ w c₂ h₂.
                Ends-bind (Stays c₂) (Onward c) (the_word strtoimax sys argv w) _ c₂
                  (the_word-Ends w c₂) (λ s c₃ h₃. omega (arith, h.0, h₂.0, h₃))))

  -- The fuel for what is left of the vector.
  abbrev left : Cursor → ℕ
  left c = length argv - c.t_wp

  -- What follows the token behind `!`, if nexpr ends with one unit of fuel less.
  negated-Ends :
      (f : ℕ) (n : Token) (c : Cursor)
      → 4 * left c + 3 ≤ f
      → c.t_wp + 1 < length argv
      → ((k : Token) (d : Cursor)
          → 4 * left d + 4 ≤ f
          → Ends (Onward d) (nexpr strtoimax sys argv f k d))
      → Ends (Onward c) (
          (do
            k ← skip_unless strtoimax sys argv (is_eoi strtoimax sys argv n)
            r ← nexpr strtoimax sys argv f n
            ret (not r))
            c)
  unfolding oexpr
  negated-Ends zero n c fuel inside rest = absurd (omega arith)
  negated-Ends (suc zero) n c fuel inside rest = absurd (omega arith)
  negated-Ends (suc (suc f)) eoi c fuel inside rest = omega arith
  negated-Ends (suc (suc f)) n c fuel inside rest =
      let c₁ : Cursor = record c { t_wp = c.t_wp + 1 } in
      Ends-bind (Onward c₁) (Onward c) (nexpr strtoimax sys argv (suc (suc f)) n) _ c₁
        (rest n c₁ (omega arith)) (λ r c₂ h. omega (arith, h))

  mutual
    unfolding oexpr

    pub oexpr-Ends :
        (f : ℕ) (n : Token) (res : Bool) (c : Cursor)
        → 4 * left c + 6 ≤ f
        → Ends (Onward c) (oexpr strtoimax sys argv f n res c)
    oexpr-Ends zero n res c fuel = absurd (omega arith)
    oexpr-Ends (suc f) n res c fuel =
        Ends-bind (Onward c) (Onward c) (aexpr strtoimax sys argv f n true) _ c
          (aexpr-Ends f n true c (omega arith))
          λ a c₁ h₁.
            Ends-bind (Inside argv (c₁.t_wp + 1) c₁) (Onward c)
              (t_lex strtoimax sys argv (c₁.t_wp + 1)) _ c₁ (t_lex-Ends (c₁.t_wp + 1) c₁)
              λ n' c₂ h₂.
                let c₃ : Cursor = record c₂ { t_wp = c₂.t_wp + 2 } in
                Ends-if (Onward c) (is_bor strtoimax sys argv n') _ _ c₂
                  (Ends-bind (Inside argv (c₂.t_wp + 2) c₃) (Onward c)
                    (t_lex strtoimax sys argv (c₂.t_wp + 2)) _ c₃ (t_lex-Ends (c₂.t_wp + 2) c₃)
                    λ n'' c₄ h₄.
                      Ends-map (Onward c₄) (Onward c) _
                        (λ r c₅ h₅. omega (arith, h₁, h₂.0, h₄.0, h₅))
                        (oexpr-Ends f n'' (res || a) c₄
                          (omega (arith, h₁, h₂.0, h₂.1, h₄.0, h₄.1))))
                  (omega (arith, h₁, h₂.0))

    aexpr-Ends :
        (f : ℕ) (n : Token) (res : Bool) (c : Cursor)
        → 4 * left c + 5 ≤ f
        → Ends (Onward c) (aexpr strtoimax sys argv f n res c)
    aexpr-Ends zero n res c fuel = absurd (omega arith)
    aexpr-Ends (suc f) n res c fuel =
        Ends-bind (Onward c) (Onward c) (nexpr strtoimax sys argv f n) _ c
          (nexpr-Ends f n c (omega arith))
          λ a c₁ h₁.
            Ends-bind (Inside argv (c₁.t_wp + 1) c₁) (Onward c)
              (t_lex strtoimax sys argv (c₁.t_wp + 1)) _ c₁ (t_lex-Ends (c₁.t_wp + 1) c₁)
              λ n' c₂ h₂.
                let c₃ : Cursor = record c₂ { t_wp = c₂.t_wp + 2 } in
                Ends-if (Onward c) (is_band strtoimax sys argv n') _ _ c₂
                  (Ends-bind (Inside argv (c₂.t_wp + 2) c₃) (Onward c)
                    (t_lex strtoimax sys argv (c₂.t_wp + 2)) _ c₃ (t_lex-Ends (c₂.t_wp + 2) c₃)
                    λ n'' c₄ h₄.
                      Ends-map (Onward c₄) (Onward c) _
                        (λ r c₅ h₅. omega (arith, h₁, h₂.0, h₄.0, h₅))
                        (aexpr-Ends f n'' (a && res) c₄
                          (omega (arith, h₁, h₂.0, h₂.1, h₄.0, h₄.1))))
                  (omega (arith, h₁, h₂.0))

    nexpr-Ends :
        (f : ℕ) (n : Token) (c : Cursor)
        → 4 * left c + 4 ≤ f
        → Ends (Onward c) (nexpr strtoimax sys argv f n c)
    nexpr-Ends zero n c fuel = absurd (omega arith)
    nexpr-Ends (suc f) unot c fuel =
        Ends-bind (Inside argv (c.t_wp + 1) c) (Onward c) (t_lex strtoimax sys argv (c.t_wp + 1)) _
          c (t_lex-Ends (c.t_wp + 1) c)
          λ n' c₁ h₁.
            Ends-map (Onward c₁) (Onward c) _ (λ r c₂ h₂. omega (arith, h₁.0, h₂))
              (negated-Ends f n' c₁ (omega (arith, h₁.0, h₁.1)) (omega (arith, h₁.0, h₁.1))
                (λ k d room. nexpr-Ends f k d room))
    nexpr-Ends (suc f) n c fuel = primary-Ends f n c (omega arith)

    primary-Ends :
        (f : ℕ) (n : Token) (c : Cursor)
        → 4 * left c + 3 ≤ f
        → Ends (Onward c) (primary strtoimax sys argv f n c)
    primary-Ends zero n c fuel = absurd (omega arith)
    primary-Ends (suc f) eoi c fuel = omega arith
    primary-Ends (suc f) lparen c fuel =
        let c₀ : Cursor = record c { t_wp = c.t_wp + 1 } in
        Ends-bind (Inside argv (c.t_wp + 1) c₀) (Onward c) (t_lex strtoimax sys argv (c.t_wp + 1)) _
          c₀ (t_lex-Ends (c.t_wp + 1) c₀)
          λ nn c₁ h₁.
            Ends-if (Onward c) (is_rparen strtoimax sys argv nn) _ _ c₁ (omega (arith, h₁.0)) (
              Ends-bind (Onward c₁) (Onward c) (oexpr strtoimax sys argv f nn false) _ c₁
                (oexpr-Ends f nn false c₁ (omega (arith, h₁.0, h₁.1)))
                λ res c₂ h₂.
                  let c₃ : Cursor = record c₂ { t_wp = c₂.t_wp + 1 } in
                  Ends-bind (Inside argv (c₂.t_wp + 1) c₃) (Onward c)
                    (t_lex strtoimax sys argv (c₂.t_wp + 1)) _ c₃ (t_lex-Ends (c₂.t_wp + 1) c₃)
                    λ close c₄ h₄.
                      Ends-if (Onward c) (is_rparen strtoimax sys argv close) _ _ c₄
                        (omega (arith, h₁.0, h₂, h₄.0)) tt)
    primary-Ends (suc f) n c fuel = operand_cmd-Ends n c
