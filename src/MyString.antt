-- ===== src/MyString.antt =====
-- src/mystring.c: reading numbers and prefixes of strings. strtoimax is a function of the C library,
-- and is a parameter of what uses it.
use gwsh.Base.{
  ℕ, ◌-◌, ◌^◌, ◌≤◌, ◌≡◌, Bool, true, false, not, ◌&&◌, ◌||◌, Option, none, some, [], ◌∷◌, arith,
  ltb, ◌==◌, if◌then◌else◌, length, Bytes,
}
use gwsh.Syntax.{is_digit, is_space}
use gwsh.Intmax.{is_neg}

-- What strtoimax returns and stores: the value as a 64-bit pattern, the text after the number, and
-- whether errno is ERANGE.
pub record Strto : Type 0 where
  pub value : ℕ
  pub rest : Bytes
  pub erange : Bool

-- The base, then the text.
abbrev pub Strtoimax : Type 0
Strtoimax = ℕ → Bytes → Strto

-- What the code relies on: a text that starts with a digit is a number in base 0, at least the digit
-- is consumed, and nothing is put back.
pub record IsStrtoimax (strtoimax : Strtoimax) : Type 0 where
  pub takes_digit :
      (c : ℕ) (s : Bytes) → is_digit c ≡ true → length (strtoimax 0 (c ∷ s)).rest ≤ length s

-- The value and the text after it; `none` is the error of badnum.
pub data Number : Type 0 where
  number_at : ℕ → Bytes → Number
  badnum : Number

unfoldable pub skip_spaces : Bytes → Bytes
skip_spaces [] = []
skip_spaces (c ∷ s) = if is_space c then skip_spaces s else c ∷ s

-- atomax with `end` given: trailing text is allowed.
unfoldable pub atomax_end : Strtoimax → Bytes → ℕ → Number
atomax_end strtoimax s base =
    let r = strtoimax base s in
    if r.erange
    then badnum
    else if length r.rest == length s && not (base == 0)
    then badnum
    else number_at r.value (skip_spaces r.rest)

abbrev pub at_end : Number → Option ℕ
at_end (number_at v []) = some v
at_end (number_at v (c ∷ s)) = none
at_end badnum = none

-- atomax with `end` NULL: the whole text is the number and blanks.
unfoldable pub atomax : Strtoimax → Bytes → ℕ → Option ℕ
unfolding atomax_end
atomax strtoimax s base = at_end (atomax_end strtoimax s base)

unfoldable pub atomax10 : Strtoimax → Bytes → Option ℕ
unfolding atomax
atomax10 strtoimax s = atomax strtoimax s 10

abbrev pub int_max : ℕ
int_max = 2 ^ 31 - 1

abbrev checked_int : Option ℕ → Option ℕ
checked_int none = none
checked_int (some n) = if is_neg n || ltb int_max n then none else some n

unfoldable pub number : Strtoimax → Bytes → Option ℕ
unfolding atomax10
number strtoimax s = checked_int (atomax10 strtoimax s)

unfoldable pub is_number : Bytes → Bool
is_number [] = false
is_number (c ∷ []) = is_digit c
is_number (c ∷ d ∷ s) = if is_digit c then is_number (d ∷ s) else false

-- The text behind the prefix.
unfoldable pub prefix : Bytes → Bytes → Option Bytes
prefix string [] = some string
prefix [] (p ∷ pfx) = none
prefix (c ∷ string) (p ∷ pfx) = if p == c then prefix string pfx else none

pub length-skip_spaces : (s : Bytes) → length (skip_spaces s) ≤ length s
unfolding skip_spaces
length-skip_spaces [] = omega arith
length-skip_spaces (c ∷ s) = ground (arith, length-skip_spaces s)
