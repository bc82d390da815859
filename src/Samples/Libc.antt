-- ===== src/Samples/Libc.antt =====
-- A strtoimax that reads decimal digits, and variables that all hold integers, for the runs.
use gwsh.Base.{
  ℕ, ◌+◌, ◌-◌, ◌*◌, ◌≤◌, ◌≡◌, true, arith, ltb, if◌then◌else◌, List, [], ◌∷◌, length, Bytes,
  bytes_eq, ◌%◌, ◌^◌,
}
use gwsh.Syntax.{is_digit}
use gwsh.MyString.{Strto, Strtoimax, IsStrtoimax}
use gwsh.Arith.Parse.{answer, Variables}

-- the digits at the start, added to what was read before
unfoldable pub digits : ℕ → Bytes → Strto
unfolding is_digit
digits acc [] = record { value = acc % 2 ^ 63; rest = []; erange = ltb (2 ^ 63 - 1) acc }
digits acc (c ∷ s) =
    let more = digits (acc * 10 + (c - b'0')) s in
    if is_digit c
    then more
    else record { value = acc % 2 ^ 63; rest = c ∷ s; erange = ltb (2 ^ 63 - 1) acc }

abbrev pub decimal : Strtoimax
decimal base s = digits 0 s

length-digits : (acc : ℕ) (s : Bytes) → length (digits acc s).rest ≤ length s
unfolding digits
length-digits acc [] = omega arith
length-digits acc (c ∷ s) = ground (arith, length-digits (acc * 10 + (c - b'0')) s)

decimal-takes_digit :
    (c : ℕ) (s : Bytes) → is_digit c ≡ true → length (decimal 0 (c ∷ s)).rest ≤ length s
unfolding digits is_digit
decimal-takes_digit c s h = ground (arith, length-digits (0 * 10 + (c - b'0')) s)

pub decimal-IsStrtoimax : IsStrtoimax decimal
decimal-IsStrtoimax = record { takes_digit = decimal-takes_digit }

abbrev pub Store : Type 0
Store = List (Bytes × ℕ)

unfoldable pub find : Bytes → Store → ℕ
unfolding bytes_eq
find x [] = 0
find x ((y, v) ∷ m) = if bytes_eq x y then v else find x m

abbrev pub store_variables : Variables Store
store_variables = record {
  lookupvarint = λ x m. answer (find x m) m;
  setvarint = λ x v m. answer v ((x, v) ∷ m);
}
