-- ===== src/Syntax.antt =====
-- src/syntax.c and src/syntax.h: the classes of characters, as a table of bit sets.
use Prim.Native.Nat.{bit_and}
use gwsh.Base.{ℕ, ◌+◌, ◌≡◌, Bool, not, ◌&&◌, ◌||◌, arith, leb, ◌==◌, if◌then◌else◌}

abbrev pub isspace : ℕ
isspace = 0o1

abbrev pub isalpha : ℕ
isalpha = 0o2

abbrev pub isunder : ℕ
isunder = 0o4

abbrev pub isodigit : ℕ
isodigit = 0o10

abbrev pub isxdigit : ℕ
isxdigit = 0o20

abbrev pub isspecldol : ℕ
isspecldol = 0o40

abbrev pub isspeclvar : ℕ
isspeclvar = 0o100

abbrev in_range : ℕ → ℕ → ℕ → Bool
in_range lo hi c = leb lo c && leb c hi

-- The table. The flags of an entry are distinct bits, so that `|` of them is their sum.
unfoldable pub is_type : ℕ → ℕ
is_type c =
    if in_range 9 13 c || c == b' '
    then isspace
    else if in_range b'0' b'7' c
    then isodigit + isxdigit
    else if in_range b'8' b'9' c
    then isxdigit
    else if in_range b'A' b'F' c || in_range b'a' b'f' c
    then isalpha + isxdigit
    else if in_range b'G' b'Z' c || in_range b'g' b'z' c
    then isalpha
    else if c == b'_'
    then isunder
    else if c == b'(' || c == b'{'
    then isspecldol
    else if c == b'!' || c == b'#' || c == b'$' || c == b'*' || c == b'-' || c == b'?' || c == b'@'
    then isspecldol + isspeclvar
    else 0

abbrev has_class : ℕ → ℕ → Bool
has_class mask c = not (bit_and (is_type c) mask == 0)

unfoldable pub is_odigit : ℕ → Bool
is_odigit c = in_range b'0' b'7' c

unfoldable pub is_digit : ℕ → Bool
is_digit c = in_range b'0' b'9' c

unfoldable pub is_xdigit : ℕ → Bool
unfolding is_type
is_xdigit c = has_class isxdigit c

unfoldable pub is_name : ℕ → Bool
unfolding is_type
is_name c = has_class (isalpha + isunder) c

unfoldable pub is_in_name : ℕ → Bool
unfolding is_type
is_in_name c = has_class (isalpha + isunder + isxdigit) c

unfoldable pub is_space : ℕ → Bool
unfolding is_type
is_space c = has_class isspace c

-- A byte goes on a name exactly if it starts one or is a decimal digit.
pub is_in_name_iff : (c : ℕ) → is_in_name c ≡ (is_name c || is_digit c)
unfolding is_in_name is_name is_digit
is_in_name_iff c = ground arith

-- The class that the source spells ISALPHA | ISUNDER is that of letters and the underscore.
pub is_name-letters :
    (c : ℕ) → is_name c ≡ (in_range b'A' b'Z' c || in_range b'a' b'z' c || c == b'_')
unfolding is_name
is_name-letters c = ground arith

pub is_space-blanks : (c : ℕ) → is_space c ≡ (in_range 9 13 c || c == b' ')
unfolding is_space
is_space-blanks c = ground arith
