-- ===== src/Expand/Bracket.antt =====
-- src/expand.c: ccmatch, and the bracket expressions of pmatch, without WITH_LOCALE. A pointer into a
-- string is the rest of the string; a pointer behind the terminating NUL is none.
pub mod Total
pub mod Ends
use gwsh.Base.{
  ℕ, zero, suc, ◌+◌, ◌-◌, Bool, true, false, not, ◌&&◌, ◌||◌, Option, none, some, List, [], ◌∷◌,
  String, Bytes, codes, ◌==◌, ltb, leb, if◌then◌else◌, head_byte, tail_bytes,
}
use gwsh.MyString.{prefix}

-- The functions of the C library.
pub data CharClass : Type 0 where
  isalnum iscntrl islower isspace isalpha isdigit isprint isupper isblank isgraph ispunct isxdigit :
      CharClass

abbrev pub Ctype : Type 0
Ctype = CharClass → ℕ → Bool

-- CTLESC is -127.
abbrev pub ctlesc : ℕ
ctlesc = 129

-- char is signed: the order of bytes as the code compares them.
abbrev as_signed : ℕ → ℕ
as_signed c = if ltb c 128 then c + 128 else c - 128

-- GETC_CTLESC: the character and the rest, or the NUL, with the pointer behind it.
pub data Got : Type 0 where
  got : ℕ → Bytes → Got
  at_nul : Got

abbrev pub get : Bytes → Got
get [] = at_nul
get (c ∷ s) = got c s

unfoldable pub getc : Bool → Bytes → Got
getc esc [] = at_nul
getc esc (c ∷ s) = if esc && c == ctlesc then get s else got c s

pub record Class : Type 0 where
  pub name : Bytes
  pub fn : CharClass

abbrev class : String → CharClass → Class
class name fn = record { name = codes name; fn = fn }

abbrev pub classes : List Class
classes =
    class "alnum:]" isalnum
    ∷ class "cntrl:]" iscntrl
    ∷ class "lower:]" islower
    ∷ class "space:]" isspace
    ∷ class "alpha:]" isalpha
    ∷ class "digit:]" isdigit
    ∷ class "print:]" isprint
    ∷ class "upper:]" isupper
    ∷ class "blank:]" isblank
    ∷ class "graph:]" isgraph
    ∷ class "punct:]" ispunct
    ∷ class "xdigit:]" isxdigit
    ∷ []

-- What ccmatch returns and stores in *r, or a read behind the end.
pub data Cc : Type 0 where
  cc : Bool → Option Bytes → Cc
  cc_wild : Cc

-- The end of the name of a class that is not known.
unfoldable pub class_end : Bytes → Cc
class_end [] = cc false none
class_end (c ∷ []) = if c == ctlesc then cc_wild else cc false none
class_end (c ∷ d ∷ q) =
    let one = class_end (d ∷ q) in
    let two = class_end q in
    if c == b':' && d == b']' then cc false (some q) else if c == ctlesc then two else one

abbrev pub class_hit : Bool → Option Bytes → Cc → Cc
class_hit hit none rest = rest
class_hit hit (some q) rest = cc hit (some q)

unfoldable pub find_class : Ctype → List Class → Bytes → ℕ → Cc
unfolding prefix class_end
find_class ctype [] p chr = class_end p
find_class ctype (k ∷ ks) p chr =
    class_hit (ctype k.fn chr) (prefix p k.name) (find_class ctype ks p chr)

-- `p` stands on the [.
unfoldable pub ccmatch : Ctype → Bytes → ℕ → Cc
unfolding find_class
ccmatch ctype p chr =
    if head_byte (tail_bytes p) == b':'
    then find_class ctype classes (tail_bytes (tail_bytes p)) chr
    else cc false none

-- A bracket expression that ends, with what stands after it; one that does not end, which is a plain [;
-- a read behind the end of the pattern. `bracket_fuel` belongs to the model only.
pub data Bracket : Type 0 where
  closed : Bool → Bytes → Bracket
  no_bracket bracket_wild bracket_fuel : Bracket

-- while (*p != ']')
abbrev pub close : (Bytes → Bool → Bracket) → Bytes → Bool → Bracket
close loop p found = if head_byte p == b']' then closed found (tail_bytes p) else loop p found

abbrev pub skip_backslash : Bytes → Bytes
skip_backslash p = if head_byte p == b'\\' then tail_bytes p else p

abbrev pub is_in_range : ℕ → ℕ → ℕ → Bool
is_in_range c chr c2 = leb (as_signed c) (as_signed chr) && leb (as_signed chr) (as_signed c2)

abbrev pub range_end : (Bytes → Bool → Bracket) → ℕ → ℕ → Bool → Got → Bracket
range_end loop chr c found at_nul = bracket_wild
range_end loop chr c found (got c2 p) = close loop p (found || is_in_range c chr c2)

abbrev pub element : (Bytes → Bool → Bracket) → ℕ → Bool → Got → Bracket
element loop chr found at_nul = bracket_wild
element loop chr found (got c p) =
    if head_byte p == b'-' && not (head_byte (tail_bytes p) == b']')
    then range_end loop chr c found (getc true (skip_backslash (tail_bytes p)))
    else close loop p (found || chr == c)

abbrev pub classed : (Bytes → Bool → Bracket) → ℕ → Bool → Bytes → Cc → Bracket
classed loop chr found p (cc hit (some r)) = close loop r (found || hit)
classed loop chr found p (cc hit none) =
    element loop chr (found || hit) (getc true (skip_backslash p))
classed loop chr found p cc_wild = bracket_wild

-- The loop over the elements; a unit of fuel for each.
unfoldable pub bracket_loop : ℕ → Ctype → ℕ → Bytes → Bool → Bracket
unfolding ccmatch getc
bracket_loop zero ctype chr p found = bracket_fuel
bracket_loop (suc f) ctype chr [] found = no_bracket
bracket_loop (suc f) ctype chr (c ∷ p) found =
    if c == b'['
    then classed (bracket_loop f ctype chr) chr found (c ∷ p) (ccmatch ctype (c ∷ p) chr)
    else element (bracket_loop f ctype chr) chr found (getc true (skip_backslash (c ∷ p)))
