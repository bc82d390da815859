-- ===== src/Expand/Bracket/Total.antt =====
-- A bracket expression of a pattern is read in as many rounds as the pattern is long.
use gwsh.Base.{
  ℕ, zero, suc, ◌≤◌, ◌<◌, Bool, true, not, ◌&&◌, ◌||◌, Option, none, some, List, [], ◌∷◌, Bytes,
  ◌==◌, head_byte, tail_bytes, length, arith, if_split,
}
use gwsh.MyString.{prefix}
use gwsh.Expand.Bracket.{
  Ctype, ctlesc, Got, got, at_nul, get, getc, Class, classes, Cc, cc, cc_wild, class_end, class_hit,
  find_class, ccmatch, Bracket, closed, no_bracket, bracket_wild, bracket_fuel, close,
  skip_backslash, is_in_range, range_end, element, classed, bracket_loop,
}

-- What getc leaves is shorter than n.
abbrev pub Shorter : ℕ → Got → Type 0
Shorter n at_nul = Unit
Shorter n (got c s) = length s < n

get-Shorter : (s : Bytes) (n : ℕ) → length s < n → Shorter n (get s)
get-Shorter [] n h = tt
get-Shorter (c ∷ s) n h = omega arith

pub getc-Shorter : (esc : Bool) (s : Bytes) → Shorter (length s) (getc esc s)
unfolding getc
getc-Shorter esc [] = tt
getc-Shorter esc (c ∷ s) =
    if_split (Shorter (suc (length s))) (esc && c == ctlesc)
      (get-Shorter s (suc (length s)) (omega arith)) (omega arith)

-- What ccmatch stores is no longer than n.
abbrev CcWithin : ℕ → Cc → Type 0
CcWithin n (cc hit (some r)) = length r ≤ n
CcWithin n _ = Unit

CcWithin-wider : (m n : ℕ) (r : Cc) → m ≤ n → CcWithin m r → CcWithin n r
CcWithin-wider m n (cc hit none) h w = tt
CcWithin-wider m n (cc hit (some r)) h w = omega arith
CcWithin-wider m n cc_wild h w = tt

pub length-tail_bytes : (s : Bytes) → length (tail_bytes s) ≤ length s
length-tail_bytes [] = omega arith
length-tail_bytes (c ∷ s) = omega arith

abbrev Within : ℕ → Option Bytes → Type 0
Within n none = Unit
Within n (some s) = length s ≤ n

Within-wider : (m n : ℕ) (o : Option Bytes) → m ≤ n → Within m o → Within n o
Within-wider m n none h w = tt
Within-wider m n (some s) h w = omega arith

prefix-Within : (s pfx : Bytes) → Within (length s) (prefix s pfx)
unfolding prefix
prefix-Within s [] = omega arith
prefix-Within [] (p ∷ pfx) = tt
prefix-Within (c ∷ s) (p ∷ pfx) =
    if_split (Within (suc (length s))) (p == c)
      (Within-wider (length s) (suc (length s)) (prefix s pfx) (omega arith) (prefix-Within s pfx))
      tt

class_end-Within : (p : Bytes) → CcWithin (length p) (class_end p)
unfolding class_end
class_end-Within [] = tt
class_end-Within (c ∷ []) = if_split (CcWithin 1) (c == ctlesc) tt tt
class_end-Within (c ∷ d ∷ q) =
    let n = suc (suc (length q)) in
    if_split (CcWithin n) (c == b':' && d == b']') (omega arith) (
      if_split (CcWithin n) (c == ctlesc)
        (CcWithin-wider (length q) n (class_end q) (omega arith) (class_end-Within q))
        (CcWithin-wider (suc (length q)) n (class_end (d ∷ q)) (omega arith)
          (class_end-Within (d ∷ q))))

class_hit-Within :
    (n : ℕ) (hit : Bool) (o : Option Bytes) (rest : Cc)
    → Within n o
    → CcWithin n rest
    → CcWithin n (class_hit hit o rest)
class_hit-Within n hit none rest h w = w
class_hit-Within n hit (some q) rest h w = h

find_class-Within :
    (ctype : Ctype) (ks : List Class) (p : Bytes) (chr : ℕ)
    → CcWithin (length p) (find_class ctype ks p chr)
unfolding find_class
find_class-Within ctype [] p chr = class_end-Within p
find_class-Within ctype (k ∷ ks) p chr =
    class_hit-Within (length p) (ctype k.fn chr) (prefix p k.name) (find_class ctype ks p chr)
      (prefix-Within p k.name) (find_class-Within ctype ks p chr)

ccmatch-Within :
    (ctype : Ctype) (c : ℕ) (p : Bytes) (chr : ℕ) → CcWithin (length p) (ccmatch ctype (c ∷ p) chr)
unfolding ccmatch
ccmatch-Within ctype c p chr =
    if_split (CcWithin (length p)) (head_byte p == b':')
      (CcWithin-wider (length (tail_bytes p)) (length p)
        (find_class ctype classes (tail_bytes p) chr) (length-tail_bytes p)
        (find_class-Within ctype classes (tail_bytes p) chr))
      tt

-- The loop over a bracket ends, no further than n from the end of the pattern.
abbrev pub EndsIn : ℕ → Bracket → Type 0
EndsIn n (closed hit p) = length p ≤ n
EndsIn n bracket_fuel = ⊥
EndsIn n _ = Unit

pub EndsIn-wider : (m n : ℕ) (b : Bracket) → m ≤ n → EndsIn m b → EndsIn n b
EndsIn-wider m n (closed hit p) h e = omega arith
EndsIn-wider m n no_bracket h e = tt
EndsIn-wider m n bracket_wild h e = tt
EndsIn-wider m n bracket_fuel h e = elim e [ ]

abbrev Loop : ℕ → (Bytes → Bool → Bracket) → Type 0
Loop n loop = (p : Bytes) (found : Bool) → length p < n → EndsIn n (loop p found)

close-EndsIn :
    (n : ℕ) (loop : Bytes → Bool → Bracket) (p : Bytes) (found : Bool)
    → Loop n loop
    → length p < n
    → EndsIn n (close loop p found)
close-EndsIn n loop p found ok h =
    if_split (EndsIn n) (head_byte p == b']') (omega (arith, length-tail_bytes p)) (ok p found h)

range_end-EndsIn :
    (n : ℕ) (loop : Bytes → Bool → Bracket) (chr c : ℕ) (found : Bool) (g : Got)
    → Loop n loop
    → Shorter n g
    → EndsIn n (range_end loop chr c found g)
range_end-EndsIn n loop chr c found at_nul ok h = tt
range_end-EndsIn n loop chr c found (got c2 p) ok h =
    close-EndsIn n loop p (found || is_in_range c chr c2) ok h

pub Shorter-wider : (m n : ℕ) (g : Got) → m ≤ n → Shorter m g → Shorter n g
Shorter-wider m n at_nul h s = tt
Shorter-wider m n (got c p) h s = omega arith

length-skip_backslash : (p : Bytes) → length (skip_backslash p) ≤ length p
length-skip_backslash p =
    if_split (λ s. length s ≤ length p) (head_byte p == b'\\') (length-tail_bytes p) (omega arith)

-- A character that may stand behind a backslash.
skipped-Shorter : (p : Bytes) (n : ℕ) → length p ≤ n → Shorter n (getc true (skip_backslash p))
skipped-Shorter p n h =
    Shorter-wider (length (skip_backslash p)) n (getc true (skip_backslash p))
      (omega (arith, length-skip_backslash p)) (getc-Shorter true (skip_backslash p))

element-EndsIn :
    (n : ℕ) (loop : Bytes → Bool → Bracket) (chr : ℕ) (found : Bool) (g : Got)
    → Loop n loop
    → Shorter n g
    → EndsIn n (element loop chr found g)
element-EndsIn n loop chr found at_nul ok h = tt
element-EndsIn n loop chr found (got c p) ok h =
    if_split (EndsIn n) (head_byte p == b'-' && not (head_byte (tail_bytes p) == b']'))
      (range_end-EndsIn n loop chr c found (getc true (skip_backslash (tail_bytes p))) ok
        (skipped-Shorter (tail_bytes p) n (omega (arith, length-tail_bytes p))))
      (close-EndsIn n loop p (found || chr == c) ok h)

classed-EndsIn :
    (n : ℕ) (loop : Bytes → Bool → Bracket) (chr : ℕ) (found : Bool) (c : ℕ) (p : Bytes) (r : Cc)
    → Loop n loop
    → suc (length p) ≤ n
    → CcWithin (length p) r
    → EndsIn n (classed loop chr found (c ∷ p) r)
classed-EndsIn n loop chr found c p (cc hit none) ok h w =
    element-EndsIn n loop chr (found || hit) (getc true (skip_backslash (c ∷ p))) ok
      (skipped-Shorter (c ∷ p) n h)
classed-EndsIn n loop chr found c p (cc hit (some r)) ok h w =
    close-EndsIn n loop r (found || hit) ok (omega arith)
classed-EndsIn n loop chr found c p cc_wild ok h w = tt

pub bracket_loop-EndsIn :
    (f : ℕ) (ctype : Ctype) (chr : ℕ) (p : Bytes) (found : Bool)
    → length p < f
    → EndsIn (length p) (bracket_loop f ctype chr p found)
unfolding bracket_loop
bracket_loop-EndsIn zero ctype chr p found h = absurd (omega arith)
bracket_loop-EndsIn (suc f) ctype chr [] found h = tt
bracket_loop-EndsIn (suc f) ctype chr (c ∷ p) found h =
    let n = suc (length p) in
    let loop : Loop n (bracket_loop f ctype chr) = λ p' found' h'.
      EndsIn-wider (length p') n (bracket_loop f ctype chr p' found') (omega arith)
        (bracket_loop-EndsIn f ctype chr p' found' (omega arith)) in
    if_split (EndsIn n) (c == b'[')
      (classed-EndsIn n (bracket_loop f ctype chr) chr found c p (ccmatch ctype (c ∷ p) chr) loop
        (omega arith) (ccmatch-Within ctype c p chr))
      (element-EndsIn n (bracket_loop f ctype chr) chr found (getc true (skip_backslash (c ∷ p)))
        loop (skipped-Shorter (c ∷ p) n (omega arith)))
