-- ===== src/Expand/Bracket/Ends.antt =====
-- Where a bracket expression ends does not depend on the character that is looked for.
use gwsh.Base.{
  ℕ, zero, suc, ◌≡◌, refl, subst, Bool, true, false, not, ◌&&◌, ◌||◌, Option, none, some, List, [],
  ◌∷◌, Bytes, ◌==◌, if◌then◌else◌, head_byte, tail_bytes,
}
use gwsh.MyString.{prefix}
use gwsh.Expand.Bracket.{
  Ctype, Got, got, at_nul, getc, Class, classes, Cc, cc, cc_wild, class_end, class_hit, find_class,
  ccmatch, Bracket, closed, no_bracket, bracket_wild, bracket_fuel, close, skip_backslash,
  is_in_range, range_end, element, classed, bracket_loop,
}

-- A relation between the results of two conditionals with one test.
pub if_split_both {ℓ κ} :
    {A : Type ℓ} {B : Type ℓ} (P : A → B → Type κ) (b : Bool) {x y : A} {x' y' : B}
    → P x x'
    → P y y'
    → P (if b then x else y) (if b then x' else y')
if_split_both P true hx hy = hx
if_split_both P false hx hy = hy

-- The result without the answer.
abbrev pub end_of : Bracket → Bracket
end_of (closed hit p) = closed true p
end_of no_bracket = no_bracket
end_of bracket_wild = bracket_wild
end_of bracket_fuel = bracket_fuel

abbrev Same : Bracket → Bracket → Type 0
Same b b' = end_of b ≡ end_of b'

abbrev SameCc : Cc → Cc → Type 0
SameCc (cc hit none) (cc hit' none) = Unit
SameCc (cc hit (some q)) (cc hit' (some q')) = q ≡ q'
SameCc cc_wild cc_wild = Unit
SameCc _ _ = ⊥

SameCc-refl : (r : Cc) → SameCc r r
SameCc-refl (cc hit none) = tt
SameCc-refl (cc hit (some q)) = refl
SameCc-refl cc_wild = tt

class_hit-SameCc :
    (hit hit' : Bool) (o : Option Bytes) (rest rest' : Cc)
    → SameCc rest rest'
    → SameCc (class_hit hit o rest) (class_hit hit' o rest')
class_hit-SameCc hit hit' none rest rest' h = h
class_hit-SameCc hit hit' (some q) rest rest' h = refl

find_class-SameCc :
    (ctype : Ctype) (ks : List Class) (p : Bytes) (chr chr' : ℕ)
    → SameCc (find_class ctype ks p chr) (find_class ctype ks p chr')
unfolding find_class
find_class-SameCc ctype [] p chr chr' = SameCc-refl (class_end p)
find_class-SameCc ctype (k ∷ ks) p chr chr' =
    class_hit-SameCc (ctype k.fn chr) (ctype k.fn chr') (prefix p k.name)
      (find_class ctype ks p chr) (find_class ctype ks p chr')
      (find_class-SameCc ctype ks p chr chr')

ccmatch-SameCc :
    (ctype : Ctype) (p : Bytes) (chr chr' : ℕ) → SameCc (ccmatch ctype p chr) (ccmatch ctype p chr')
unfolding ccmatch
ccmatch-SameCc ctype p chr chr' =
    if_split_both SameCc (head_byte (tail_bytes p) == b':')
      (find_class-SameCc ctype classes (tail_bytes (tail_bytes p)) chr chr') tt

abbrev SameLoop : (Bytes → Bool → Bracket) → (Bytes → Bool → Bracket) → Type 0
SameLoop loop loop' = (p : Bytes) (found found' : Bool) → Same (loop p found) (loop' p found')

module _ (loop loop' : Bytes → Bool → Bracket) (same : SameLoop loop loop') where
  close-Same : (p : Bytes) (found found' : Bool) → Same (close loop p found) (close loop' p found')
  close-Same p found found' = if_split_both Same (head_byte p == b']') refl (same p found found')

  range_end-Same :
      (chr chr' c : ℕ) (found found' : Bool) (g : Got)
      → Same (range_end loop chr c found g) (range_end loop' chr' c found' g)
  range_end-Same chr chr' c found found' at_nul = refl
  range_end-Same chr chr' c found found' (got c2 p) =
      close-Same p (found || is_in_range c chr c2) (found' || is_in_range c chr' c2)

  element-Same :
      (chr chr' : ℕ) (found found' : Bool) (g : Got)
      → Same (element loop chr found g) (element loop' chr' found' g)
  element-Same chr chr' found found' at_nul = refl
  element-Same chr chr' found found' (got c p) =
      if_split_both Same (head_byte p == b'-' && not (head_byte (tail_bytes p) == b']'))
        (range_end-Same chr chr' c found found' (getc true (skip_backslash (tail_bytes p))))
        (close-Same p (found || chr == c) (found' || chr' == c))

  classed-Same :
      (chr chr' : ℕ) (found found' : Bool) (p : Bytes) (r r' : Cc)
      → SameCc r r'
      → Same (classed loop chr found p r) (classed loop' chr' found' p r')
  classed-Same chr chr' found found' p (cc hit none) (cc hit' none) h =
      element-Same chr chr' (found || hit) (found' || hit') (getc true (skip_backslash p))
  classed-Same chr chr' found found' p (cc hit (some q)) (cc hit' (some q')) h =
      subst (λ z. Same (close loop q (found || hit)) (close loop' z (found' || hit'))) h
        (close-Same q (found || hit) (found' || hit'))
  classed-Same chr chr' found found' p (cc hit none) (cc hit' (some q')) h = elim h [ ]
  classed-Same chr chr' found found' p (cc hit (some q)) (cc hit' none) h = elim h [ ]
  classed-Same chr chr' found found' p cc_wild cc_wild h = refl
  classed-Same chr chr' found found' p (cc hit none) cc_wild h = elim h [ ]
  classed-Same chr chr' found found' p (cc hit (some q)) cc_wild h = elim h [ ]
  classed-Same chr chr' found found' p cc_wild (cc hit' none) h = elim h [ ]
  classed-Same chr chr' found found' p cc_wild (cc hit' (some q')) h = elim h [ ]

pub bracket_loop-Same :
    (f : ℕ) (ctype : Ctype) (chr chr' : ℕ) (p : Bytes) (found found' : Bool)
    → end_of (bracket_loop f ctype chr p found) ≡ end_of (bracket_loop f ctype chr' p found')
unfolding bracket_loop
bracket_loop-Same zero ctype chr chr' p found found' = refl
bracket_loop-Same (suc f) ctype chr chr' [] found found' = refl
bracket_loop-Same (suc f) ctype chr chr' (c ∷ p) found found' =
    let same : SameLoop (bracket_loop f ctype chr) (bracket_loop f ctype chr') =
      λ p' b b'. bracket_loop-Same f ctype chr chr' p' b b' in
    if_split_both Same (c == b'[')
      (classed-Same (bracket_loop f ctype chr) (bracket_loop f ctype chr') same chr chr' found
        found' (c ∷ p) (ccmatch ctype (c ∷ p) chr) (ccmatch ctype (c ∷ p) chr')
        (ccmatch-SameCc ctype (c ∷ p) chr chr'))
      (element-Same (bracket_loop f ctype chr) (bracket_loop f ctype chr') same chr chr' found
        found' (getc true (skip_backslash (c ∷ p))))
