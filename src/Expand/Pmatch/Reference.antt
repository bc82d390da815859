-- ===== src/Expand/Pmatch/Reference.antt =====
-- What a pattern means: its items, and the strings that they match.
use gwsh.Base.{
  ℕ, suc, ◌≡◌, Bool, true, false, not, ◌&&◌, ◌||◌, List, [], ◌∷◌, Bytes, ◌==◌, if◌then◌else◌,
  head_byte, tail_bytes, length,
}
use gwsh.Expand.Bracket.{
  Ctype, Got, got, at_nul, getc, Bracket, closed, no_bracket, bracket_wild, bracket_fuel,
  bracket_loop,
}

-- A star, or a test of one character.
pub data Item : Type 0 where
  any_text : Item
  one : (ℕ → Bool) → Item

-- The test of the text or of one of its ends.
abbrev pub any_suffix : (Bytes → Bool) → Bytes → Bool
any_suffix f [] = f []
any_suffix f (c ∷ s) = f (c ∷ s) || any_suffix f s

abbrev pub glob : List Item → Bytes → Bool
glob [] [] = true
glob [] (c ∷ s) = false
glob (any_text ∷ is) s = any_suffix (glob is) s
glob (one f ∷ is) [] = false
glob (one f ∷ is) (c ∷ s) = f c && glob is s

-- The first item of a pattern, with the rest of it; its end; or a pattern that ends inside of an item.
pub data Parsed : Type 0 where
  text : Bytes → Parsed
  single : (ℕ → Bool) → Bytes → Parsed
  pattern_ends cut_off : Parsed

abbrev pub is : ℕ → ℕ → Bool
is c chr = chr == c

abbrev pub literal : Got → Parsed
literal at_nul = cut_off
literal (got c p) = single (is c) p

abbrev pub quoted : Bytes → Parsed
quoted [] = single (is b'\\') []
quoted (c ∷ p) = literal (getc true (c ∷ p))

-- Whether a set has the character; ! before it takes the others.
abbrev pub in_set : Bool → Bracket → Bool
in_set true (closed hit p) = not hit
in_set false (closed hit p) = hit
in_set invert _ = false

abbrev pub set_of : Bytes → (ℕ → Bool) → Bracket → Parsed
set_of startp f (closed hit p) = single f p
set_of startp f no_bracket = single (is b'[') startp
set_of startp f bracket_wild = cut_off
set_of startp f bracket_fuel = cut_off

abbrev pub set_from : Ctype → Bytes → Bool → Parsed
set_from ctype startp invert =
    let p = if invert then tail_bytes startp else startp in
    set_of startp (λ chr. in_set invert (bracket_loop (suc (length p)) ctype chr p false))
      (bracket_loop (suc (length p)) ctype 0 p false)

unfoldable pub first_item : Ctype → Bytes → Parsed
unfolding getc bracket_loop
first_item ctype [] = pattern_ends
first_item ctype (c ∷ p) =
    if c == b'\\'
    then quoted p
    else if c == b'?'
    then single (λ chr. true) p
    else if c == b'*'
    then text p
    else if c == b'['
    then set_from ctype p (head_byte p == b'!')
    else literal (getc true (c ∷ p))

-- The pattern is made of these items.
abbrev pub Means : Ctype → Bytes → List Item → Type 0
Means ctype p [] = first_item ctype p ≡ pattern_ends
Means ctype p (any_text ∷ is) = (p' : Bytes) × (first_item ctype p ≡ text p') × Means ctype p' is
Means ctype p (one f ∷ is) = (p' : Bytes) × (first_item ctype p ≡ single f p') × Means ctype p' is
