-- ===== src/Expand/Pmatch.antt =====
-- src/expand.c: pmatch, which matches a pattern against a string, a prefix or a suffix of it, patmatch, and
-- _rmescapes.
pub mod Measure
pub mod Total
pub mod Reference
pub mod Rounds
pub mod Correct
pub mod Edges
use gwsh.Base.{
  ℕ, zero, suc, ◌+◌, ◌*◌, Bool, true, false, not, ◌&&◌, ◌||◌, Option, none, some, [], ◌∷◌, Bytes,
  ◌==◌, if◌then◌else◌, head_byte, tail_bytes, length,
}
use gwsh.Syntax.{is_in_name}
use gwsh.Expand.Bracket.{
  Ctype, ctlesc, Got, got, at_nul, getc, Bracket, closed, no_bracket, bracket_wild, bracket_fuel,
  bracket_loop,
}

-- PM_MATCHMAX, PM_MATCHRIGHT, PM_MATCHLEFT and PM_CTLESC
pub record Flags : Type 0 where
  pub matchmax : Bool
  pub matchright : Bool
  pub matchleft : Bool
  pub pm_ctlesc : Bool

abbrev pub no_pm_flags : Flags
no_pm_flags = record { matchmax = false; matchright = false; matchleft = false; pm_ctlesc = false }

-- ap and aq: the pattern behind the last star, and where it is to match next.
pub record Star : Type 0 where
  pub ap : Bytes
  pub aq : Bytes

-- The local variables of pmatch.
pub record Pointers : Type 0 where
  pub p : Bytes
  pub q : Bytes
  pub s : Bytes
  pub r : Option Bytes
  pub star : Option Star

-- A round of the loop returns, or goes on, or leaves a pointer behind the end of its string.
pub data Step : Type 0 where
  match_is : Option Bytes → Step
  next : Pointers → Step
  wild no_fuel : Step

pub data Found : Type 0 where
  found : Option Bytes → Found
  reads_past_end out_of_fuel : Found

module _ (ctype : Ctype) (pattern : Bytes) (flags : Flags) where
  -- ap == pattern
  abbrev pub is_anchor : Bytes → Bool
  is_anchor ap = length ap == length pattern

  abbrev pub anchored : Option Star → Bool
  anchored none = false
  anchored (some star) = is_anchor star.ap

  -- The last star takes one more character.
  abbrev pub back : Pointers → Bytes → Got → Step
  back k ap at_nul = wild
  back k ap (got c aq) = next (record k {
    p = ap;
    q = aq;
    s = if is_anchor ap then aq else k.s;
    star = some (record { ap = ap; aq = aq });
  })

  abbrev pub retry : Pointers → Bytes → Bytes → Step
  retry k ap [] = match_is k.r
  retry k ap (c ∷ aq) = back k ap (getc flags.pm_ctlesc (c ∷ aq))

  -- What follows the switch, where the characters do not match.
  abbrev pub broken : Pointers → Option Star → Step
  broken k none = match_is k.r
  broken k (some star) = retry k star.ap star.aq

  -- dft2: the character c of the pattern, with the rest of it, against that of the string
  abbrev pub dft2 : Pointers → ℕ → Bytes → Got → Step
  dft2 k c p at_nul = broken k k.star
  dft2 k c p (got chr q) = if chr == c then next (record k { p = p; q = q }) else broken k k.star

  abbrev pub both_end : Pointers → Got → Step
  both_end k at_nul = wild
  both_end k (got chr q) = broken k k.star

  -- dft0
  abbrev pub dft0 : Pointers → Got → Step
  dft0 k at_nul = both_end k (getc flags.pm_ctlesc k.q)
  dft0 k (got c p) = dft2 k c p (getc flags.pm_ctlesc k.q)

  abbrev pub backslash : Pointers → Bytes → Step
  backslash k [] = dft2 k b'\\' [] (getc flags.pm_ctlesc k.q)
  backslash k (c ∷ p) = dft0 k (getc true (c ∷ p))

  abbrev pub any_char : Pointers → Bytes → Got → Step
  any_char k p at_nul = broken k k.star
  any_char k p (got chr q) = next (record k { p = p; q = q })

  abbrev pub is_same : Bool → Bool → Bool
  is_same true b = b
  is_same false b = not b

  abbrev pub bracketed : Pointers → Bytes → Bool → ℕ → Bytes → Bracket → Step
  bracketed k startp invert chr q (closed hit p) =
      if is_same hit invert then broken k k.star else next (record k { p = p; q = q })
  bracketed k startp invert chr q no_bracket = dft2 k b'[' startp (got chr q)
  bracketed k startp invert chr q bracket_wild = wild
  bracketed k startp invert chr q bracket_fuel = no_fuel

  abbrev pub enter_bracket : Pointers → Bytes → Bool → Got → Step
  enter_bracket k startp invert at_nul = broken k k.star
  enter_bracket k startp invert (got chr q) =
      let p = if invert then tail_bytes startp else startp in
      bracketed k startp invert chr q (bracket_loop (suc (length p)) ctype chr p false)

  -- A suffix matches: is there one that starts later?
  abbrev pub restart : Pointers → Got → Step
  restart k at_nul = match_is (some k.s)
  restart k (got c s) = next (record {
    p = pattern;
    q = s;
    s = s;
    r = some k.s;
    star = some (record { ap = pattern; aq = s });
  })

  -- The end of the pattern, where the string ends too or a prefix is enough.
  abbrev pub matched : Pointers → Step
  matched k =
      if not (flags.matchright || flags.matchmax)
      then match_is (some k.q)
      else if flags.matchleft
      then broken (record k { r = some k.q }) k.star
      else if flags.matchmax || anchored k.star
      then match_is (some k.s)
      else restart k (getc flags.pm_ctlesc k.s)

  abbrev pub pattern_end : Pointers → Bytes → Step
  pattern_end k [] = matched k
  pattern_end k (c ∷ q) = if flags.matchleft then matched k else broken k k.star

  -- The switch; `p` is k.p.
  unfoldable pub step : Pointers → Bytes → Step
  unfolding getc bracket_loop
  step k [] = pattern_end k k.q
  step k (c ∷ p) =
      if c == b'\\'
      then backslash k p
      else if c == b'?'
      then any_char k p (getc flags.pm_ctlesc k.q)
      else if c == b'*'
      then next (record k { p = p; star = some (record { ap = p; aq = k.q }) })
      else if c == b'['
      then enter_bracket k p (head_byte p == b'!') (getc flags.pm_ctlesc k.q)
      else dft0 k (getc true (c ∷ p))

  -- The loop; a unit of fuel for each round.
  unfoldable pub rounds : ℕ → Pointers → Found
  unfolding step
  rounds zero k = out_of_fuel
  rounds (suc f) k = elim (step k k.p) [
    | match_is r ↦ found r
    | next k' ↦ rounds f k'
    | wild ↦ reads_past_end
    | no_fuel ↦ out_of_fuel
  ]

  abbrev pub initial_pointers : Bytes → Pointers
  initial_pointers string = record {
    p = pattern;
    q = string;
    s = string;
    r = none;
    star = if flags.matchright then some (record { ap = pattern; aq = string }) else none;
  }

-- The rounds of a match: no more than this.
abbrev pub bound : ℕ → ℕ → ℕ
bound m n = (n * suc n + n) * suc m + m

unfoldable pub pmatch : Ctype → Bytes → Bytes → Flags → Found
unfolding rounds
pmatch ctype pattern string flags =
    rounds ctype pattern flags (suc (bound (length pattern) (length string)))
      (initial_pointers ctype pattern flags string)

-- CTLQUOTEMARK is -120.
abbrev pub ctlquotemark : ℕ
ctlquotemark = 136

-- _rmescapes, the text that it leaves.
unfoldable pub rmescapes : Bool → Bytes → Bytes
unfolding is_in_name
rmescapes glob [] = []
rmescapes glob (c ∷ []) =
    if c == ctlquotemark
    then []
    else if c == ctlesc
    then (if glob then ctlesc ∷ [] else [])
    else c ∷ []
rmescapes glob (c ∷ d ∷ p) =
    let one = rmescapes glob (d ∷ p) in
    let two = rmescapes glob p in
    if c == ctlquotemark
    then one
    else if c == ctlesc
    then (if glob && not (is_in_name d) then ctlesc ∷ d ∷ two else d ∷ two)
    else c ∷ one

unfoldable pub preglob : Bytes → Bytes
unfolding rmescapes
preglob = rmescapes true

-- A read behind the end of the pattern has no answer.
abbrev pub is_match : Found → Option Bool
is_match (found none) = some false
is_match (found (some s)) = some true
is_match _ = none

unfoldable pub patmatch : Ctype → Bytes → Bytes → Option Bool
unfolding pmatch preglob
patmatch ctype pattern string = is_match (pmatch ctype (preglob pattern) string no_pm_flags)
