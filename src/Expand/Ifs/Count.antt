-- ===== src/Expand/Ifs/Count.antt =====
-- How many arguments ifsbreakup makes.
use gwsh.Base.{
  ℕ, zero, suc, ◌+◌, ◌-◌, ◌≤◌, ◌≡◌, subst, Bool, true, false, ◌&&◌, Option, none, some, List, [],
  ◌∷◌, ◌++◌, Bytes, ◌==◌, ltb, if◌then◌else◌, length, length-append, arith, if_split, if_cases,
}
use gwsh.Expand.Bracket.{ctlesc}
use gwsh.Expand.Ifs.{
  IfsRegion, strchr, defifs, realifs_of, byte_at, cut, Breakup, counted, separator, is_zero,
  classify, break_at, break_char, break_region, break_regions, last_field, ifsbreakup,
}

-- The arguments so far and those that may follow are at most n; one may always follow.
abbrev Room : ℕ → Option ℕ → List ℕ → Type 0
Room n none l = ⊥
Room n (some zero) l = length l + 1 ≤ n
Room n (some (suc m)) l = length l + suc m ≤ n

abbrev Fits : ℕ → Breakup → Type 0
Fits n b = Room n b.maxargs b.arglist

counted-Fits :
    (n : ℕ) (b : Breakup) (q p : ℕ) (ifsspc : Bool) (m : Option ℕ)
    → is_zero m ≡ false
    → Room n m b.arglist
    → Fits n (counted b q p ifsspc m)
counted-Fits n b q p ifsspc none z h = elim h [ ]
counted-Fits n b q p ifsspc (some zero) z h = cc
counted-Fits n b q p ifsspc (some (suc zero)) z h = omega arith
counted-Fits n b q p ifsspc (some (suc (suc m))) z h =
    if_cases (Fits n) (suc (suc m) == 1) (λ e. ground (arith, e))
      (λ e.
        let l : List ℕ = b.arglist ++ (b.start ∷ []) in
        let room : length l + suc m ≤ n = omega (arith, length-append b.arglist (b.start ∷ [])) in
        let less : suc m ≡ suc (suc m) - 1 = omega arith in
        subst (λ z. Room n (some z) l) less room)

separator-Fits :
    (n : ℕ) (b : Breakup) (q p : ℕ) (ifsspc : Bool)
    → is_zero b.maxargs ≡ false
    → Fits n b
    → Fits n (separator b q p ifsspc)
separator-Fits n b q p ifsspc z h =
    if_split (Fits n) (q == b.start && ifsspc) h (counted-Fits n b q p ifsspc b.maxargs z h)

classify-Fits :
    (n : ℕ) (b : Breakup) (nulonly : Bool) (q p : ℕ) (isifs isdefifs : Bool)
    → Fits n b
    → Fits n (classify b nulonly q p isifs isdefifs)
classify-Fits n b nulonly q p isifs isdefifs h =
    if_cases (Fits n) (is_zero b.maxargs) (λ z. if_split (Fits n) isdefifs h h)
      (λ z. if_split (Fits n) b.ifsspc h (
        if_split (Fits n) isifs
          (separator-Fits n b q p (if nulonly then b.ifsspc else isdefifs) z h) h))

break_char-Fits :
    (n : ℕ) (realifs : Bytes) (nulonly : Bool) (b : Breakup)
    → Fits n b
    → Fits n (break_char realifs nulonly b)
unfolding break_char
break_char-Fits n realifs nulonly b h =
    if_split (Fits n) (byte_at b.p b.buf == ctlesc) (at (byte_at (b.p + 1) b.buf) (b.p + 2))
      (at (byte_at b.p b.buf) (b.p + 1))
  where
    at : (c p : ℕ) → Fits n (break_at realifs nulonly b c p)
    at c p =
        let isifs = strchr (if nulonly then [] else realifs) c in
        classify-Fits n b nulonly b.p p isifs (isifs && strchr defifs c) h

break_region-Fits :
    (n f : ℕ) (realifs : Bytes) (x : IfsRegion) (b : Breakup)
    → Fits n b
    → Fits n (break_region f realifs x b)
unfolding break_region
break_region-Fits n zero realifs x b h = h
break_region-Fits n (suc f) realifs x b h =
    if_split (Fits n) (ltb b.p x.endoff)
      (break_region-Fits n f realifs x (break_char realifs x.nulonly b)
        (break_char-Fits n realifs x.nulonly b h))
      h

break_regions-Fits :
    (n : ℕ) (realifs : Bytes) (nulonly : Bool) (xs : List IfsRegion) (b : Breakup)
    → Fits n b
    → Fits n (break_regions realifs nulonly xs b).0
unfolding break_regions
break_regions-Fits n realifs nulonly [] b h = h
break_regions-Fits n realifs nulonly (x ∷ xs) b h =
    break_regions-Fits n realifs x.nulonly xs
      (break_region (x.endoff - x.begoff) realifs x (record b { p = x.begoff; ifsspc = false }))
      (break_region-Fits n (x.endoff - x.begoff) realifs x
        (record b { p = x.begoff; ifsspc = false }) h)

Room-length : (n : ℕ) (m : Option ℕ) (l : List ℕ) → Room n m l → length l + 1 ≤ n
Room-length n none l h = elim h [ ]
Room-length n (some zero) l h = h
Room-length n (some (suc m)) l h = omega arith

last_field-length :
    (n : ℕ) (b : Breakup) (nulonly : Bool) → Fits n b → length (last_field (b, nulonly)).1 ≤ n
last_field-length n b true h =
    omega (arith, length-append b.arglist (b.start ∷ []), Room-length n b.maxargs b.arglist h)
last_field-length n b false h =
    if_split (λ l. length l ≤ n) (byte_at b.start (cut b.r b.buf) == 0)
      (omega (arith, Room-length n b.maxargs b.arglist h))
      (omega (arith, length-append b.arglist (b.start ∷ []), Room-length n b.maxargs b.arglist h))

-- With maxargs, if it is not 0, ifsbreakup makes at most that many arguments, whatever the regions are.
pub ifsbreakup-length :
    (ifs : Option Bytes) (regions : List IfsRegion) (string : Bytes) (m : ℕ)
    → length (ifsbreakup ifs regions string (some (suc m))).1 ≤ suc m
unfolding ifsbreakup
ifsbreakup-length ifs regions string m =
    let b : Breakup = record {
      buf = string;
      p = 0;
      start = 0;
      r = none;
      ifsspc = false;
      maxargs = some (suc m);
      arglist = [];
    } in
    let broken = break_regions (realifs_of ifs) false regions b in
    last_field-length (suc m) broken.0 broken.1
      (break_regions-Fits (suc m) (realifs_of ifs) false regions b (omega arith))
