-- ===== src/Expand/Ifs/Total.antt =====
-- The fuel of the loop over a region is enough.
use gwsh.Base.{
  ℕ, zero, suc, ◌+◌, ◌≤◌, ◌≡◌, refl, Bool, ◌&&◌, Option, none, some, [], Bytes, ◌==◌, ltb,
  if◌then◌else◌, arith, if_split, if_cases,
}
use gwsh.Expand.Bracket.{ctlesc}
use gwsh.Expand.Ifs.{
  IfsRegion, strchr, defifs, byte_at, Breakup, counted, is_zero, classify, break_at, break_char,
  break_region,
}

abbrev StandsAt : ℕ → Breakup → Type 0
StandsAt p b = b.p ≡ p

counted-StandsAt :
    (b : Breakup) (q p : ℕ) (ifsspc : Bool) (m : Option ℕ) → StandsAt p (counted b q p ifsspc m)
counted-StandsAt b q p ifsspc none = refl
counted-StandsAt b q p ifsspc (some n) = if_split (StandsAt p) (n == 1) refl refl

classify-StandsAt :
    (b : Breakup) (nulonly : Bool) (q p : ℕ) (isifs isdefifs : Bool)
    → StandsAt p (classify b nulonly q p isifs isdefifs)
classify-StandsAt b nulonly q p isifs isdefifs =
    let ifsspc = if nulonly then b.ifsspc else isdefifs in
    if_split (StandsAt p) (is_zero b.maxargs) (if_split (StandsAt p) isdefifs refl refl) (
      if_split (StandsAt p) b.ifsspc refl (
        if_split (StandsAt p) isifs
          (if_split (StandsAt p) (q == b.start && ifsspc) refl
            (counted-StandsAt b q p ifsspc b.maxargs))
          refl))

break_char-moves :
    (realifs : Bytes) (nulonly : Bool) (b : Breakup) → b.p + 1 ≤ (break_char realifs nulonly b).p
unfolding break_char
break_char-moves realifs nulonly b =
    if_split (λ (b' : Breakup). b.p + 1 ≤ b'.p) (byte_at b.p b.buf == ctlesc)
      (at (byte_at (b.p + 1) b.buf) (b.p + 2) (omega arith))
      (at (byte_at b.p b.buf) (b.p + 1) (omega arith))
  where
    at : (c p : ℕ) → b.p + 1 ≤ p → b.p + 1 ≤ (break_at realifs nulonly b c p).p
    at c p h =
        let isifs = strchr (if nulonly then [] else realifs) c in
        omega (arith, classify-StandsAt b nulonly b.p p isifs (isifs && strchr defifs c))

-- The loop of ifsbreakup over a region ends at or behind the end of the region.
pub break_region_ends :
    (f : ℕ) (realifs : Bytes) (x : IfsRegion) (b : Breakup)
    → x.endoff ≤ b.p + f
    → x.endoff ≤ (break_region f realifs x b).p
unfolding break_region
break_region_ends zero realifs x b h = omega arith
break_region_ends (suc f) realifs x b h =
    if_cases (λ (b' : Breakup). x.endoff ≤ b'.p) (ltb b.p x.endoff)
      (λ more.
        break_region_ends f realifs x (break_char realifs x.nulonly b)
          (omega (arith, break_char-moves realifs x.nulonly b)))
      (λ done. ground (arith, done))
