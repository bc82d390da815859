-- ===== src/Expand/Ifs.antt =====
-- src/expand.c: the regions of the expanded string that are searched for IFS characters, and ifsbreakup,
-- without WITH_LOCALE. The string is an array of bytes, which may hold NULs, and a pointer into it is an
-- offset; past the end of the array it holds NULs.
pub mod Regions
pub mod Count
pub mod Total
use gwsh.Base.{
  ℕ, zero, suc, ◌+◌, ◌-◌, Bool, true, false, not, ◌&&◌, ◌||◌, Option, none, some, List, [], ◌∷◌,
  ◌++◌, Bytes, ◌==◌, ltb, if◌then◌else◌, length,
}
use gwsh.Expand.Bracket.{ctlesc}

pub record IfsRegion : Type 0 where
  pub begoff : ℕ
  pub endoff : ℕ
  pub nulonly : Bool

abbrev pub same_flag : Bool → Bool → Bool
same_flag true b = b
same_flag false b = not b

-- The list from ifsfirst to ifslastp; it is empty where ifslastp is NULL.
unfoldable pub recordregion : ℕ → ℕ → Bool → List IfsRegion → List IfsRegion
recordregion start end nulonly [] = record { begoff = start; endoff = end; nulonly = nulonly } ∷ []
recordregion start end nulonly (x ∷ []) =
    if x.endoff == start && same_flag x.nulonly nulonly
    then record x { endoff = end } ∷ []
    else x ∷ record { begoff = start; endoff = end; nulonly = nulonly } ∷ []
recordregion start end nulonly (x ∷ y ∷ xs) = x ∷ recordregion start end nulonly (y ∷ xs)

abbrev pub clip : ℕ → IfsRegion → IfsRegion
clip endoff x = record x { endoff = if ltb endoff x.endoff then endoff else x.endoff }

-- The regions that begin before endoff, from one that is kept on.
unfoldable pub keep_regions : ℕ → IfsRegion → List IfsRegion → List IfsRegion
keep_regions endoff x [] = clip endoff x ∷ []
keep_regions endoff x (y ∷ ys) =
    let rest = keep_regions endoff y ys in
    if ltb y.begoff endoff then x ∷ rest else clip endoff x ∷ []

unfoldable pub removerecordregions : ℕ → List IfsRegion → List IfsRegion
unfolding keep_regions
removerecordregions endoff [] = []
removerecordregions endoff (x ∷ xs) =
    if ltb endoff x.endoff
    then (if ltb endoff x.begoff then [] else record x { endoff = endoff } ∷ [])
    else keep_regions endoff x xs

abbrev pub byte_at : ℕ → Bytes → ℕ
byte_at i [] = 0
byte_at zero (c ∷ s) = c
byte_at (suc i) (c ∷ s) = byte_at i s

abbrev pub put_nul : ℕ → Bytes → Bytes
put_nul i [] = []
put_nul zero (c ∷ s) = 0 ∷ s
put_nul (suc i) (c ∷ s) = c ∷ put_nul i s

-- The C string at an offset.
abbrev pub until_nul : Bytes → Bytes
until_nul [] = []
until_nul (c ∷ s) = let rest = until_nul s in if c == 0 then [] else c ∷ rest

abbrev pub text_at : Bytes → ℕ → Bytes
text_at [] i = []
text_at (c ∷ s) zero = until_nul (c ∷ s)
text_at (c ∷ s) (suc i) = text_at s i

abbrev pub defifs : Bytes
defifs = b' ' ∷ b'\t' ∷ b'\n' ∷ []

-- ifsset() ? ifsval() : defifs
abbrev pub realifs_of : Option Bytes → Bytes
realifs_of none = defifs
realifs_of (some ifs) = ifs

abbrev pub member : ℕ → Bytes → Bool
member c [] = false
member c (d ∷ s) = c == d || member c s

-- strchr, which also finds the NUL
abbrev pub strchr : Bytes → ℕ → Bool
strchr s c = c == 0 || member c s

-- The local variables of ifsbreakup and the buffer; maxargs is `none` where it is negative. The texts
-- of the argument list are known by their offsets.
pub record Breakup : Type 0 where
  pub buf : Bytes
  pub p : ℕ
  pub start : ℕ
  pub r : Option ℕ
  pub ifsspc : Bool
  pub maxargs : Option ℕ
  pub arglist : List ℕ

abbrev pub or_here : Option ℕ → ℕ → Option ℕ
or_here none q = some q
or_here (some r) q = some r

-- maxargs is 0: what is left belongs to the last argument. `p` is behind the character at `q`.
abbrev pub last_arg : Breakup → ℕ → ℕ → Bool → Bool → Breakup
last_arg b q p isifs isdefifs =
    if isdefifs
    then record b { p = p; r = or_here b.r q }
    else record b { p = p; r = if isifs && b.ifsspc then b.r else none; ifsspc = false }

-- Behind IFS white space that ended an argument.
abbrev pub after_space : Breakup → ℕ → ℕ → Bool → Bool → Breakup
after_space b q p isifs isdefifs = record b {
  p = p;
  start = if isifs then p else q;
  ifsspc = isdefifs;
}

abbrev pub end_arg : Breakup → ℕ → ℕ → Bool → Option ℕ → Breakup
end_arg b q p ifsspc maxargs = record b {
  buf = put_nul q b.buf;
  p = p;
  start = p;
  ifsspc = ifsspc;
  maxargs = maxargs;
  arglist = b.arglist ++ (b.start ∷ []);
}

-- maxargs > 0 && !--maxargs
abbrev pub counted : Breakup → ℕ → ℕ → Bool → Option ℕ → Breakup
counted b q p ifsspc none = end_arg b q p ifsspc none
counted b q p ifsspc (some n) =
    if n == 1
    then record b { p = p; r = some q; ifsspc = ifsspc; maxargs = some 0 }
    else end_arg b q p ifsspc (some (n - 1))

abbrev pub separator : Breakup → ℕ → ℕ → Bool → Breakup
separator b q p ifsspc =
    if q == b.start && ifsspc
    then record b { p = p; start = p; ifsspc = false }
    else counted b q p ifsspc b.maxargs

abbrev pub is_zero : Option ℕ → Bool
is_zero (some zero) = true
is_zero _ = false

abbrev pub classify : Breakup → Bool → ℕ → ℕ → Bool → Bool → Breakup
classify b nulonly q p isifs isdefifs =
    if is_zero b.maxargs
    then last_arg b q p isifs isdefifs
    else if b.ifsspc
    then after_space b q p isifs isdefifs
    else if isifs
    then separator b q p (if nulonly then b.ifsspc else isdefifs)
    else record b { p = p; ifsspc = false }

-- One round of the inner loop, with the character `c`; `p` is behind it.
abbrev pub break_at : Bytes → Bool → Breakup → ℕ → ℕ → Breakup
break_at realifs nulonly b c p =
    let isifs = strchr (if nulonly then [] else realifs) c in
    classify b nulonly b.p p isifs (isifs && strchr defifs c)

unfoldable pub break_char : Bytes → Bool → Breakup → Breakup
break_char realifs nulonly b =
    let c = byte_at b.p b.buf in
    if c == ctlesc
    then break_at realifs nulonly b (byte_at (b.p + 1) b.buf) (b.p + 2)
    else break_at realifs nulonly b c (b.p + 1)

-- while (p < string + ifsp->endoff)
unfoldable pub break_region : ℕ → Bytes → IfsRegion → Breakup → Breakup
unfolding break_char
break_region zero realifs x b = b
break_region (suc f) realifs x b =
    let rest = break_region f realifs x (break_char realifs x.nulonly b) in
    if ltb b.p x.endoff then rest else b

-- The regions, and whether the last one is searched for NULs only.
unfoldable pub break_regions : Bytes → Bool → List IfsRegion → Breakup → Breakup × Bool
unfolding break_region
break_regions realifs nulonly [] b = (b, nulonly)
break_regions realifs nulonly (x ∷ xs) b =
    break_regions realifs x.nulonly xs
      (break_region (x.endoff - x.begoff) realifs x (record b { p = x.begoff; ifsspc = false }))

abbrev pub cut : Option ℕ → Bytes → Bytes
cut none buf = buf
cut (some r) buf = put_nul r buf

-- Behind the loop: the last argument.
abbrev pub last_field : Breakup × Bool → Bytes × List ℕ
last_field (b, true) = (b.buf, b.arglist ++ (b.start ∷ []))
last_field (b, false) =
    let buf = cut b.r b.buf in
    (buf, if byte_at b.start buf == 0 then b.arglist else b.arglist ++ (b.start ∷ []))

abbrev pub texts : Bytes → List ℕ → List Bytes
texts buf [] = []
texts buf (i ∷ is) = text_at buf i ∷ texts buf is

unfoldable pub ifsbreakup : Option Bytes → List IfsRegion → Bytes → Option ℕ → Bytes × List ℕ
unfolding break_regions
ifsbreakup ifs regions string maxargs = last_field (
    break_regions (realifs_of ifs) false regions (record {
      buf = string;
      p = 0;
      start = 0;
      r = none;
      ifsspc = false;
      maxargs = maxargs;
      arglist = [];
    }))

-- The texts of the arguments.
unfoldable pub ifsfields : Option Bytes → List IfsRegion → Bytes → Option ℕ → List Bytes
unfolding ifsbreakup
ifsfields ifs regions string maxargs =
    let broken = ifsbreakup ifs regions string maxargs in texts broken.0 broken.1
