-- ===== src/Expand/Pmatch/Total.antt =====
-- pmatch always ends: a round makes the measure smaller by which its fuel is chosen.
use gwsh.Base.{
  ℕ, zero, suc, ◌+◌, ◌*◌, ◌≤◌, ◌<◌, ◌≡◌, ◌≢◌, refl, ap, Bool, true, false, not, ◌||◌, Option, none,
  some, [], ◌∷◌, Bytes, ◌==◌, if◌then◌else◌, head_byte, tail_bytes, length, arith, if_split,
}
use gwsh.Expand.Bracket.{
  Ctype, Got, got, at_nul, getc, Bracket, closed, no_bracket, bracket_wild, bracket_fuel,
  bracket_loop,
}
use gwsh.Expand.Bracket.Total.{
  Shorter, getc-Shorter, EndsIn, bracket_loop-EndsIn, length-tail_bytes, Shorter-wider,
  EndsIn-wider,
}
use gwsh.Expand.Pmatch.{
  Flags, Star, Pointers, Step, match_is, next, wild, no_fuel, Found, found, reads_past_end,
  out_of_fuel, is_anchor, anchored, back, retry, broken, dft2, both_end, dft0, backslash, any_char,
  is_same, bracketed, enter_bracket, restart, matched, pattern_end, step, rounds, initial_pointers,
  bound, pmatch,
}
use gwsh.Expand.Pmatch.Measure.{limit, StarWithin, Ordered, measure, lower, lower_limit, Descends}

module _ (ctype : Ctype) (pattern : Bytes) (flags : Flags) (n : ℕ) where
  abbrev Good : Pointers → Step → Type 0
  Good k = Descends (length pattern) n (measure (length pattern) n k)

  back-Good :
      (k : Pointers) (ap : Bytes) (w : ℕ) (g : Got)
      → length ap ≤ length pattern
      → w ≤ length k.s
      → length k.s ≤ n
      → Shorter w g
      → Descends
          (length pattern)
          n
          ((length k.s * suc n + w) * suc (length pattern) + length k.p)
          (back ctype pattern flags k ap g)
  back-Good k ap w at_nul h hw hs g = tt
  back-Good k ap w (got c aq) h hw hs g =
      let s = if is_anchor ctype pattern flags ap then aq else k.s in
      let low : (length aq ≤ length s) × (length s ≤ length k.s) =
        if_split (λ s. (length aq ≤ length s) × (length s ≤ length k.s))
          (is_anchor ctype pattern flags ap) (omega arith, omega arith)
          (omega arith, omega arith) in
      (
        (h, omega arith, low.0, omega (arith, low.1), h),
        lower (length s * suc n + length aq) (length k.s * suc n + w) (length pattern) (length ap)
            (length k.p) (lower_limit (length s) (length k.s) (length aq) w n low.1 g) h,
      )

  abbrev OrderedAt : Pointers → Option Star → Type 0
  OrderedAt k star =
      (length k.p ≤ length pattern)
      × (length k.q ≤ limit k.s star)
      × (limit k.s star ≤ length k.s)
      × (length k.s ≤ n)
      × StarWithin (length pattern) star

  broken-Good :
      (k : Pointers) (star : Option Star)
      → OrderedAt k star
      → Descends
          (length pattern)
          n
          ((length k.s * suc n + limit k.s star) * suc (length pattern) + length k.p)
          (broken ctype pattern flags k star)
  broken-Good k none h = tt
  broken-Good k (some star) h = retry-Good star.ap star.aq h
    where
      retry-Good :
          (ap aq : Bytes)
          → OrderedAt k (some (record { ap = ap; aq = aq }))
          → Descends
              (length pattern)
              n
              ((length k.s * suc n + length aq) * suc (length pattern) + length k.p)
              (retry ctype pattern flags k ap aq)
      retry-Good ap [] h = tt
      retry-Good ap (c ∷ aq) h =
          back-Good k ap (suc (length aq)) (getc flags.pm_ctlesc (c ∷ aq)) h.4 h.2 h.3
            (getc-Shorter flags.pm_ctlesc (c ∷ aq))

  -- A round that takes a character of the pattern, or more, and none or one of the string.
  consume-Good :
      (k : Pointers) (p q : Bytes)
      → Ordered (length pattern) n k
      → length p < length k.p
      → length q ≤ length k.q
      → Good k (next (record k { p = p; q = q }))
  consume-Good k p q h hp hq =
      ((omega (arith, h.0), omega (arith, h.1), h.2, h.3, h.4), omega arith)

  dft2-Good :
      (k : Pointers) (c : ℕ) (p : Bytes) (g : Got)
      → Ordered (length pattern) n k
      → length p < length k.p
      → Shorter (length k.q) g
      → Good k (dft2 ctype pattern flags k c p g)
  dft2-Good k c p at_nul h hp hq = broken-Good k k.star h
  dft2-Good k c p (got chr q) h hp hq =
      if_split (Good k) (chr == c) (consume-Good k p q h hp (omega arith)) (broken-Good k k.star h)

  both_end-Good :
      (k : Pointers) (g : Got)
      → Ordered (length pattern) n k
      → Good k (both_end ctype pattern flags k g)
  both_end-Good k at_nul h = tt
  both_end-Good k (got chr q) h = broken-Good k k.star h

  dft0-Good :
      (k : Pointers) (g : Got)
      → Ordered (length pattern) n k
      → Shorter (length k.p) g
      → Good k (dft0 ctype pattern flags k g)
  dft0-Good k at_nul h hp = both_end-Good k (getc flags.pm_ctlesc k.q) h
  dft0-Good k (got c p) h hp =
      dft2-Good k c p (getc flags.pm_ctlesc k.q) h hp (getc-Shorter flags.pm_ctlesc k.q)

  backslash-Good :
      (k : Pointers) (p : Bytes)
      → Ordered (length pattern) n k
      → length p < length k.p
      → Good k (backslash ctype pattern flags k p)
  backslash-Good k [] h hp =
      dft2-Good k b'\\' [] (getc flags.pm_ctlesc k.q) h hp (getc-Shorter flags.pm_ctlesc k.q)
  backslash-Good k (c ∷ p) h hp = dft0-Good k (getc true (c ∷ p)) h (
      Shorter-wider (suc (length p)) (length k.p) (getc true (c ∷ p)) (omega arith)
        (getc-Shorter true (c ∷ p)))

  any_char-Good :
      (k : Pointers) (p : Bytes) (g : Got)
      → Ordered (length pattern) n k
      → length p < length k.p
      → Shorter (length k.q) g
      → Good k (any_char ctype pattern flags k p g)
  any_char-Good k p at_nul h hp hq = broken-Good k k.star h
  any_char-Good k p (got chr q) h hp hq = consume-Good k p q h hp (omega arith)

  bracketed-Good :
      (k : Pointers) (startp : Bytes) (invert : Bool) (chr : ℕ) (q : Bytes) (b : Bracket)
      → Ordered (length pattern) n k
      → length startp < length k.p
      → length q < length k.q
      → EndsIn (length startp) b
      → Good k (bracketed ctype pattern flags k startp invert chr q b)
  bracketed-Good k startp invert chr q (closed hit p) h hp hq e =
      if_split (Good k) (is_same ctype pattern flags hit invert) (broken-Good k k.star h)
        (consume-Good k p q h (omega arith) (omega arith))
  bracketed-Good k startp invert chr q no_bracket h hp hq e =
      dft2-Good k b'[' startp (got chr q) h hp hq
  bracketed-Good k startp invert chr q bracket_wild h hp hq e = tt
  bracketed-Good k startp invert chr q bracket_fuel h hp hq e = e

  enter_bracket-Good :
      (k : Pointers) (startp : Bytes) (invert : Bool) (g : Got)
      → Ordered (length pattern) n k
      → length startp < length k.p
      → Shorter (length k.q) g
      → Good k (enter_bracket ctype pattern flags k startp invert g)
  enter_bracket-Good k startp invert at_nul h hp hq = broken-Good k k.star h
  enter_bracket-Good k startp invert (got chr q) h hp hq =
      let p = if invert then tail_bytes startp else startp in
      let within : length p ≤ length startp =
        if_split (λ p. length p ≤ length startp) invert (length-tail_bytes startp) (omega arith) in
      bracketed-Good k startp invert chr q (bracket_loop (suc (length p)) ctype chr p false) h hp hq
        (EndsIn-wider (length p) (length startp) (bracket_loop (suc (length p)) ctype chr p false)
          within (bracket_loop-EndsIn (suc (length p)) ctype chr p false (omega arith)))

  restart-Good :
      (k : Pointers) (g : Got)
      → Ordered (length pattern) n k
      → Shorter (length k.s) g
      → Good k (restart ctype pattern flags k g)
  restart-Good k at_nul h hs = tt
  restart-Good k (got c s) h hs = (
    (omega arith, omega arith, omega arith, omega (arith, h.3), omega arith),
    lower (length s * suc n + length s) (length k.s * suc n + limit k.s k.star) (length pattern)
        (length pattern) (length k.p)
        (lower (length s) (length k.s) n (length s) (limit k.s k.star) hs (omega (arith, h.3)))
        (omega arith),
  )

  matched-Good :
      (k : Pointers) → Ordered (length pattern) n k → Good k (matched ctype pattern flags k)
  matched-Good k h = if_split (Good k) (not (flags.matchright || flags.matchmax)) tt (
      if_split (Good k) flags.matchleft (broken-Good (record k { r = some k.q }) k.star h) (
        if_split (Good k) (flags.matchmax || anchored ctype pattern flags k.star) tt
          (restart-Good k (getc flags.pm_ctlesc k.s) h (getc-Shorter flags.pm_ctlesc k.s))))

  pattern_end-Good :
      (k : Pointers) (q : Bytes)
      → Ordered (length pattern) n k
      → Good k (pattern_end ctype pattern flags k q)
  pattern_end-Good k [] h = matched-Good k h
  pattern_end-Good k (c ∷ q) h =
      if_split (Good k) flags.matchleft (matched-Good k h) (broken-Good k k.star h)

  step-Good :
      (k : Pointers) (p : Bytes)
      → length k.p ≡ length p
      → Ordered (length pattern) n k
      → Good k (step ctype pattern flags k p)
  unfolding step
  step-Good k [] e h = pattern_end-Good k k.q h
  step-Good k (c ∷ p) e h =
      let hp : length p < length k.p = omega arith in
      let hq : Shorter (length k.q) (getc flags.pm_ctlesc k.q) = getc-Shorter flags.pm_ctlesc k.q in
      if_split (Good k) (c == b'\\') (backslash-Good k p h hp) (
        if_split (Good k) (c == b'?') (any_char-Good k p (getc flags.pm_ctlesc k.q) h hp hq) (
          if_split (Good k) (c == b'*')
            (
              (omega (arith, h.0), omega arith, omega (arith, h.1, h.2), h.3, omega (arith, h.0)),
              lower_limit (length k.s * suc n + length k.q) (length k.s * suc n + limit k.s k.star)
                  (length p) (length k.p) (length pattern) (omega (arith, h.1)) hp,
            )
            (if_split (Good k) (c == b'[')
              (enter_bracket-Good k p (head_byte p == b'!') (getc flags.pm_ctlesc k.q) h hp hq)
              (dft0-Good k (getc true (c ∷ p)) h (
                Shorter-wider (suc (length p)) (length k.p) (getc true (c ∷ p)) (omega arith)
                  (getc-Shorter true (c ∷ p)))))))

  -- Fuel for more rounds than the measure is enough.
  rounds-Ends :
      (f : ℕ) (k : Pointers)
      → Ordered (length pattern) n k
      → measure (length pattern) n k < f
      → rounds ctype pattern flags f k ≢ out_of_fuel
  unfolding rounds
  rounds-Ends zero k h hf = absurd (omega arith)
  rounds-Ends (suc f) k h hf =
      after (step ctype pattern flags k k.p) (step-Good k k.p refl h)
        λ k' h' m. rounds-Ends f k' h' (omega arith)
    where
      after :
          (st : Step)
          → Good k st
          → ((k' : Pointers)
              → Ordered (length pattern) n k'
              → measure (length pattern) n k' < measure (length pattern) n k
              → rounds ctype pattern flags f k' ≢ out_of_fuel)
          → (elim st as (λ _. Found) [
            | match_is r ↦ found r
            | next k' ↦ rounds ctype pattern flags f k'
            | wild ↦ reads_past_end
            | no_fuel ↦ out_of_fuel
          ])
            ≢ out_of_fuel
      after (match_is r) g ih = λ e. cc
      after (next k') g ih = ih k' g.0 g.1
      after wild g ih = λ e. cc
      after no_fuel g ih = elim g [ ]

-- pmatch returns, for every pattern, string and flags, or it reads behind the end of one of them: its
-- loop does not go on for ever, and the fuel of the model is enough.
pub pmatch_ends :
    (ctype : Ctype) (pattern string : Bytes) (flags : Flags)
    → pmatch ctype pattern string flags ≢ out_of_fuel
unfolding pmatch
pmatch_ends ctype pattern string flags =
    rounds-Ends ctype pattern flags (length string) (suc (bound (length pattern) (length string)))
      (initial_pointers ctype pattern flags string) (initial_pointers-Ordered flags.matchright)
      (if_split
        (λ star.
          (length string * suc (length string) + limit string star) * suc (length pattern)
            + length pattern
          < suc (bound (length pattern) (length string)))
        flags.matchright (omega arith) (omega arith))
  where
    initial_pointers-Ordered :
        (right : Bool)
        → Ordered (length pattern) (length string) (record {
          p = pattern;
          q = string;
          s = string;
          r = none;
          star = if right then some (record { ap = pattern; aq = string }) else none;
        })
    initial_pointers-Ordered true =
        (omega arith, omega arith, omega arith, omega arith, omega arith)
    initial_pointers-Ordered false = (omega arith, omega arith, omega arith, omega arith, tt)
