-- ===== src/Expand/Pmatch/Measure.antt =====
-- What gets smaller in each round of pmatch.
use gwsh.Base.{ℕ, suc, ◌+◌, ◌-◌, ◌*◌, ◌≤◌, ◌<◌, subst, Option, none, some, Bytes, length, arith}
use gwsh.Expand.Pmatch.{Star, Pointers, Step, match_is, next, wild, no_fuel}

-- How much of the string the last star can still take.
abbrev pub limit : Bytes → Option Star → ℕ
limit s none = length s
limit s (some star) = length star.aq

abbrev pub StarWithin : ℕ → Option Star → Type 0
StarWithin m none = Unit
StarWithin m (some star) = length star.ap ≤ m

-- The pointers stand in the pattern, of m bytes, and in the string, of n, and in this order.
abbrev pub Ordered : ℕ → ℕ → Pointers → Type 0
Ordered m n k =
    (length k.p ≤ m)
    × (length k.q ≤ limit k.s k.star)
    × (limit k.s k.star ≤ length k.s)
    × (length k.s ≤ n)
    × StarWithin m k.star

abbrev pub measure : ℕ → ℕ → Pointers → ℕ
measure m n k = (length k.s * suc n + limit k.s k.star) * suc m + length k.p

lower_by : (x d m b b' : ℕ) → b ≤ m → x * suc m + b < (x + suc d) * suc m + b'
lower_by x d m b b' h = omega arith

pub lower : (x y m b b' : ℕ) → x < y → b ≤ m → x * suc m + b < y * suc m + b'
lower x y m b b' h h' =
    subst (λ z. x * suc m + b < z * suc m + b') (omega arith) (lower_by x (y - suc x) m b b' h')

-- Less to match with the same string, or a string that starts later.
pub lower_limit : (s s' l l' n : ℕ) → s ≤ s' → l < l' → s * suc n + l < s' * suc n + l'
lower_limit s s' l l' n h h' =
    subst (λ z. s * suc n + l < z * suc n + l') (omega arith) (more s (s' - s) l l' n h')
  where
    more : (s d l l' n : ℕ) → l < l' → s * suc n + l < (s + d) * suc n + l'
    more s d l l' n h = omega arith

-- A round that goes on makes the measure less than w.
abbrev pub Descends : ℕ → ℕ → ℕ → Step → Type 0
Descends m n w (match_is r) = Unit
Descends m n w (next k) = Ordered m n k × (measure m n k < w)
Descends m n w wild = Unit
Descends m n w no_fuel = ⊥
