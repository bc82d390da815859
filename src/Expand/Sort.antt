-- ===== src/Expand/Sort.antt =====
-- src/expand.c: expsort and msort, which sort the names that a pattern expands to and drop those that
-- are there twice, without WITH_LOCALE.
pub mod Sorted
use gwsh.Base.{
  ℕ, zero, suc, ◌-◌, ◌/◌, ◌+◌, Bool, true, false, ◌&&◌, not, List, [], ◌∷◌, Bytes, ◌==◌, ltb, leb,
  if◌then◌else◌, length,
}

-- strcmp(s, t) < 0 and == 0
pub data Order : Type 0 where
  less equal greater : Order

unfoldable pub strcmp : Bytes → Bytes → Order
strcmp [] [] = equal
strcmp [] (b ∷ t) = less
strcmp (a ∷ s) [] = greater
strcmp (a ∷ s) (b ∷ t) =
    let rest = strcmp s t in if ltb a b then less else if ltb b a then greater else rest

-- The loop of msort, from a comparison on. p and q are not empty; a unit of fuel for each round.
unfoldable pub merge : ℕ → List Bytes → List Bytes → List Bytes
unfolding strcmp
merge zero p q = q
merge (suc f) [] q = q
merge (suc f) (x ∷ p) [] = x ∷ p
merge (suc f) (x ∷ p) (y ∷ q) =
    let left : List Bytes = merge f p (y ∷ q) in
    let right : List Bytes = merge f q (x ∷ p) in
    elim (strcmp x y) [ less ↦ x ∷ left | equal ↦ left | greater ↦ y ∷ right ]

abbrev pub take : ℕ → List Bytes → List Bytes
take zero l = []
take (suc n) [] = []
take (suc n) (x ∷ l) = x ∷ take n l

abbrev pub drop : ℕ → List Bytes → List Bytes
drop zero l = l
drop (suc n) [] = []
drop (suc n) (x ∷ l) = drop n l

abbrev pub merged : List Bytes → List Bytes → List Bytes
merged p q = merge (length p + length q) p q

-- One unit of fuel for each call.
unfoldable pub msort : ℕ → List Bytes → ℕ → List Bytes
unfolding merge
msort zero list len = list
msort (suc f) list len =
    let half = len / 2 in
    let q = msort f (take half list) half in
    let p = msort f (drop half list) (len - half) in if leb len 1 then list else merged p q

unfoldable pub expsort : List Bytes → List Bytes
unfolding msort
expsort str = msort (length str) str (length str)
