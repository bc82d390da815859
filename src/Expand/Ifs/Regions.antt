-- ===== src/Expand/Ifs/Regions.antt =====
-- Which bytes the regions cover, after one is recorded and after they are cut off at an offset.
use gwsh.Base.{ℕ, ◌≤◌, ◌≡◌, refl, Bool, true, false, ◌&&◌, ◌||◌, List, [], ◌∷◌, ltb, leb, arith}
use gwsh.Expand.Ifs.{IfsRegion, same_flag, recordregion, keep_regions, removerecordregions}

-- The byte at i is searched, for NULs only or for all separators.
abbrev pub is_searched : ℕ → Bool → List IfsRegion → Bool
is_searched i nulonly [] = false
is_searched i nulonly (x ∷ xs) =
    leb x.begoff i && ltb i x.endoff && same_flag x.nulonly nulonly || is_searched i nulonly xs

-- The regions stand one behind the other, from an offset on.
abbrev pub IsSortedFrom : ℕ → List IfsRegion → Type 0
IsSortedFrom n [] = Unit
IsSortedFrom n (x ∷ xs) = (n ≤ x.begoff) × (x.begoff ≤ x.endoff) × IsSortedFrom x.endoff xs

not_before :
    (i n : ℕ) (nulonly : Bool) (xs : List IfsRegion)
    → IsSortedFrom n xs
    → ltb i n ≡ true
    → is_searched i nulonly xs ≡ false
not_before i n nulonly [] s h = refl
not_before i n nulonly (x ∷ xs) (a, b, s) h = ground (arith, not_before i (x.endoff) nulonly xs s)

keep_regions-searched :
    (e i n : ℕ) (nulonly : Bool) (x : IfsRegion) (xs : List IfsRegion)
    → IsSortedFrom n (x ∷ xs)
    → x.begoff ≤ e
    → is_searched i nulonly (keep_regions e x xs) ≡ (is_searched i nulonly (x ∷ xs) && ltb i e)
unfolding keep_regions
keep_regions-searched e i n nulonly x [] (a, b, s) h = ground arith
keep_regions-searched e i n nulonly x (y ∷ ys) (a, b, (c, d, s)) h = ground (
  arith,
  keep_regions-searched e i (x.endoff) nulonly y ys (c, d, s),
  not_before i (y.endoff) nulonly ys s,
)

-- After removerecordregions, of regions in order, the bytes before endoff are searched as they were, and
-- none behind it is.
pub removerecordregions_lem :
    (endoff i : ℕ) (nulonly : Bool) (xs : List IfsRegion)
    → IsSortedFrom 0 xs
    → is_searched i nulonly (removerecordregions endoff xs)
      ≡ (is_searched i nulonly xs && ltb i endoff)
unfolding removerecordregions
removerecordregions_lem endoff i nulonly [] s = refl
removerecordregions_lem endoff i nulonly (x ∷ xs) (a, b, s) = ground (
  arith,
  keep_regions-searched endoff i 0 nulonly x xs (a, b, s),
  not_before i (x.endoff) nulonly xs s,
)

-- recordregion, of a region that does not end before it begins: its bytes are searched as it says,
-- besides what was searched before, also where the region is joined with the last one.
pub recordregion_lem :
    (start end i : ℕ) (flag nulonly : Bool) (n : ℕ) (xs : List IfsRegion)
    → IsSortedFrom n xs
    → start ≤ end
    → is_searched i nulonly (recordregion start end flag xs)
      ≡ (is_searched i nulonly xs || leb start i && ltb i end && same_flag flag nulonly)
unfolding recordregion
recordregion_lem start end i flag nulonly n [] s h = ground arith
recordregion_lem start end i flag nulonly n (x ∷ []) (a, b, s) h = ground arith
recordregion_lem start end i flag nulonly n (x ∷ y ∷ xs) (a, b, s) h =
    ground (arith, recordregion_lem start end i flag nulonly (x.endoff) (y ∷ xs) s h)
