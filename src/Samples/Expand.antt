-- ===== src/Samples/Expand.antt =====
-- Sorting of expanded names and patterns, on concrete texts.
use gwsh.Base.{
  ◌≡◌, ◌≢◌, refl, String, List, [], ◌∷◌, Bytes, codes, Bool, true, false, ◌&&◌, Option, some, leb,
  none, ℕ, ◌≤◌, ltb, length, arith,
}
use gwsh.Expand.Ifs.{IfsRegion, recordregion, removerecordregions, ifsbreakup, ifsfields}
use gwsh.Expand.Ifs.Regions.{is_searched, removerecordregions_lem}
use gwsh.Expand.Ifs.Count.{ifsbreakup-length}
use gwsh.Expand.Bracket.{Ctype, isdigit, islower, ctlesc}
use gwsh.Expand.Pmatch.{
  no_pm_flags, found, out_of_fuel, reads_past_end, pmatch, patmatch, rmescapes, ctlquotemark,
}
use gwsh.Expand.Pmatch.Total.{pmatch_ends}
use gwsh.Expand.Pmatch.Reference.{any_text, one, is, Means, first_item}
use gwsh.Expand.Pmatch.Correct.{pmatch-glob}
use gwsh.Expand.Pmatch.Edges.{pmatch_cut_range}
use gwsh.Expand.Sort.{expsort}
use gwsh.Expand.Sort.Sorted.{IsSorted, has, expsort_lem}

abbrev words : List String → List Bytes
words [] = []
words (s ∷ ss) = codes s ∷ words ss

sorted_names : expsort (words ("b" ∷ "ab" ∷ "b" ∷ "a" ∷ "ab" ∷ [])) ≡ words ("a" ∷ "ab" ∷ "b" ∷ [])
unfolding expsort
sorted_names = refl

expsort_example :
    IsSorted (expsort (words ("b" ∷ "a" ∷ "b" ∷ [])))
    × ((z : Bytes)
        → has z (expsort (words ("b" ∷ "a" ∷ "b" ∷ []))) ≡ has z (words ("b" ∷ "a" ∷ "b" ∷ [])))
expsort_example = expsort_lem (words ("b" ∷ "a" ∷ "b" ∷ []))

-- ASCII digits and lower case letters are all that the classes hold.
abbrev ascii : Ctype
ascii isdigit c = leb b'0' c && leb c b'9'
ascii islower c = leb b'a' c && leb c b'z'
ascii _ c = false

abbrev matches : String → String → Option Bool
matches pattern string = patmatch ascii (codes pattern) (codes string)

two_stars : matches "a*b*c" "abxbc" ≡ some true
unfolding patmatch
two_stars = refl

two_stars_no : matches "a*b*c" "abxbd" ≡ some false
unfolding patmatch
two_stars_no = refl

classes_and_ranges : matches "[[:digit:]a-c][!x]" "by" ≡ some true
unfolding patmatch
classes_and_ranges = refl

open_bracket : matches "[ab" "[ab" ≡ some true
unfolding patmatch
open_bracket = refl

-- The longest suffix of abab that a*b matches, as ${x%%a*b} finds it, and the shortest.
longest_suffix :
    pmatch ascii
      (codes "a*b")
      (codes "abab")
      (record no_pm_flags { matchright = true; matchmax = true })
    ≡ found (some (codes "abab"))
unfolding pmatch
longest_suffix = refl

shortest_suffix :
    pmatch ascii (codes "a*b") (codes "abab") (record no_pm_flags { matchright = true })
    ≡ found (some (codes "ab"))
unfolding pmatch
shortest_suffix = refl

longest_prefix :
    pmatch ascii
      (codes "a*b")
      (codes "ababc")
      (record no_pm_flags { matchleft = true; matchmax = true })
    ≡ found (some (codes "c"))
unfolding pmatch
longest_prefix = refl

quotes_removed :
    rmescapes true (ctlesc ∷ b'*' ∷ ctlesc ∷ b'a' ∷ ctlquotemark ∷ []) ≡ ctlesc ∷ b'*' ∷ b'a' ∷ []
unfolding rmescapes
quotes_removed = refl

pmatch_ends_example : pmatch ascii (codes "*a*b") (codes "aaaa") no_pm_flags ≢ out_of_fuel
pmatch_ends_example = pmatch_ends ascii (codes "*a*b") (codes "aaaa") no_pm_flags

star_a_any : Means ascii (codes "*a?") (any_text ∷ one (is b'a') ∷ one (λ chr. true) ∷ [])
unfolding first_item
star_a_any = (codes "a?", refl, (codes "?", refl, ([], refl, refl)))

pmatch-glob_example : pmatch ascii (codes "*a?") (codes "baab") no_pm_flags ≡ found (some [])
pmatch-glob_example =
    pmatch-glob ascii (codes "*a?") (codes "baab")
      (any_text ∷ one (is b'a') ∷ one (λ chr. true) ∷ []) star_a_any

pmatch_cut_range_example : pmatch ascii (codes "[a-") (codes "x") no_pm_flags ≡ reads_past_end
pmatch_cut_range_example = pmatch_cut_range ascii b'a' b'x' [] refl refl refl refl

-- The regions of a text that is one expansion, and of one where only some bytes are.
abbrev whole : String → List IfsRegion
whole s = recordregion 0 (length (codes s)) false []

abbrev split : String → String → List Bytes
split ifs s = ifsfields (some (codes ifs)) (whole s) (codes s) none

split_spaces : split " :" "  ab c : d" ≡ words ("ab" ∷ "c" ∷ "d" ∷ [])
unfolding ifsfields recordregion
split_spaces = refl

split_colons : split ":" "a::b:" ≡ words ("a" ∷ "" ∷ "b" ∷ [])
unfolding ifsfields recordregion
split_colons = refl

-- read x y, of three words
read_two : ifsfields none (whole "a b c  ") (codes "a b c  ") (some 2) ≡ words ("a" ∷ "b c" ∷ [])
unfolding ifsfields recordregion
read_two = refl

abbrev region : ℕ → ℕ → Bool → IfsRegion
region begoff endoff nulonly = record { begoff = begoff; endoff = endoff; nulonly = nulonly }

abbrev two_regions : List IfsRegion
two_regions = region 1 4 false ∷ region 6 9 true ∷ []

removerecordregions_example :
    is_searched 7 true (removerecordregions 8 two_regions)
    ≡ (is_searched 7 true two_regions && ltb 7 8)
removerecordregions_example =
    removerecordregions_lem 8 7 true two_regions
      (omega arith, omega arith, (omega arith, omega arith, tt))

ifsbreakup_example : length (ifsbreakup none (whole "a b c  ") (codes "a b c  ") (some 2)).1 ≤ 2
ifsbreakup_example = ifsbreakup-length none (whole "a b c  ") (codes "a b c  ") 1
