-- ===== src/Expand/Sort/Sorted.antt =====
-- src/expand.c: what expsort gives is sorted, has no name twice, and has the names that were there.
use gwsh.Base.{
  ℕ, zero, suc, ◌-◌, ◌/◌, ◌+◌, ◌≤◌, ◌≡◌, ◌∙◌, ap, refl, Bool, false, ◌||◌, List, [], ◌∷◌, Bytes,
  leb, length, arith, bytes_eq, if_cases, leb→le,
}
use gwsh.Expand.Sort.{
  Order, less, equal, greater, strcmp, merge, merged, take, drop, msort, expsort,
}

strcmp-equal : (x y : Bytes) → strcmp x y ≡ equal → x ≡ y
unfolding strcmp
strcmp-equal [] [] h = refl
strcmp-equal [] (b ∷ t) h = cc
strcmp-equal (a ∷ s) [] h = cc
strcmp-equal (a ∷ s) (b ∷ t) h = ground (arith, strcmp-equal s t)

strcmp-greater : (x y : Bytes) → strcmp x y ≡ greater → strcmp y x ≡ less
unfolding strcmp
strcmp-greater [] [] h = cc
strcmp-greater [] (b ∷ t) h = cc
strcmp-greater (a ∷ s) [] h = refl
strcmp-greater (a ∷ s) (b ∷ t) h = ground (arith, strcmp-greater s t)

strcmp_trans : (x y z : Bytes) → strcmp x y ≡ less → strcmp y z ≡ less → strcmp x z ≡ less
unfolding strcmp
strcmp_trans [] [] z h k = cc
strcmp_trans [] (b ∷ t) [] h k = cc
strcmp_trans [] (b ∷ t) (c ∷ u) h k = refl
strcmp_trans (a ∷ s) [] z h k = cc
strcmp_trans (a ∷ s) (b ∷ t) [] h k = cc
strcmp_trans (a ∷ s) (b ∷ t) (c ∷ u) h k = ground (arith, strcmp_trans s t u)

-- All names of the list are behind x.
abbrev Above : Bytes → List Bytes → Type 0
Above x [] = Unit
Above x (y ∷ l) = (strcmp x y ≡ less) × Above x l

-- Each name is behind all that stand before it.
abbrev pub IsSorted : List Bytes → Type 0
IsSorted [] = Unit
IsSorted (x ∷ l) = Above x l × IsSorted l

-- Whether the name is in the list.
abbrev pub has : Bytes → List Bytes → Bool
has x [] = false
has x (y ∷ l) = bytes_eq x y || has x l

Above-less : (x y : Bytes) (l : List Bytes) → strcmp x y ≡ less → Above y l → Above x l
Above-less x y [] h a = tt
Above-less x y (z ∷ l) h a = (strcmp_trans x y z h a.0, Above-less x y l h a.1)

merge-Above : (f : ℕ) (z : Bytes) (p q : List Bytes) → Above z p → Above z q → Above z (merge f p q)
unfolding merge
merge-Above zero z p q hp hq = hq
merge-Above (suc f) z [] q hp hq = hq
merge-Above (suc f) z (x ∷ p) [] hp hq = hp
merge-Above (suc f) z (x ∷ p) (y ∷ q) hp hq =
    let left = merge-Above f z p (y ∷ q) hp.1 hq in
    let right = merge-Above f z q (x ∷ p) hq.1 hp in
    elim (strcmp x y)
      as (λ o. Above z (elim o [
        | less ↦ x ∷ merge f p (y ∷ q)
        | equal ↦ merge f p (y ∷ q)
        | greater ↦ y ∷ merge f q (x ∷ p)
      ])) [ less ↦ (hp.0, left) | equal ↦ left | greater ↦ (hq.0, right) ]

-- A round of the merge, by what the comparison says.
abbrev round : Bytes → Bytes → List Bytes → List Bytes → Order → List Bytes
round x y left right less = x ∷ left
round x y left right equal = left
round x y left right greater = y ∷ right

round-IsSorted :
    (x y : Bytes) (p q left right : List Bytes) (o : Order)
    → strcmp x y ≡ o
    → Above x p
    → Above y q
    → IsSorted left
    → IsSorted right
    → (Above x p → Above x (y ∷ q) → Above x left)
    → (Above y q → Above y (x ∷ p) → Above y right)
    → IsSorted (round x y left right o)
round-IsSorted x y p q left right less e hp hq sl sr al ar = (al hp (e, Above-less x y q e hq), sl)
round-IsSorted x y p q left right equal e hp hq sl sr al ar = sl
round-IsSorted x y p q left right greater e hp hq sl sr al ar =
    let e' = strcmp-greater x y e in (ar hq (e', Above-less y x p e' hp), sr)

merge-IsSorted : (f : ℕ) (p q : List Bytes) → IsSorted p → IsSorted q → IsSorted (merge f p q)
unfolding merge
merge-IsSorted zero p q hp hq = hq
merge-IsSorted (suc f) [] q hp hq = hq
merge-IsSorted (suc f) (x ∷ p) [] hp hq = hp
merge-IsSorted (suc f) (x ∷ p) (y ∷ q) hp hq =
    round-IsSorted x y p q (merge f p (y ∷ q)) (merge f q (x ∷ p)) (strcmp x y) refl hp.0 hq.0
      (merge-IsSorted f p (y ∷ q) hp.1 hq) (merge-IsSorted f q (x ∷ p) hq.1 hp)
      (merge-Above f x p (y ∷ q)) (merge-Above f y q (x ∷ p))

has-round :
    (z x y : Bytes) (p q left right : List Bytes) (o : Order)
    → strcmp x y ≡ o
    → has z left ≡ (has z p || has z (y ∷ q))
    → has z right ≡ (has z q || has z (x ∷ p))
    → has z (round x y left right o) ≡ (has z (x ∷ p) || has z (y ∷ q))
has-round z x y p q left right less e hl hr = ground (arith, hl)
has-round z x y p q left right equal e hl hr =
    ground (arith, hl, ap (bytes_eq z) (strcmp-equal x y e))
has-round z x y p q left right greater e hl hr = ground (arith, hr)

has-merge :
    (f : ℕ) (z : Bytes) (p q : List Bytes)
    → length p + length q ≤ f
    → has z (merge f p q) ≡ (has z p || has z q)
unfolding merge
has-merge zero z [] q h = refl
has-merge zero z (x ∷ p) q h = absurd (omega arith)
has-merge (suc f) z [] q h = refl
has-merge (suc f) z (x ∷ p) [] h = ground arith
has-merge (suc f) z (x ∷ p) (y ∷ q) h =
    has-round z x y p q (merge f p (y ∷ q)) (merge f q (x ∷ p)) (strcmp x y) refl
      (has-merge f z p (y ∷ q) (omega arith)) (has-merge f z q (x ∷ p) (omega arith))

has-split : (z : Bytes) (n : ℕ) (l : List Bytes) → (has z (take n l) || has z (drop n l)) ≡ has z l
has-split z zero l = refl
has-split z (suc n) [] = refl
has-split z (suc n) (x ∷ l) = ground (arith, has-split z n l)

length-take : (n : ℕ) (l : List Bytes) → n ≤ length l → length (take n l) ≡ n
length-take zero l h = refl
length-take (suc n) [] h = absurd (omega arith)
length-take (suc n) (x ∷ l) h = omega (arith, length-take n l (omega arith))

length-drop : (n : ℕ) (l : List Bytes) → length (drop n l) ≡ length l - n
length-drop zero l = omega arith
length-drop (suc n) [] = omega arith
length-drop (suc n) (x ∷ l) = omega (arith, length-drop n l)

short-IsSorted : (l : List Bytes) → length l ≤ 1 → IsSorted l
short-IsSorted [] h = tt
short-IsSorted (x ∷ []) h = (tt, tt)
short-IsSorted (x ∷ y ∷ l) h = absurd (omega arith)

-- Sorted, with the names of another list.
abbrev SortOf : List Bytes → List Bytes → Type 0
SortOf list l = IsSorted l × ((z : Bytes) → has z l ≡ has z list)

merged-SortOf :
    (list q p : List Bytes) (n : ℕ)
    → SortOf (take n list) q
    → SortOf (drop n list) p
    → SortOf list (merged p q)
merged-SortOf list q p n hq hp = (
  merge-IsSorted (length p + length q) p q hp.0 hq.0,
  λ z.
      has-merge (length p + length q) z p q (omega arith)
      ∙ ground (arith, hp.1 z, hq.1 z, has-split z n list),
)

msort-SortOf :
    (f : ℕ) (list : List Bytes) (len : ℕ)
    → length list ≡ len
    → len ≤ f
    → SortOf list (msort f list len)
unfolding msort
msort-SortOf zero list len e h = (short-IsSorted list (omega arith), λ z. refl)
msort-SortOf (suc f) list len e h =
    if_cases (SortOf list) (leb len 1)
      (λ short. (short-IsSorted list (omega (arith, leb→le len 1 short)), λ z. refl))
      (λ long.
        let two : 2 ≤ len = ground arith in
        merged-SortOf list (msort f (take (len / 2) list) (len / 2))
          (msort f (drop (len / 2) list) (len - len / 2)) (len / 2)
          (msort-SortOf f (take (len / 2) list) (len / 2) (length-take (len / 2) list (omega arith))
            (omega arith))
          (msort-SortOf f (drop (len / 2) list) (len - len / 2)
            (omega (arith, length-drop (len / 2) list)) (omega arith)))

-- expsort gives the names that it is given, each once, every name behind those that strcmp puts
-- before it.
pub expsort_lem :
    (str : List Bytes) → IsSorted (expsort str) × ((z : Bytes) → has z (expsort str) ≡ has z str)
unfolding expsort
expsort_lem str = msort-SortOf (length str) str (length str) refl (omega arith)
