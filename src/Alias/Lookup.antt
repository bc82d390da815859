-- ===== src/Alias/Lookup.antt =====
-- What lookups find after each operation on the aliases.
use gwsh.Base.{
  ℕ, ◌%◌, ◌≡◌, refl, ap, true, false, Option, none, some, List, [], ◌∷◌, Bytes, if◌then◌else◌,
  arith,
}
use gwsh.Var.Name.{varequal, varequal-hashval, varequal-subst, varequal-agree}
use gwsh.Alias.{
  Alias, Aliases, bucket, at_alias, find_alias, put_alias, setalias, freealias, unalias,
  unalias_status, free_all, rmaliases, find,
}

-- The alias that setalias leaves.
abbrev pub put : Bytes → ℕ → Option Alias → Alias
put name namelen none = record { name = name; val = namelen; in_use = false; dead = false }
put name namelen (some a) = record a { name = name; val = namelen; dead = false }

pub find_alias-put :
    (m name : Bytes) (namelen : ℕ) (aps : List Alias)
    → find_alias m (at_alias name (put_alias name namelen) aps) ≡ (
        if varequal m name then some (put name namelen (find_alias name aps)) else find_alias m aps)
unfolding find_alias at_alias
find_alias-put m name namelen [] = ground arith
find_alias-put m name namelen (a ∷ aps) = ground (
  arith,
  find_alias-put m name namelen aps,
  varequal-subst m name (a.name),
  varequal-agree m name (a.name),
)

-- Names that are equal have the same chain.
pub same_bucket : (m n : Bytes) → varequal m n ≡ true → bucket m ≡ bucket n
same_bucket m n h = ap (λ i. i % 39) (varequal-hashval m n h)

-- After setalias a lookup of that name, or of one that is equal up to its `=`, finds the new text, with
-- the mark of an alias in use kept and that of a dead one cleared; other lookups find what they found.
pub setalias_lem :
    (m name : Bytes) (namelen : ℕ) (t : Aliases)
    → find m (setalias name namelen t)
      ≡ (if varequal m name then some (put name namelen (find name t)) else find m t)
unfolding setalias
setalias_lem m name namelen t =
    ground (arith, find_alias-put m name namelen (t.atab (bucket m)), same_bucket m name)

-- No chain has two aliases with one name.
abbrev pub IsDistinct : List Alias → Type 0
IsDistinct [] = Unit
IsDistinct (a ∷ aps) = (find_alias a.name aps ≡ none) × IsDistinct aps

abbrev pub IsValid : Aliases → Type 0
IsValid t = (i : ℕ) → IsDistinct (t.atab i)

-- What freealias leaves of an alias.
abbrev pub freed : Option Alias → Option Alias
freed none = none
freed (some a) = if a.in_use then some (record a { dead = true }) else none

pub find_alias-agree :
    (m n : Bytes) (aps : List Alias) → varequal m n ≡ true → find_alias m aps ≡ find_alias n aps
unfolding find_alias
find_alias-agree m n [] h = refl
find_alias-agree m n (a ∷ aps) h =
    ground (arith, find_alias-agree m n aps h, varequal-agree m n (a.name) h)

pub find_alias-free :
    (m name : Bytes) (aps : List Alias)
    → IsDistinct aps
    → find_alias m (at_alias name freealias aps)
      ≡ (if varequal m name then freed (find_alias name aps) else find_alias m aps)
unfolding find_alias at_alias
find_alias-free m name [] d = ground arith
find_alias-free m name (a ∷ aps) d = ground (
  arith,
  find_alias-free m name aps d.1,
  varequal-subst m name (a.name),
  varequal-agree m name (a.name),
  find_alias-agree m (a.name) aps,
  d.0,
)

-- unalias reports whether there was such an alias. A lookup of its name then finds nothing, unless it is
-- in use: then it is still found, marked as dead.
pub unalias_lem :
    (m name : Bytes) (t : Aliases)
    → IsValid t
    → ((unalias name t).0 ≡ unalias_status (find name t))
      × (find m (unalias name t).1 ≡ (if varequal m name then freed (find name t) else find m t))
unfolding unalias
unalias_lem m name t v = (
  refl,
  ground (arith, find_alias-free m name (t.atab (bucket m)) (v (bucket m)), same_bucket m name),
)

pub find_alias-free_all :
    (m : Bytes) (aps : List Alias)
    → IsDistinct aps
    → find_alias m (free_all aps) ≡ freed (find_alias m aps)
unfolding find_alias free_all
find_alias-free_all m [] d = refl
find_alias-free_all m (a ∷ aps) d =
    ground (arith, find_alias-free_all m aps d.1, find_alias-agree m (a.name) aps, d.0)

-- rmaliases is unalias of every alias.
pub rmaliases_lem : (m : Bytes) (t : Aliases) → IsValid t → find m (rmaliases t) ≡ freed (find m t)
unfolding rmaliases
rmaliases_lem m t v = find_alias-free_all m (t.atab (bucket m)) (v (bucket m))

-- Where no chain has two aliases with one name, the table is a finite map, and the operations change it
-- so. After setalias a lookup of that name, or of one that is equal up to its `=`, finds the new text,
-- with the mark of an alias in use kept and that of a dead one cleared; other lookups find what they
-- found. unalias reports whether there was such an alias; a lookup of its name then finds nothing, unless
-- it is in use: then it is still found, marked as dead. rmaliases is unalias of every alias.
pub find_lem :
    (m name : Bytes) (namelen : ℕ) (t : Aliases)
    → IsValid t
    → (find m (setalias name namelen t)
        ≡ (if varequal m name then some (put name namelen (find name t)) else find m t))
      × ((unalias name t).0 ≡ unalias_status (find name t))
      × (find m (unalias name t).1 ≡ (if varequal m name then freed (find name t) else find m t))
      × (find m (rmaliases t) ≡ freed (find m t))
find_lem m name namelen t v =
    let (status, left) = unalias_lem m name t v in
    (setalias_lem m name namelen t, status, left, rmaliases_lem m t v)
