-- ===== src/Alias/InUse.antt =====
-- endaliasuse: what becomes of the aliases whose text has been read.
use gwsh.Base.{
  ◌≡◌, refl, Bool, true, false, Option, none, some, List, [], ◌∷◌, Bytes, if◌then◌else◌, arith,
  ◌&&◌, ◌||◌,
}
use gwsh.Var.Name.{varequal, varequal_refl}
use gwsh.Alias.{
  Alias, Aliases, bucket, in_chain, mark, release, release_all, endaliasuse, free_dead, find,
}
use gwsh.Alias.Lookup.{IsValid, freed, unalias_lem, find_alias-agree, same_bucket}
use gwsh.Alias.Valid.{marked, find_alias-mark, mark-IsValid, release-IsValid}

-- What endaliasuse leaves of an alias.
abbrev pub released : Option Alias → Option Alias
released none = none
released (some a) = if a.dead then none else some (record a { in_use = false })

find-mark :
    (m name : Bytes) (used : Bool) (t : Aliases)
    → find m (in_chain name (mark used) t)
      ≡ (if varequal m name then marked used (find name t) else find m t)
find-mark m name used t =
    ground (arith, find_alias-mark m name used (t.atab (bucket m)), same_bucket m name)

find-agree : (m n : Bytes) (t : Aliases) → varequal m n ≡ true → find m t ≡ find n t
find-agree m n t h = ground (arith, find_alias-agree m n (t.atab (bucket m)) h, same_bucket m n h)

find-free_dead :
    (m name : Bytes) (t : Aliases) (a : Option Alias)
    → IsValid t
    → find m (free_dead name t a) ≡ elim a [
      | none ↦ find m t
      | some a ↦ if a.dead && varequal m name then freed (find name t) else find m t
    ]
find-free_dead m name t none v = refl
find-free_dead m name t (some a) v = ground (arith, (unalias_lem m name t v).1)

find-release :
    (m name : Bytes) (t : Aliases)
    → IsValid t
    → find m (release name t) ≡ (if varequal m name then released (find name t) else find m t)
unfolding release
find-release m name t v = ground (
  arith,
  find-mark m name false t,
  find-mark name name false t,
  varequal_refl name,
  find-free_dead m name (in_chain name (mark false) t) (find name (in_chain name (mark false) t))
      (mark-IsValid name false t v),
)

-- Whether a text is on aliasdone.
abbrev pub on_done : Bytes → List Bytes → Bool
on_done m [] = false
on_done m (n ∷ names) = varequal m n || on_done m names

find-release_all :
    (m : Bytes) (names : List Bytes) (t : Aliases)
    → IsValid t
    → find m (release_all names t) ≡ (if on_done m names then released (find m t) else find m t)
unfolding release_all
find-release_all m [] t v = refl
find-release_all m (n ∷ names) t v = ground (
  arith,
  find-release m n t v,
  find-agree m n t,
  find-release_all m names (release n t) (release-IsValid n t v),
)

-- endaliasuse ends the use of the aliases whose text has been read: those that were removed meanwhile
-- are found no more, the others are found as not in use, and nothing else changes.
pub endaliasuse_lem :
    (m : Bytes) (t : Aliases)
    → IsValid t
    → find m (endaliasuse t) ≡ (if on_done m t.aliasdone then released (find m t) else find m t)
unfolding endaliasuse
endaliasuse_lem m t v = find-release_all m t.aliasdone t v
