-- ===== src/Alias/Steps.antt =====
-- The aliases as a state machine: the calls that change them, in any order.
use gwsh.Base.{ℕ, true, List, [], ◌∷◌, Bytes}
use gwsh.Alias.{
  Aliases, setalias, unalias, rmaliases, begin_use, end_use, endaliasuse, release, release_all,
}
use gwsh.Alias.Lookup.{IsValid}
use gwsh.Alias.Valid.{
  setalias-IsValid, unalias-IsValid, rmaliases-IsValid, mark-IsValid, release-IsValid,
}

-- The table at the start.
abbrev pub no_aliases : Aliases
no_aliases = record { atab = λ _. []; aliasdone = [] }

-- The tables that the shell can come to.
pub data Reachable : Aliases → Type 0 where
  start : Reachable no_aliases
  set :
      {t : Aliases} (name : Bytes) (namelen : ℕ) → Reachable t → Reachable (setalias name namelen t)
  remove : {t : Aliases} (name : Bytes) → Reachable t → Reachable ((unalias name t).1)
  remove_all : {t : Aliases} → Reachable t → Reachable (rmaliases t)
  push : {t : Aliases} (name : Bytes) → Reachable t → Reachable (begin_use name t)
  pop : {t : Aliases} (name : Bytes) → Reachable t → Reachable (end_use name t)
  end_done : {t : Aliases} → Reachable t → Reachable (endaliasuse t)

release_all-IsValid : (names : List Bytes) (t : Aliases) → IsValid t → IsValid (release_all names t)
unfolding release_all
release_all-IsValid [] t v = v
release_all-IsValid (n ∷ names) t v =
    release_all-IsValid names (release n t) (release-IsValid n t v)

-- Whatever calls are made in whatever order, no chain of the table ever has two aliases with one name.
pub reachable-IsValid : {t : Aliases} → Reachable t → IsValid t
unfolding begin_use end_use endaliasuse
reachable-IsValid start = λ i. tt
reachable-IsValid (set {t} name namelen r) = setalias-IsValid name namelen t (reachable-IsValid r)
reachable-IsValid (remove {t} name r) = unalias-IsValid name t (reachable-IsValid r)
reachable-IsValid (remove_all {t} r) = rmaliases-IsValid t (reachable-IsValid r)
reachable-IsValid (push {t} name r) = mark-IsValid name true t (reachable-IsValid r)
reachable-IsValid (pop name r) = reachable-IsValid r
reachable-IsValid (end_done {t} r) = release_all-IsValid t.aliasdone t (reachable-IsValid r)
