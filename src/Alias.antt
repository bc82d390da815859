-- ===== src/Alias.antt =====
-- src/alias.c: the table of aliases, and the marks on an alias that src/input.c reads from.
pub mod Lookup
pub mod Valid
pub mod InUse
pub mod Steps
pub mod Cmd
use gwsh.Base.{
  ℕ, zero, suc, ◌%◌, ◌&&◌, Bool, true, false, Option, none, some, List, [], ◌∷◌, ◌++◌, Bytes, ◌==◌,
  if◌then◌else◌,
}
use gwsh.Options.Nextopt.{Reader, Opt, nextopt}
use gwsh.Var.Name.{varequal, hashval}

-- struct alias: the text `name=value`, where the value starts in it, and the flags ALIASINUSE and
-- ALIASDEAD.
pub record Alias : Type 0 where
  pub name : Bytes
  pub val : ℕ
  pub in_use : Bool
  pub dead : Bool

abbrev pub atabsize : ℕ
atabsize = 39

-- atab, the chains, and aliasdone. An alias on aliasdone is in use, so it is still in its chain, and its
-- name, which setalias keeps up to the `=`, tells it from the others.
pub record Aliases : Type 0 where
  pub atab : ℕ → List Alias
  pub aliasdone : List Bytes

abbrev pub bucket : Bytes → ℕ
bucket name = hashval name % atabsize

-- What is done with the rest of the chain, from where __lookupalias stops.
unfoldable pub at_alias : Bytes → (List Alias → List Alias) → List Alias → List Alias
at_alias name f [] = f []
at_alias name f (ap ∷ aps) =
    let rest = at_alias name f aps in if varequal name ap.name then f (ap ∷ aps) else ap ∷ rest

-- *__lookupalias(name) within the chain
unfoldable pub find_alias : Bytes → List Alias → Option Alias
find_alias name [] = none
find_alias name (ap ∷ aps) =
    let rest = find_alias name aps in if varequal name ap.name then some ap else rest

-- *__lookupalias(name)
abbrev pub find : Bytes → Aliases → Option Alias
find name t = find_alias name (t.atab (bucket name))

abbrev pub in_chain : Bytes → (List Alias → List Alias) → Aliases → Aliases
in_chain name f t = record t {
  atab = λ i. if i == bucket name then at_alias name f (t.atab i) else t.atab i;
}

abbrev pub put_alias : Bytes → ℕ → List Alias → List Alias
put_alias name namelen [] = record { name = name; val = namelen; in_use = false; dead = false } ∷ []
put_alias name namelen (ap ∷ aps) = record ap { name = name; val = namelen; dead = false } ∷ aps

-- namelen is val - name.
unfoldable pub setalias : Bytes → ℕ → Aliases → Aliases
unfolding at_alias
setalias name namelen t = in_chain name (put_alias name namelen) t

-- An alias in use is only marked.
abbrev pub freealias : List Alias → List Alias
freealias [] = []
freealias (ap ∷ aps) = if ap.in_use then record ap { dead = true } ∷ aps else aps

abbrev pub unalias_status : Option Alias → ℕ
unalias_status none = 1
unalias_status (some ap) = 0

-- The status, and the table.
unfoldable pub unalias : Bytes → Aliases → ℕ × Aliases
unfolding at_alias find_alias
unalias name t = (unalias_status (find name t), in_chain name freealias t)

unfoldable pub free_all : List Alias → List Alias
free_all [] = []
free_all (ap ∷ aps) =
    let rest = free_all aps in if ap.in_use then record ap { dead = true } ∷ rest else rest

-- All chains; those from 39 on are never used.
unfoldable pub rmaliases : Aliases → Aliases
unfolding free_all
rmaliases t = record t { atab = λ i. free_all (t.atab i) }

abbrev unless_in_use : Bool → Option Alias → Option Alias
unless_in_use check none = none
unless_in_use check (some ap) = if check && ap.in_use then none else some ap

unfoldable pub lookupalias : Bytes → Bool → Aliases → Option Alias
unfolding find_alias
lookupalias name check t = unless_in_use check (find name t)

abbrev pub mark : Bool → List Alias → List Alias
mark used [] = []
mark used (ap ∷ aps) = record ap { in_use = used } ∷ aps

-- What pushstring of src/input.c does to the alias whose text is read next.
unfoldable pub begin_use : Bytes → Aliases → Aliases
unfolding at_alias
begin_use name t = in_chain name (mark true) t

-- What popstring of src/input.c does to it when the text is read.
unfoldable pub end_use : Bytes → Aliases → Aliases
end_use name t = record t { aliasdone = name ∷ t.aliasdone }

abbrev pub free_dead : Bytes → Aliases → Option Alias → Aliases
free_dead name t none = t
free_dead name t (some ap) = if ap.dead then (unalias name t).1 else t

-- The body of the loop of endaliasuse.
unfoldable pub release : Bytes → Aliases → Aliases
unfolding at_alias find_alias unalias
release name t = let t' = in_chain name (mark false) t in free_dead name t' (find name t')

unfoldable pub release_all : List Bytes → Aliases → Aliases
unfolding release
release_all [] t = t
release_all (name ∷ names) t = release_all names (release name t)

unfoldable pub endaliasuse : Aliases → Aliases
unfolding release_all
endaliasuse t = record (release_all t.aliasdone t) { aliasdone = [] }
