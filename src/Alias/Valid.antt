-- ===== src/Alias/Valid.antt =====
-- No operation on the aliases gives a chain two aliases with one name.
use gwsh.Base.{
  ℕ, ◌≡◌, refl, ◌∙◌, Bool, false, Option, none, some, List, [], ◌∷◌, Bytes, ◌==◌, if◌then◌else◌,
  arith, if_cases,
}
use gwsh.Var.Name.{varequal, varequal-subst, varequal_sym, varequal-agree}
use gwsh.Alias.{
  Alias, Aliases, bucket, at_alias, find_alias, in_chain, put_alias, setalias, freealias, unalias,
  free_all, rmaliases, mark, release, free_dead, find,
}
use gwsh.Alias.Lookup.{
  IsDistinct, IsValid, find_alias-put, find_alias-free, find_alias-free_all, find_alias-agree,
}

abbrev pub marked : Bool → Option Alias → Option Alias
marked used none = none
marked used (some a) = some (record a { in_use = used })

pub find_alias-mark :
    (m name : Bytes) (used : Bool) (aps : List Alias)
    → find_alias m (at_alias name (mark used) aps)
      ≡ (if varequal m name then marked used (find_alias name aps) else find_alias m aps)
unfolding find_alias at_alias
find_alias-mark m name used [] = ground arith
find_alias-mark m name used (a ∷ aps) = ground (
  arith,
  find_alias-mark m name used aps,
  varequal-subst m name (a.name),
  varequal-agree m name (a.name),
)

at_alias-put-IsDistinct :
    (name : Bytes) (namelen : ℕ) (aps : List Alias)
    → IsDistinct aps
    → IsDistinct (at_alias name (put_alias name namelen) aps)
unfolding at_alias find_alias
at_alias-put-IsDistinct name namelen [] d = (refl, tt)
at_alias-put-IsDistinct name namelen (a ∷ aps) d =
    if_cases IsDistinct (varequal name a.name)
      (λ e. (find_alias-agree name (a.name) aps e ∙ d.0, d.1))
      (λ e. (
        ground
            (arith, find_alias-put (a.name) name namelen aps, varequal_sym (a.name) name, e, d.0),
        at_alias-put-IsDistinct name namelen aps d.1,
      ))

at_alias-mark-IsDistinct :
    (name : Bytes) (used : Bool) (aps : List Alias)
    → IsDistinct aps
    → IsDistinct (at_alias name (mark used) aps)
unfolding at_alias find_alias
at_alias-mark-IsDistinct name used [] d = tt
at_alias-mark-IsDistinct name used (a ∷ aps) d =
    if_cases IsDistinct (varequal name a.name) (λ e. d)
      (λ e. (
        ground (arith, find_alias-mark (a.name) name used aps, varequal_sym (a.name) name, e, d.0),
        at_alias-mark-IsDistinct name used aps d.1,
      ))

at_alias-free-IsDistinct :
    (name : Bytes) (aps : List Alias) → IsDistinct aps → IsDistinct (at_alias name freealias aps)
unfolding at_alias find_alias
at_alias-free-IsDistinct name [] d = tt
at_alias-free-IsDistinct name (a ∷ aps) d =
    if_cases IsDistinct (varequal name a.name)
      (λ e. if_cases IsDistinct a.in_use (λ _. d) (λ _. d.1))
      (λ e. (
        ground (arith, find_alias-free (a.name) name aps d.1, varequal_sym (a.name) name, e, d.0),
        at_alias-free-IsDistinct name aps d.1,
      ))

free_all-IsDistinct : (aps : List Alias) → IsDistinct aps → IsDistinct (free_all aps)
unfolding free_all
free_all-IsDistinct [] d = tt
free_all-IsDistinct (a ∷ aps) d =
    if_cases IsDistinct a.in_use
      (λ e.
        (ground (arith, find_alias-free_all (a.name) aps d.1, d.0), free_all-IsDistinct aps d.1))
      (λ e. free_all-IsDistinct aps d.1)

in_chain-IsValid :
    (name : Bytes) (f : List Alias → List Alias) (t : Aliases)
    → ((aps : List Alias) → IsDistinct aps → IsDistinct (at_alias name f aps))
    → IsValid t
    → IsValid (in_chain name f t)
in_chain-IsValid name f t hf v i =
    if_cases IsDistinct (i == bucket name) (λ e. hf (t.atab i) (v i)) (λ e. v i)

pub mark-IsValid :
    (name : Bytes) (used : Bool) (t : Aliases) → IsValid t → IsValid (in_chain name (mark used) t)
mark-IsValid name used t v =
    in_chain-IsValid name (mark used) t (at_alias-mark-IsDistinct name used) v

pub setalias-IsValid :
    (name : Bytes) (namelen : ℕ) (t : Aliases) → IsValid t → IsValid (setalias name namelen t)
unfolding setalias
setalias-IsValid name namelen t v =
    in_chain-IsValid name (put_alias name namelen) t (at_alias-put-IsDistinct name namelen) v

pub unalias-IsValid : (name : Bytes) (t : Aliases) → IsValid t → IsValid (unalias name t).1
unfolding unalias
unalias-IsValid name t v = in_chain-IsValid name freealias t (at_alias-free-IsDistinct name) v

pub rmaliases-IsValid : (t : Aliases) → IsValid t → IsValid (rmaliases t)
unfolding rmaliases
rmaliases-IsValid t v i = free_all-IsDistinct (t.atab i) (v i)

free_dead-IsValid :
    (name : Bytes) (t : Aliases) (a : Option Alias) → IsValid t → IsValid (free_dead name t a)
free_dead-IsValid name t none v = v
free_dead-IsValid name t (some a) v =
    if_cases IsValid a.dead (λ e. unalias-IsValid name t v) (λ e. v)

pub release-IsValid : (name : Bytes) (t : Aliases) → IsValid t → IsValid (release name t)
unfolding release
release-IsValid name t v =
    free_dead-IsValid name (in_chain name (mark false) t) (find name (in_chain name (mark false) t))
      (mark-IsValid name false t v)
