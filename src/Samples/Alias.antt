-- ===== src/Samples/Alias.antt =====
-- Aliases on concrete tables.
use gwsh.Base.{◌≡◌, refl, true, false, none, some, [], ◌∷◌, Bytes, codes}
use gwsh.Alias.Cmd.{behind_eq, value_at, alias_each, alias_each_lem, shown}
use gwsh.Var.Name.{varequal, hashval}
use gwsh.Alias.{
  Alias, Aliases, find, find_alias, setalias, unalias, rmaliases, begin_use, end_use, endaliasuse,
  unalias_status,
}
use gwsh.Alias.Lookup.{find_lem, IsValid, put, freed}
use gwsh.Alias.InUse.{released, endaliasuse_lem}
use gwsh.Alias.Steps.{Reachable, set, remove, push, pop, start, no_aliases, reachable-IsValid}

abbrev ll : Bytes
ll = codes "ll=ls -l"

abbrev ls_l : Alias
ls_l = record { name = ll; val = 3; in_use = false; dead = false }

-- The alias is defined, its text is pushed and read, and it is removed before the shell has noticed.
abbrev one : Aliases
one = setalias ll 3 no_aliases

abbrev two : Aliases
two = begin_use (codes "ll") one

abbrev three : Aliases
three = end_use (codes "ll") (unalias (codes "ll") two).1

one-Reachable : Reachable one
one-Reachable = set ll 3 start

three-Reachable : Reachable three
three-Reachable = pop (codes "ll") (remove (codes "ll") (push (codes "ll") one-Reachable))

two-IsValid : IsValid two
two-IsValid = reachable-IsValid (push (codes "ll") one-Reachable)

reachable-IsValid_example : IsValid three
reachable-IsValid_example = reachable-IsValid three-Reachable

used : find (codes "ll") two ≡ some (record ls_l { in_use = true })
unfolding setalias begin_use find_alias hashval varequal
used = refl

removed : find (codes "ll") three ≡ some (record ls_l { in_use = true; dead = true })
unfolding setalias begin_use unalias end_use find_alias hashval varequal
removed = refl

gone : find (codes "ll") (endaliasuse three) ≡ none
unfolding setalias begin_use unalias end_use endaliasuse find_alias hashval varequal
gone = refl

find_example :
    (find (codes "ll") (setalias ll 3 two) ≡ some (put ll 3 (find ll two)))
    × ((unalias ll two).0 ≡ unalias_status (find ll two))
    × (find (codes "ll") (unalias ll two).1 ≡ freed (find ll two))
    × (find (codes "ll") (rmaliases two) ≡ freed (find (codes "ll") two))
unfolding varequal
find_example = find_lem (codes "ll") ll 3 two two-IsValid

endaliasuse_example : find (codes "ll") (endaliasuse three) ≡ released (find (codes "ll") three)
unfolding varequal end_use
endaliasuse_example = endaliasuse_lem (codes "ll") three reachable-IsValid_example

ll_value : value_at ll ≡ some 3
unfolding behind_eq
ll_value = refl

ll_plain : value_at (codes "ll") ≡ none
unfolding behind_eq
ll_plain = refl

ll_same : varequal (codes "ll") ll ≡ true
unfolding varequal
ll_same = refl

alias_each_example :
    alias_each (ll ∷ codes "ll" ∷ []) (record { status = 0; printed = []; aliases = no_aliases })
    ≡ record {
      status = 0;
      printed = shown (put ll 3 (find ll no_aliases)) ∷ [];
      aliases = setalias ll 3 no_aliases;
    }
alias_each_example = alias_each_lem ll (codes "ll") 3 no_aliases ll_value ll_plain ll_same
