-- ===== src/Var/Edges.antt =====
-- src/var.c: a name that mklocal refuses.
use gwsh.Base.{arith, suc, ◌==◌, ◌≡◌, refl, Bool, false, none, [], ◌∷◌, Bytes, bytes_eq, codes}
use gwsh.Base.Run.{err, state_of}
use gwsh.Var.Table.{has_eq}
use gwsh.Var.Set.{Vars, find, is_good_name, bad_name, wild, wild_pointer}
use gwsh.Var.Local.{depth, mklocal, poplocalvars, pushlocalvars}

-- The new environment, with an entry that was not filled.
abbrev broken : Vars → Vars
broken t = record t { localvar_stack = (wild ∷ []) ∷ t.localvar_stack }

-- `local` in a new environment, with a bad name that no variable has, that is not `-` and has no `=`,
-- ends with the error about that name. What it was to save is in the list already then, with its pointer
-- to the variable not set: the end of the environment fails by the use of that pointer.
pub mklocal_bad_name :
    (name : Bytes) (keep : Bool) (t : Vars)
    → find name t ≡ none
    → has_eq name ≡ false
    → bytes_eq name (codes "-") ≡ false
    → is_good_name name ≡ false
    → (t' : Vars) × (mklocal name (state_of (pushlocalvars t)) ≡ err (bad_name name) t')
      × (poplocalvars keep t' ≡ err wild_pointer t)
unfolding pushlocalvars mklocal poplocalvars
mklocal_bad_name [] keep t absent plain dash bad =
    let shallow : (0 == suc (depth t)) ≡ false = ground arith in
    (broken t, rw (absent, shallow) refl, refl)
mklocal_bad_name (c ∷ s) keep t absent plain dash bad =
    let shallow : (0 == suc (depth t)) ≡ false = ground arith in
    (broken t, rw (dash, absent, shallow, plain) (ground (arith, bad)), refl)
