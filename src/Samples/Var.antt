-- ===== src/Samples/Var.antt =====
-- Names and tables of variables on concrete texts.
use gwsh.Base.{
  zero, suc, ◌+◌, ◌/◌, ◌%◌, ℕ, ◌≡◌, refl, true, false, ◌==◌, none, some, List, [], ◌∷◌, Bytes,
  bytes_eq, codes, if◌then◌else◌, if_cases, arith as tactics,
}
use gwsh.Base.Run.{ok, err, Ends, state_of}
use gwsh.Var.Name.{varequal, hashval}
use gwsh.Var.Table.{Var, no_flags, hashvar, before_eq, findvar, has_eq}
use gwsh.Syntax.{is_name}
use gwsh.Var.Set.{
  endofname, Vars, find, setvareq, setvarint, lookupvar, lookupvarint, is_read_only, bad_name,
  wild_pointer,
}
use gwsh.Var.Local.{mklocal, poplocalvars, pushlocalvars}
use gwsh.Var.Lookup.{IsDistinct, IsValid, is_readonly, new_value, setvareq_lem}
use gwsh.Var.Restore.{Restored, Assigned, here, next, poplocalvars_restores}
use gwsh.Var.Edges.{mklocal_bad_name}
use gwsh.Var.Number.{lookupvarint-setvarint}
use gwsh.Samples.Libc.{decimal, digits}

-- x=1, exported
abbrev x : Var
x = record {
  name = codes "x";
  value = codes "1";
  flags = record no_flags { vexport = true };
  func = none;
  local = 0;
}

abbrev one_chain : ℕ → List Var
one_chain i = if i == hashvar (codes "x") then x ∷ [] else []

abbrev t : Vars
t = record { vartab = one_chain; localvar_stack = []; optlist = []; funcnest = 1; calls = [] }

t-IsValid : IsValid t
unfolding findvar
t-IsValid i =
    if_cases (λ (l : List Var). IsDistinct l) (i == hashvar (codes "x")) (λ _. (refl, tt)) (λ _. tt)

x_found : find (before_eq (codes "x=2")) t ≡ some x
unfolding findvar varequal hashval before_eq
x_found = refl

setvareq_example :
    Ends
      (λ _ t'.
        (is_readonly (find (codes "x") t) ≡ false)
        × IsValid t'
        × ((m : Bytes)
            → lookupvar m t'
              ≡ (if varequal m (codes "x") then new_value (codes "2") no_flags else lookupvar m t)))
      (λ e t'.
        (is_readonly (find (codes "x") t) ≡ true) × (e ≡ is_read_only (codes "x")) × (t' ≡ t))
      (setvareq (codes "x") (codes "2") no_flags t)
setvareq_example = setvareq_lem (codes "x") (codes "2") no_flags t t-IsValid

-- local x=2, and then x is unset
abbrev body : Vars
body = state_of (
    setvareq (codes "x") [] (record no_flags { vunset = true })
      (state_of (mklocal (codes "x=2") (state_of (pushlocalvars t)))))

body-Assigned : Assigned (state_of (mklocal (codes "x=2") (state_of (pushlocalvars t)))) body
body-Assigned = next (codes "x") [] (record no_flags { vunset = true }) here

poplocalvars_example :
    Ends
      (λ _ t'.
        Restored (before_eq (codes "x=2")) x t'
        × IsValid t'
        × (t'.localvar_stack ≡ t.localvar_stack))
      (λ e t'. ⊥)
      (poplocalvars false body)
unfolding bytes_eq
poplocalvars_example =
    poplocalvars_restores (codes "x=2") x t body t-IsValid x_found refl refl (omega tactics) refl
      body-Assigned

-- The variable is unset while the environment lasts.
gone_within : lookupvar (codes "x") body ≡ none
unfolding lookupvar mklocal pushlocalvars varequal hashval
gone_within = refl

given_back : lookupvar (codes "x") (state_of (poplocalvars false body)) ≡ some (codes "1")
unfolding lookupvar mklocal pushlocalvars poplocalvars varequal hashval
given_back = refl

one_absent : find (codes "1y") t ≡ none
unfolding findvar varequal hashval
one_absent = refl

mklocal_example :
    (t' : Vars) × (mklocal (codes "1y") (state_of (pushlocalvars t))
      ≡ err (bad_name (codes "1y")) t')
    × (poplocalvars false t' ≡ err wild_pointer t)
unfolding has_eq bytes_eq is_name
mklocal_example = mklocal_bad_name (codes "1y") false t one_absent refl refl refl

-- The digits of a number, with enough fuel for three of them.
printed : ℕ → ℕ → Bytes → Bytes
printed zero n s = s
printed (suc f) n s =
    let rest = printed f (n / 10) ((b'0' + n % 10) ∷ s) in
    if n / 10 == 0 then (b'0' + n % 10) ∷ s else rest

read_back : decimal 0 (printed 3 407 []) ≡ record { value = 407; rest = []; erange = false }
unfolding digits printed
read_back = refl

lookupvarint_example :
    Ends
      (λ r t'. (r ≡ 407) × IsValid t' × (lookupvarint decimal (codes "x") t' ≡ ok 407 t'))
      (λ e t'. t' ≡ t)
      (setvarint (λ n. printed 3 n []) (codes "x") 407 no_flags t)
unfolding is_name endofname
lookupvarint_example =
    lookupvarint-setvarint decimal (λ n. printed 3 n []) (codes "x") 407 t t-IsValid refl read_back
