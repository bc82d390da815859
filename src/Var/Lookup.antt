-- ===== src/Var/Lookup.antt =====
-- What the table of variables holds for a name after an entry is changed, and what setvareq leaves.
use gwsh.Base.{
  ℕ, ◌%◌, ◌≡◌, ◌∙◌, sym, refl, ap, Bool, true, false, ◌||◌, ◌&&◌, not, Option, none, some, List, [],
  ◌∷◌, ◌++◌, Bytes, ◌==◌, if◌then◌else◌, arith, ==_iff, ap_if, if_cases, Bool-cases, inl, inr,
  subst,
}
use gwsh.Base.Run.{Ends, state_of}
use gwsh.Var.Name.{
  varequal, varequal-hashval, varequal-subst, varequal-agree, varequal_sym, varequal_refl,
}
use gwsh.Var.Table.{Flags, Var, hashvar, findvar, at_var, place}
use gwsh.Var.Set.{
  Vars, Call, is_read_only, find, with_var, aflag, Change, refuse, leave, change_of, make_change,
  setvareq, lookupvar, set_value, exported, only_unset,
}

-- No chain has two variables with one name.
abbrev pub IsDistinct : List Var → Type 0
IsDistinct [] = Unit
IsDistinct (v ∷ vars) = (findvar v.name vars ≡ none) × IsDistinct vars

abbrev pub IsValid : Vars → Type 0
IsValid t = (i : ℕ) → IsDistinct (t.vartab i)

-- An entry for the name, or none.
abbrev pub Fits : Bytes → Option Var → Type 0
Fits n none = Unit
Fits n (some v) = varequal v.name n ≡ true

pub findvar-agree :
    (m n : Bytes) (vars : List Var) → varequal m n ≡ true → findvar m vars ≡ findvar n vars
unfolding findvar
findvar-agree m n [] h = refl
findvar-agree m n (v ∷ vars) h = ground (
  arith,
  findvar-agree m n vars h,
  varequal-subst (v.name) n m,
  varequal_sym n m,
  varequal-subst (v.name) m n h,
)

findvar-place :
    (m n : Bytes) (o : Option Var) (vars : List Var)
    → Fits n o
    → findvar n vars ≡ none
    → findvar m (place o vars) ≡ (if varequal m n then o else findvar m vars)
unfolding findvar
findvar-place m n none vars fits gone = ground (arith, findvar-agree m n vars, gone)
findvar-place m n (some v) vars fits gone =
    ground (arith, varequal-agree (v.name) n m fits, varequal_sym n m)

-- An entry that has another name than m is passed over.
findvar-skip :
    (m n : Bytes) (v : Var) (vars : List Var)
    → varequal v.name n ≡ true
    → varequal m n ≡ false
    → findvar m (v ∷ vars) ≡ findvar m vars
unfolding findvar
findvar-skip m n v vars h other = ground (arith, varequal-agree (v.name) n m h, varequal_sym n m)

same_else :
    (m n : Bytes) (v : Var) (vars : List Var) (o : Option Var)
    → varequal v.name n ≡ true
    → (if varequal m n then o else findvar m vars)
      ≡ (if varequal m n then o else findvar m (v ∷ vars))
unfolding findvar
same_else m n v vars o same = ground (arith, findvar-skip m n v vars same)

pub findvar-at_var :
    (m n : Bytes) (f : Option Var → Option Var) (vars : List Var)
    → IsDistinct vars
    → Fits n (f (findvar n vars))
    → findvar m (at_var n f vars) ≡ (if varequal m n then f (findvar n vars) else findvar m vars)
unfolding at_var findvar
findvar-at_var m n f [] d fits = findvar-place m n (f none) [] fits refl
findvar-at_var m n f (v ∷ vars) d fits = elim (Bool-cases (varequal v.name n)) [
  | inl same ↦
      let fits' : Fits n (f (some v)) =
        subst (λ b. Fits n (f (if b then some v else findvar n vars))) same fits in
      let gone : findvar n vars ≡ none = sym (findvar-agree v.name n vars same) ∙ d.0 in
      rw same
        (findvar-place m n (f (some v)) vars fits' gone ∙ same_else m n v vars (f (some v)) same)
  | inr other ↦
      let fits' : Fits n (f (findvar n vars)) =
        subst (λ b. Fits n (f (if b then some v else findvar n vars))) other fits in
      rw other (
        ground (
          arith,
          findvar-at_var m n f vars d.1 fits',
          varequal_sym n m,
          varequal-agree m n (v.name),
          varequal_sym (v.name) n,
          varequal_sym (v.name) m,
        ))
]

place-IsDistinct :
    (n : Bytes) (o : Option Var) (vars : List Var)
    → Fits n o
    → findvar n vars ≡ none
    → IsDistinct vars
    → IsDistinct (place o vars)
place-IsDistinct n none vars fits gone d = d
place-IsDistinct n (some v) vars fits gone d = (findvar-agree v.name n vars fits ∙ gone, d)

at_var-IsDistinct :
    (n : Bytes) (f : Option Var → Option Var) (vars : List Var)
    → IsDistinct vars
    → Fits n (f (findvar n vars))
    → IsDistinct (at_var n f vars)
unfolding at_var findvar
at_var-IsDistinct n f [] d fits = place-IsDistinct n (f none) [] fits refl tt
at_var-IsDistinct n f (v ∷ vars) d fits = elim (Bool-cases (varequal v.name n)) [
  | inl same ↦
      let fits' : Fits n (f (some v)) =
        subst (λ b. Fits n (f (if b then some v else findvar n vars))) same fits in
      let gone : findvar n vars ≡ none = sym (findvar-agree v.name n vars same) ∙ d.0 in
      rw same (place-IsDistinct n (f (some v)) vars fits' gone d.1)
  | inr other ↦
      let fits' : Fits n (f (findvar n vars)) =
        subst (λ b. Fits n (f (if b then some v else findvar n vars))) other fits in
      rw other (
        (
          ground (arith, findvar-at_var (v.name) n f vars d.1 fits', d.0),
          at_var-IsDistinct n f vars d.1 fits',
        ))
]

same_chain : (m n : Bytes) → varequal m n ≡ true → hashvar m ≡ hashvar n
same_chain m n h = ap (λ i. i % 39) (varequal-hashval m n h)

-- A change of the entry for one name changes what is found for that name alone.
pub find-with_var :
    (m n : Bytes) (f : Option Var → Option Var) (t : Vars)
    → IsValid t
    → Fits n (f (find n t))
    → find m (with_var n f t) ≡ (if varequal m n then f (find n t) else find m t)
find-with_var m n f t valid fits = elim (Bool-cases (hashvar m == hashvar n)) [
  | inl same ↦
      let e : hashvar m ≡ hashvar n = (==_iff (hashvar m) (hashvar n)).0 same in
      rw same (
        subst
          (λ (i : ℕ).
            findvar m (at_var n f (t.vartab i))
            ≡ (if varequal m n then f (find n t) else findvar m (t.vartab i)))
          (sym e) (findvar-at_var m n f (t.vartab (hashvar n)) (valid (hashvar n)) fits))
  | inr other ↦ rw other (ground (arith, same_chain m n, other))
]

pub with_var-IsValid :
    (n : Bytes) (f : Option Var → Option Var) (t : Vars)
    → IsValid t
    → Fits n (f (find n t))
    → IsValid (with_var n f t)
with_var-IsValid n f t valid fits i = elim (Bool-cases (i == hashvar n)) [
  | inl same ↦
      let e : i ≡ hashvar n = (==_iff i (hashvar n)).0 same in
      rw same (
        subst (λ (j : ℕ). IsDistinct (at_var n f (t.vartab j))) (sym e)
          (at_var-IsDistinct n f (t.vartab (hashvar n)) (valid (hashvar n)) fits))
  | inr other ↦ rw other (valid i)
]

abbrev pub is_readonly : Option Var → Bool
is_readonly none = false
is_readonly (some v) = v.flags.vreadonly

-- What a change leaves to be looked up.
abbrev pub new_value : Bytes → Flags → Option Bytes
new_value value flags = if flags.vunset then none else some value

abbrev Sets : Bytes → Bytes → Flags → Option Var → Change → Type 0
Sets name value flags vp refuse = is_readonly vp ≡ true
Sets name value flags vp (leave o cs) =
    Fits name o × (is_readonly vp ≡ false) × (set_value o ≡ new_value value flags)

change_of-Sets :
    (name value : Bytes) (flags : Flags) (a : Bool) (vp : Option Var)
    → Sets name value flags vp (change_of name value flags a vp)
unfolding change_of
change_of-Sets name value flags a none =
    if_cases (Sets name value flags none)
      (only_unset (exported a flags) && not (exported a flags).vstrfixed)
      (λ e. (tt, refl, ground arith)) (λ e. (varequal_refl name, refl, ground arith))
change_of-Sets name value flags a (some vp) =
    if_cases (Sets name value flags (some vp)) vp.flags.vreadonly (λ e. e)
      (λ e.
        if_cases (Sets name value flags (some vp)) (only_unset flags)
          (λ u.
            if_cases (Sets name value flags (some vp))
              ((exported a flags).vstrfixed || vp.flags.vstrfixed)
              (λ _. (varequal_refl name, e, ground arith)) (λ _. (tt, e, ground arith)))
          (λ _. (varequal_refl name, e, ground arith)))

lookup_with :
    (m name : Bytes) (o : Option Var) (t : Vars)
    → IsValid t
    → Fits name o
    → lookupvar m (with_var name (λ _. o) t)
      ≡ (if varequal m name then set_value o else lookupvar m t)
unfolding lookupvar
lookup_with m name o t valid fits =
    ap set_value (find-with_var m name (λ _. o) t valid fits)
    ∙ ap_if set_value (varequal m name) o (find m t)

-- setvareq refuses a variable that is read-only, and changes nothing then. Otherwise lookups of its name
-- find the value, or nothing if it is unset, lookups of other names find what they found, and the
-- names in each chain stay distinct.
pub setvareq_lem :
    (name value : Bytes) (flags : Flags) (t : Vars)
    → IsValid t
    → Ends
        (λ _ t'.
          (is_readonly (find name t) ≡ false)
          × IsValid t'
          × ((m : Bytes)
              → lookupvar m t'
                ≡ (if varequal m name then new_value value flags else lookupvar m t)))
        (λ e t'. (is_readonly (find name t) ≡ true) × (e ≡ is_read_only name) × (t' ≡ t))
        (setvareq name value flags t)
unfolding setvareq lookupvar
setvareq_lem name value flags t valid =
    go (change_of name value flags (aflag t) (find name t))
      (change_of-Sets name value flags (aflag t) (find name t))
  where
    go :
        (c : Change)
        → Sets name value flags (find name t) c
        → Ends
            (λ _ t'.
              (is_readonly (find name t) ≡ false)
              × IsValid t'
              × ((m : Bytes)
                  → lookupvar m t'
                    ≡ (if varequal m name then new_value value flags else lookupvar m t)))
            (λ e t'. (is_readonly (find name t) ≡ true) × (e ≡ is_read_only name) × (t' ≡ t))
            (make_change name c t)
    go refuse h = (h, refl, refl)
    go (leave o cs) h = (
      h.1,
      with_var-IsValid name (λ _. o) t valid h.0,
      λ m.
          lookup_with m name o t valid h.0
          ∙ ap (λ v. if varequal m name then v else lookupvar m t) h.2,
    )

-- The entry for a name after setvareq: where it is refused, and where it goes through.
pub setvareq-entry :
    (P : Vars → Type 0) (name value : Bytes) (flags : Flags) (t : Vars)
    → P t
    → ((o : Option Var) (cs : List Call)
        → change_of name value flags (aflag t) (find name t) ≡ leave o cs
        → Fits name o
        → P (record (with_var name (λ _. o) t) { calls = cs ++ t.calls }))
    → P (state_of (setvareq name value flags t))
unfolding setvareq
setvareq-entry P name value flags t p next =
    go (change_of name value flags (aflag t) (find name t)) refl
      (change_of-Sets name value flags (aflag t) (find name t))
  where
    go :
        (c : Change)
        → change_of name value flags (aflag t) (find name t) ≡ c
        → Sets name value flags (find name t) c
        → P (state_of (make_change name c t))
    go refuse e h = p
    go (leave o cs) e h = next o cs e h.0
