-- ===== src/Var/Restore.antt =====
-- What the end of an environment gives back to a local variable.
use gwsh.Base.{
  ℕ, suc, ◌%◌, ◌≡◌, ◌≤◌, ◌∙◌, sym, refl, ap, subst, Bool, true, false, ◌||◌, Option, none, some,
  List, [], ◌∷◌, Bytes, ◌==◌, if◌then◌else◌, arith, if_cases, Bool-cases, inl, inr, bytes_eq, codes,
  head_byte, bytes_eq_iff,
}
use gwsh.Base.Run.{Ends, state_of}
use gwsh.Var.Name.{key, until_eq, varequal, varequal-key, varequal_refl, varequal-hashval}
use gwsh.Var.Table.{Flags, Callback, Var, hashvar, findvar, before_eq, has_eq, value_of, no_flags}
use gwsh.Var.Set.{
  Vars, Localvar, saved, find, with_var, aflag, Change, refuse, leave, change_of, setvareq,
  exported, only_unset,
}
use gwsh.Var.Local.{map_var, depth, mklocal, poplocalvars, pushlocalvars, just_unset}
use gwsh.Var.Lookup.{IsValid, Fits, find-with_var, with_var-IsValid, setvareq-entry, findvar-agree}

before_eq-until_eq : (s : Bytes) → before_eq s ≡ until_eq s
unfolding before_eq
before_eq-until_eq [] = refl
before_eq-until_eq (c ∷ s) = ground (arith, before_eq-until_eq s)

until_eq_idem : (s : Bytes) → until_eq (until_eq s) ≡ until_eq s
until_eq_idem [] = refl
until_eq_idem (c ∷ s) = ground (arith, until_eq_idem s)

-- A text whose first byte is no `=` has the name before its first `=`.
key-before_eq : (s : Bytes) → (head_byte s == b'=') ≡ false → key (before_eq s) ≡ key s
unfolding before_eq
key-before_eq [] h = refl
key-before_eq (c ∷ s) h = ground (arith, before_eq-until_eq s, until_eq_idem s)

pub varequal-before_eq :
    (s : Bytes) → (head_byte s == b'=') ≡ false → varequal s (before_eq s) ≡ true
varequal-before_eq s h =
    varequal-key s (before_eq s)
    ∙ (bytes_eq_iff (key s) (key (before_eq s))).1 (sym (key-before_eq s h))

-- An entry that an unset does not take out, with the function of another.
abbrev IsFixed : Option Callback → Option Var → Type 0
IsFixed func none = ⊥
IsFixed func (some w) = (w.flags.vstrfixed ≡ true) × (w.func ≡ func)

abbrev Leaves : (Option Var → Type 0) → Change → Type 0
Leaves P refuse = Unit
Leaves P (leave o cs) = P o

change_of-IsFixed :
    (func : Option Callback) (name value : Bytes) (flags : Flags) (a : Bool) (vp : Option Var)
    → IsFixed func vp
    → Leaves (IsFixed func) (change_of name value flags a vp)
unfolding change_of
change_of-IsFixed func name value flags a none fixed = absurd fixed
change_of-IsFixed func name value flags a (some w) fixed =
    if_cases (Leaves (IsFixed func)) w.flags.vreadonly (λ _. tt)
      (λ _.
        if_cases (Leaves (IsFixed func)) (only_unset flags)
          (λ _.
            if_cases (Leaves (IsFixed func)) ((exported a flags).vstrfixed || w.flags.vstrfixed)
              (λ e. (e, fixed.1)) (λ e. ground arith))
          (λ _. (ground arith, fixed.1)))

-- Names that are equal have one entry.
find-agree : (m n : Bytes) (t : Vars) → varequal m n ≡ true → find m t ≡ find n t
find-agree m n t h =
    findvar-agree m n (t.vartab (hashvar m)) h
    ∙ ap (λ (i : ℕ). findvar n (t.vartab (i % 39))) (varequal-hashval m n h)

-- Any number of assignments and unsets.
pub data Assigned (t : Vars) : Vars → Type 0 where
  here : Assigned t t
  next :
      {u : Vars} (name value : Bytes) (flags : Flags)
      → Assigned t u
      → Assigned t (state_of (setvareq name value flags u))

-- While the environment lasts: what is saved for n stays at the head of the stack, and n has an entry
-- that no unset takes out.
record Lasts (n : Bytes) (func : Option Callback) (stack : List (List Localvar)) (t : Vars)
    : Type 0 where
  valid : IsValid t
  stack_kept : t.localvar_stack ≡ stack
  fixed : IsFixed func (find n t)

setvareq-Lasts :
    (n : Bytes) (func : Option Callback) (stack : List (List Localvar)) (name value : Bytes)
    (flags : Flags) (t : Vars)
    → Lasts n func stack t
    → Lasts n func stack (state_of (setvareq name value flags t))
setvareq-Lasts n func stack name value flags t l =
    setvareq-entry (Lasts n func stack) name value flags t l λ o cs e fits. record {
      valid = with_var-IsValid name (λ _. o) t l.valid fits;
      stack_kept = l.stack_kept;
      fixed = subst (IsFixed func) (sym (find-with_var n name (λ _. o) t l.valid fits)) (
          if_cases (IsFixed func) (varequal n name)
            (λ same. subst (Leaves (IsFixed func)) e (
              change_of-IsFixed func name value flags (aflag t) (find name t)
                (subst (IsFixed func) (find-agree n name t same) l.fixed)))
            (λ _. l.fixed));
    }

Assigned-Lasts :
    (n : Bytes) (func : Option Callback) (stack : List (List Localvar)) (t u : Vars)
    → Assigned t u
    → Lasts n func stack t
    → Lasts n func stack u
Assigned-Lasts n func stack t u here l = l
Assigned-Lasts n func stack t u (next {u = w} name value flags run) l =
    setvareq-Lasts n func stack name value flags w (Assigned-Lasts n func stack t w run l)

findvar-Fits : (n : Bytes) (vars : List Var) → Fits n (findvar n vars)
unfolding findvar
findvar-Fits n [] = tt
findvar-Fits n (v ∷ vars) =
    if_cases (Fits n) (varequal v.name n) (λ e. e) (λ _. findvar-Fits n vars)

map_var-Fits :
    (n : Bytes) (f : Var → Var) (o : Option Var)
    → ((v : Var) → (f v).name ≡ v.name)
    → Fits n o
    → Fits n (map_var f o)
map_var-Fits n f none same fits = tt
map_var-Fits n f (some v) same fits = ap (λ s. varequal s n) (same v) ∙ fits

-- A change of an entry in place.
pub find-map_var :
    (m n : Bytes) (f : Var → Var) (t : Vars)
    → IsValid t
    → ((v : Var) → (f v).name ≡ v.name)
    → find m (with_var n (map_var f) t) ≡ (if varequal m n then map_var f (find n t) else find m t)
find-map_var m n f t valid same =
    find-with_var m n (map_var f) t valid
      (map_var-Fits n f (find n t) same (findvar-Fits n (t.vartab (hashvar n))))

pub map_var-IsValid :
    (n : Bytes) (f : Var → Var) (t : Vars)
    → IsValid t
    → ((v : Var) → (f v).name ≡ v.name)
    → IsValid (with_var n (map_var f) t)
map_var-IsValid n f t valid same =
    with_var-IsValid n (map_var f) t valid
      (map_var-Fits n f (find n t) same (findvar-Fits n (t.vartab (hashvar n))))

-- What the environment has to give back.
abbrev to_restore : Bytes → Var → Localvar
to_restore name v = saved (before_eq name) v.flags v.value v.local

abbrev pushed : Vars → Vars
pushed t = record t { localvar_stack = [] ∷ t.localvar_stack }

abbrev linked : Bytes → Var → Vars → Vars
linked name v t = record t { localvar_stack = (to_restore name v ∷ []) ∷ t.localvar_stack }

abbrev owned : ℕ → Var → Var
owned level v = record v { flags = record v.flags { vstrfixed = true }; local = level }

module _ (name : Bytes) (v : Var) (t : Vars) (valid : IsValid t)
    (found : find (before_eq name) t ≡ some v) where
  owned-Lasts :
      Lasts
        (before_eq name)
        v.func
        ((to_restore name v ∷ []) ∷ t.localvar_stack)
        (with_var (before_eq name) (map_var (owned (suc (depth t)))) (linked name v t))
  owned-Lasts = record {
    valid =
        map_var-IsValid (before_eq name) (owned (suc (depth t))) (linked name v t) valid
          (λ w. refl);
    stack_kept = refl;
    fixed =
        subst (IsFixed v.func)
          (sym (
            find-map_var (before_eq name) (before_eq name) (owned (suc (depth t))) (linked name v t)
              valid (λ w. refl)
            ∙ ap
                (λ b.
                  if b
                  then map_var (owned (suc (depth t))) (find (before_eq name) t)
                  else find (before_eq name) t)
                (varequal_refl (before_eq name))
            ∙ ap (map_var (owned (suc (depth t)))) found))
          (refl, refl);
  }

  mklocal-Lasts :
      (head_byte name == b'=') ≡ false
      → bytes_eq name (codes "-") ≡ false
      → v.local ≤ depth t
      → Lasts
          (before_eq name)
          v.func
          ((to_restore name v ∷ []) ∷ t.localvar_stack)
          (state_of (mklocal name (pushed t)))
  unfolding mklocal
  mklocal-Lasts head dash shallow =
      let e : find name t ≡ some v =
        find-agree name (before_eq name) t (varequal-before_eq name head) ∙ found in
      rw (dash, e)
        (let deeper : (v.local == suc (depth t)) ≡ false = ground arith in
          rw deeper (elim (Bool-cases (has_eq name)) [
            | inl assigns ↦ rw assigns (
                setvareq-Lasts (before_eq name) v.func _ (before_eq name) (value_of name) no_flags _
                  owned-Lasts)
            | inr plain ↦ rw plain owned-Lasts
          ]))

-- What the end of an environment leaves of a variable that was made local in it.
abbrev pub Restored : Bytes → Var → Vars → Type 0
Restored n v t =
    (w : Var) × (find n t ≡ some w)
    × (w.value ≡ v.value)
    × (w.flags ≡ v.flags)
    × (w.local ≡ v.local)
    × (w.func ≡ v.func)

abbrev given_back : Var → Var → Var
given_back v w = record w { local = v.local; flags = v.flags; value = v.value }

map_var-Restored :
    (n : Bytes) (v : Var) (t' : Vars) (o : Option Var)
    → IsFixed v.func o
    → find n t' ≡ map_var (given_back v) o
    → Restored n v t'
map_var-Restored n v t' none fixed e = absurd fixed
map_var-Restored n v t' (some w) fixed e = (given_back v w, e, refl, refl, refl, fixed.1)

pop-Restored :
    (n : Bytes) (v : Var) (rest : List (List Localvar)) (u : Vars)
    → just_unset v.flags ≡ false
    → Lasts n v.func ((saved n v.flags v.value v.local ∷ []) ∷ rest) u
    → Ends
        (λ _ t'. Restored n v t' × IsValid t' × (t'.localvar_stack ≡ rest))
        (λ e t'. ⊥)
        (poplocalvars false u)
unfolding poplocalvars
pop-Restored n v rest u plain l = rw (l.stack_kept) (
    rw plain (
      map_var-Restored n v (with_var n (map_var (given_back v)) u) (find n u) l.fixed (
          find-map_var n n (given_back v) u l.valid (λ w. refl)
          ∙ ap (λ b. if b then map_var (given_back v) (find n u) else find n u) (varequal_refl n)),
      map_var-IsValid n (given_back v) u l.valid (λ w. refl),
      refl,
    ))

-- A variable that exists is made local in a new environment, with or without a value; then any
-- assignments and unsets are made. The end of the environment gives the variable back with its
-- value, its flags and its function, and without an error; also where a step before failed
-- because the variable is read-only.
pub poplocalvars_restores :
    (name : Bytes) (v : Var) (t u : Vars)
    → IsValid t
    → find (before_eq name) t ≡ some v
    → (head_byte name == b'=') ≡ false
    → bytes_eq name (codes "-") ≡ false
    → v.local ≤ depth t
    → just_unset v.flags ≡ false
    → Assigned (state_of (mklocal name (state_of (pushlocalvars t)))) u
    → Ends
        (λ _ t'.
          Restored (before_eq name) v t' × IsValid t' × (t'.localvar_stack ≡ t.localvar_stack))
        (λ e t'. ⊥)
        (poplocalvars false u)
unfolding pushlocalvars
poplocalvars_restores name v t u valid found head dash shallow plain run =
    pop-Restored (before_eq name) v t.localvar_stack u plain (
      Assigned-Lasts (before_eq name) v.func _ _ u run
        (mklocal-Lasts name v t valid found head dash shallow))
