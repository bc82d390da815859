-- ===== src/Var/Local.antt =====
-- src/var.c: local variables. An environment is a list of what is to be restored.
use gwsh.Base.{
  ℕ, zero, suc, ◌-◌, Bool, true, false, ◌&&◌, not, Option, none, some, List, [], ◌∷◌, Bytes, ◌==◌,
  if◌then◌else◌, length, bytes_eq, codes,
}
use gwsh.Base.Run.{ok, err, ◌>>=◌, ret, fail, gets, modify}
use gwsh.Var.Table.{Flags, no_flags, Var, before_eq, value_of, has_eq}
use gwsh.Var.Set.{
  Vars, Localvar, wild, saved, saved_options, Call, call, optschanged, null_pointer, wild_pointer,
  V, find, with_var, setvareq, setvar, unsetvar,
}

-- localvar_stack as a pointer, 0 for NULL
abbrev pub depth : Vars → ℕ
depth t = length t.localvar_stack

-- lvp->next = localvar_stack->lv, localvar_stack->lv = lvp
abbrev pub link : Localvar → List (List Localvar) → V Unit
link lvp [] t = err null_pointer t
link lvp (lv ∷ rest) t = ok tt (record t { localvar_stack = (lvp ∷ lv) ∷ rest })

abbrev pub add_local : Localvar → V Unit
add_local lvp t = link lvp t.localvar_stack t

abbrev set_first : Localvar → List (List Localvar) → List (List Localvar)
set_first lvp ((old ∷ lv) ∷ rest) = (lvp ∷ lv) ∷ rest
set_first lvp stack = stack

-- The localvar that was linked last gets its fields.
abbrev fill_local : Localvar → V Unit
fill_local lvp = modify λ t. record t { localvar_stack = set_first lvp t.localvar_stack }

abbrev pub map_var : (Var → Var) → Option Var → Option Var
map_var f none = none
map_var f (some vp) = some (f vp)

abbrev pub change_var : Bytes → (Var → Var) → V Unit
change_var name f = modify (with_var name (map_var f))

-- vp->local = localvar_stack
abbrev own : Bytes → V Unit
own name = do here ← gets depth; change_var name λ vp. record vp { local = here }

-- A variable that there is not yet is made, and is unset when the environment ends.
abbrev unset_flags : Flags
unset_flags = record no_flags { vunset = true }

abbrev fixed_flags : Flags
fixed_flags = record no_flags { vstrfixed = true }

abbrev make_new : Bytes → V Unit
make_new name =
    if has_eq name
    then setvareq (before_eq name) (value_of name) fixed_flags
    else setvar name none fixed_flags

abbrev new_local : Bytes → V Unit
new_local name = do
  _ ← add_local wild
  _ ← make_new name
  _ ← fill_local (saved (before_eq name) unset_flags [] 0)
  own (before_eq name)

abbrev assign_local : Bytes → V Unit
assign_local name =
    if has_eq name then setvareq (before_eq name) (value_of name) no_flags else ret tt

abbrev old_local : Bytes → Var → V Unit
old_local name vp = do
  _ ← add_local (saved (before_eq name) vp.flags vp.value vp.local)
  here ← gets depth
  _ ←
      change_var (before_eq name)
        λ v. record v { flags = record v.flags { vstrfixed = true }; local = here }
  assign_local name

-- vp == NULL ? NULL : vp->local
abbrev local_of : Option Var → ℕ
local_of none = 0
local_of (some vp) = vp.local

abbrev local_entry : Bytes → Option Var → V Unit
local_entry name none = new_local name
local_entry name (some vp) = old_local name vp

abbrev local_options : List (List Localvar) → V Unit
local_options [] = ret tt
local_options (lv ∷ rest) = do l ← gets (λ t. t.optlist); add_local (saved_options l)

unfoldable pub mklocal : Bytes → V Unit
unfolding setvareq setvar has_eq before_eq value_of bytes_eq
mklocal name t =
    if bytes_eq name (codes "-")
    then local_options t.localvar_stack t
    else if local_of (find name t) == depth t
    then assign_local name t
    else local_entry name (find name t) t

-- flags == VUNSET
abbrev pub just_unset : Flags → Bool
just_unset f =
    f.vunset
    && not f.vexport
    && not f.vreadonly
    && not f.vstrfixed
    && not f.vnofunc
    && not f.vlatefunc
    && not f.vuser1

-- (flags & (VEXPORT|VREADONLY|VSTRFIXED|VUNSET)) == VUNSET
abbrev is_gone : Option Var → Bool
is_gone none = false
is_gone (some vp) =
    vp.flags.vunset && not vp.flags.vexport && not vp.flags.vreadonly && not vp.flags.vstrfixed

abbrev keep_local : Bytes → Flags → ℕ → V Unit
keep_local name flags local = do
  _ ←
      change_var name
        λ vp. record vp { local = local; flags = record vp.flags { vstrfixed = flags.vstrfixed } }
  vp ← gets (find name)
  if is_gone vp then unsetvar name else ret tt

abbrev drop_local : Bytes → ℕ → V Unit
drop_local name local = do
  _ ← change_var name λ vp. record vp {
    local = local;
    flags = record vp.flags { vstrfixed = false; vreadonly = false };
  }
  unsetvar name

abbrev func_calls : Bool → Option Var → Bytes → List Call → List Call
func_calls late none value calls = calls
func_calls late (some vp) value calls = elim vp.func [
  | none ↦ calls
  | some f ↦ if late then call f value ∷ call f value ∷ calls else call f value ∷ calls
]

abbrev restore_local : Bytes → Flags → Bytes → ℕ → V Unit
restore_local name flags value local = do
  vp ← gets (find name)
  _ ← change_var name λ vp. record vp { local = local; flags = flags; value = value }
  modify λ t. record t { calls = func_calls flags.vlatefunc vp value t.calls }

-- The body of the loop of poplocalvars.
unfoldable pub pop_local : Bool → Localvar → V Unit
unfolding unsetvar
pop_local keep wild = fail wild_pointer
pop_local true (saved_options l) = fail null_pointer
pop_local false (saved_options l) =
    modify λ t. record t { optlist = l; calls = optschanged ∷ t.calls }
pop_local true (saved name flags value local) = keep_local name flags local
pop_local false (saved name flags value local) =
    if just_unset flags then drop_local name local else restore_local name flags value local

unfoldable pub pop_locals : Bool → List Localvar → V Unit
unfolding pop_local
pop_locals keep [] = ret tt
pop_locals keep (lvp ∷ lv) = do _ ← pop_local keep lvp; pop_locals keep lv

abbrev pop_first : Bool → List (List Localvar) → V Unit
pop_first keep [] = fail null_pointer
pop_first keep (lv ∷ rest) = do
  _ ← modify λ t. record t { localvar_stack = rest }
  pop_locals keep lv

unfoldable pub poplocalvars : Bool → V Unit
unfolding pop_locals
poplocalvars keep t = pop_first keep t.localvar_stack t

-- The stack as it was, as a pointer.
unfoldable pub pushlocalvars : V ℕ
pushlocalvars t = ok (depth t) (record t { localvar_stack = [] ∷ t.localvar_stack })

unfoldable pub pop_times : ℕ → Bool → V Unit
unfolding poplocalvars
pop_times zero keep = ret tt
pop_times (suc n) keep = do _ ← poplocalvars keep; pop_times n keep

-- Environments are ended until the stack is `stop`.
unfoldable pub unwindlocalvars : ℕ → Bool → V Unit
unfolding pop_times
unwindlocalvars stop keep t = pop_times (depth t - stop) keep t
