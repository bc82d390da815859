-- ===== src/Var/Set.antt =====
-- src/var.c: setting and looking up variables.
use gwsh.Base.{
  ℕ, zero, suc, Bool, true, false, ◌||◌, ◌&&◌, not, Option, none, some, List, [], ◌∷◌, ◌++◌, Bytes,
  ◌==◌, if◌then◌else◌, head_byte,
}
use gwsh.Base.Run.{ok, err, Run, ◌>>=◌, ret, fail}
use gwsh.Syntax.{is_name, is_in_name}
use gwsh.MyString.{Strtoimax, atomax}
use gwsh.Options.Set.{Optlist}
use gwsh.Var.Table.{
  Flags, no_flags, or_flags, Callback, Var, hashvar, findvar, at_var, before_eq, value_of,
}

-- What is called with effects outside this file: the function of a variable with its value, and
-- optschanged.
pub data Call : Type 0 where
  call : Callback → Bytes → Call
  unset_function : Bytes → Call
  optschanged : Call

-- struct localvar: a variable's name, flags, value and local, the options (vp NULL), or one whose vp is
-- not set yet.
pub data Localvar : Type 0 where
  wild : Localvar
  saved : Bytes → Flags → Bytes → ℕ → Localvar
  saved_options : Optlist → Localvar

-- vartab, localvar_stack, optlist, and the calls that were made, the last one first.
pub record Vars : Type 0 where
  pub vartab : ℕ → List Var
  pub localvar_stack : List (List Localvar)
  pub optlist : Optlist
  pub funcnest : ℕ
  pub calls : List Call

-- The errors of sh_error. `null_pointer` is the use of a null pointer, `wild_pointer` that of a pointer
-- that was never set.
pub data Error : Type 0 where
  is_read_only : Bytes → Error
  bad_name : Bytes → Error
  not_in_function : Error
  parameter_unset : Bytes → Error
  bad_number : Bytes → Error
  illegal_option : ℕ → Error
  no_arg : ℕ → Error
  null_pointer wild_pointer : Error

abbrev pub V : Type 0 → Type 0
V A = Run Error Vars A

abbrev pub flag_at : ℕ → Optlist → Bool
flag_at i [] = false
flag_at zero (v ∷ l) = not (v == 0)
flag_at (suc i) (v ∷ l) = flag_at i l

abbrev pub aflag : Vars → Bool
aflag t = flag_at 14 t.optlist

abbrev pub uflag : Vars → Bool
uflag t = flag_at 16 t.optlist

-- *findvar(hashvar(name), name)
abbrev pub find : Bytes → Vars → Option Var
find name t = findvar name (t.vartab (hashvar name))

abbrev pub with_var : Bytes → (Option Var → Option Var) → Vars → Vars
with_var name f t = record t {
  vartab = λ i. if i == hashvar name then at_var name f (t.vartab i) else t.vartab i;
}

-- What setvareq finds that it has to do: nothing but an error, or an entry to leave (none where it is
-- taken out or not made) and the calls to make, the last one first.
pub data Change : Type 0 where
  refuse : Change
  leave : Option Var → List Call → Change

abbrev calls_if : Bool → Option Callback → Bytes → List Call
calls_if b none value = []
calls_if b (some f) value = if b then call f value ∷ [] else []

-- flags |= vp->flags & ~(VTEXTFIXED|VSTACK|VNOSAVE|VUNSET|VUSER1)
abbrev inherit : Flags → Flags → Flags
inherit flags old = or_flags flags (record old { vunset = false; vuser1 = false })

-- (flags & (VEXPORT|VREADONLY|VUNSET)) == VUNSET
abbrev pub only_unset : Flags → Bool
only_unset flags = not flags.vexport && not flags.vreadonly && flags.vunset

abbrev store : Bytes → Bytes → Flags → Var → List Call → Change
store name value flags vp before =
    leave (some (record vp { name = name; value = value; flags = flags }))
      (calls_if flags.vlatefunc vp.func value ++ before)

abbrev set_found : Bytes → Bytes → Flags → Flags → Var → Change
set_found name value saveflags flags vp =
    let before = calls_if (not flags.vnofunc && not vp.flags.vlatefunc) vp.func value in
    let all = inherit flags vp.flags in
    if vp.flags.vreadonly
    then refuse
    else if only_unset saveflags
    then (if all.vstrfixed
        then store name value (record all { vexport = false; vreadonly = false }) vp before
        else leave none before)
    else store name value all vp before

abbrev set_new : Bytes → Bytes → Flags → Change
set_new name value flags =
    if only_unset flags && not flags.vstrfixed
    then leave none []
    else leave (some (record { name = name; value = value; flags = flags; func = none; local = 0 }))
        []

-- if (aflag && !(flags & VUNSET)) flags |= VEXPORT
abbrev pub exported : Bool → Flags → Flags
exported aflag flags = if aflag && not flags.vunset then record flags { vexport = true } else flags

abbrev set_at_entry : Bytes → Bytes → Flags → Flags → Option Var → Change
set_at_entry name value saveflags flags none = set_new name value flags
set_at_entry name value saveflags flags (some vp) = set_found name value saveflags flags vp

unfoldable pub change_of : Bytes → Bytes → Flags → Bool → Option Var → Change
change_of name value flags aflag vp = set_at_entry name value flags (exported aflag flags) vp

abbrev pub make_change : Bytes → Change → V Unit
make_change name refuse t = err (is_read_only name) t
make_change name (leave vp calls) t =
    ok tt (record (with_var name (λ _. vp) t) { calls = calls ++ t.calls })

-- setvareq on the text `name=value`, or `name`, NUL and `value`
unfoldable pub setvareq : Bytes → Bytes → Flags → V Unit
unfolding change_of findvar at_var
setvareq name value flags t =
    make_change name (change_of name value flags (aflag t) (find name t)) t

-- The rest of a text behind the name at its start.
unfoldable pub in_name_end : Bytes → Bytes
in_name_end [] = []
in_name_end (c ∷ s) = let rest = in_name_end s in if is_in_name c then rest else c ∷ s

unfoldable pub endofname : Bytes → Bytes
unfolding in_name_end
endofname [] = []
endofname (c ∷ s) = if is_name c then in_name_end s else c ∷ s

-- `!namelen || p != q` is the error: no name, or more behind it than a value.
abbrev pub is_good_name : Bytes → Bool
is_good_name [] = false
is_good_name (c ∷ s) =
    is_name c && (head_byte (endofname (c ∷ s)) == 0 || head_byte (endofname (c ∷ s)) == b'=')

abbrev pub value_flags : Option Bytes → Flags → Flags
value_flags none flags = record flags { vunset = true }
value_flags (some val) flags = flags

abbrev pub value_text : Option Bytes → Bytes
value_text none = []
value_text (some val) = val

unfoldable pub setvar : Bytes → Option Bytes → Flags → V Unit
unfolding setvareq endofname before_eq
setvar name val flags t =
    if is_good_name name
    then setvareq (before_eq name) (value_text val) (value_flags val flags) t
    else err (bad_name name) t

unfoldable pub unsetvar : Bytes → V Unit
unfolding setvar
unsetvar s = setvar s none no_flags

-- The texts of the list are `name=value`.
unfoldable pub listsetvar : List Bytes → Flags → V Unit
unfolding setvareq before_eq value_of
listsetvar [] flags = ret tt
listsetvar (text ∷ list) flags = do
  _ ← setvareq (before_eq text) (value_of text) flags
  listsetvar list flags

abbrev pub set_value : Option Var → Option Bytes
set_value none = none
set_value (some v) = if v.flags.vunset then none else some v.value

unfoldable pub lookupvar : Bytes → Vars → Option Bytes
unfolding findvar
lookupvar name t = set_value (find name t)

abbrev pub number_of : Bytes → Option ℕ → V ℕ
number_of val none = fail (bad_number val)
number_of val (some n) = ret n

abbrev pub lookup_number : Strtoimax → Bytes → Option Bytes → V ℕ
lookup_number strtoimax name none t = if uflag t then err (parameter_unset name) t else ok 0 t
lookup_number strtoimax name (some val) t = number_of val (atomax strtoimax val 0) t

unfoldable pub lookupvarint : Strtoimax → Bytes → V ℕ
unfolding lookupvar
lookupvarint strtoimax name t = lookup_number strtoimax name (lookupvar name t) t

-- `fmtstr` is the text of "%" PRIdMAX, by the C library.
unfoldable pub setvarint : (ℕ → Bytes) → Bytes → ℕ → Flags → V ℕ
unfolding setvar
setvarint fmtstr name val flags = do _ ← setvar name (some (fmtstr val)) flags; ret val
