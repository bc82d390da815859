-- ===== src/Var/Cmd.antt =====
-- src/var.c: the builtins export, readonly, local and unset, and the list of variables. What export -p
-- prints is not in the model.
use gwsh.Base.{
  ℕ, zero, suc, ◌+◌, ◌==◌, Bool, true, ◌&&◌, ◌||◌, not, Option, none, some, List, [], ◌∷◌, ◌++◌,
  Bytes, codes, head_byte, if◌then◌else◌,
}
use gwsh.Base.Run.{err, ◌>>=◌, ret, fail, modify}
use gwsh.Options.Nextopt.{Reader, Opt, nextopt}
use gwsh.Var.Table.{Flags, no_flags, or_flags, Var, vtabsize, value_of, has_eq}
use gwsh.Var.Set.{
  Vars, illegal_option, no_arg, not_in_function, unset_function, V, find, setvar, unsetvar,
}
use gwsh.Var.Local.{change_var, mklocal}

-- (vp->flags & (on | off)) == on
abbrev pub all_of : Flags → Flags → Bool
all_of on flags =
    (not on.vexport || flags.vexport)
    && (not on.vreadonly || flags.vreadonly)
    && (not on.vunset || flags.vunset)

abbrev pub none_of : Flags → Flags → Bool
none_of off flags =
    (not off.vexport || not flags.vexport)
    && (not off.vreadonly || not flags.vreadonly)
    && (not off.vunset || not flags.vunset)

unfoldable pub listed : Flags → Flags → List Var → List Var
listed on off [] = []
listed on off (vp ∷ vars) =
    let rest = listed on off vars in
    if all_of on vp.flags && none_of off vp.flags then vp ∷ rest else rest

-- k chains from the i-th on
unfoldable pub list_chains : ℕ → ℕ → Flags → Flags → Vars → List Var
list_chains zero i on off t = []
list_chains (suc k) i on off t = listed on off (t.vartab i) ++ list_chains k (i + 1) on off t

-- The flags are of VEXPORT, VREADONLY and VUNSET, and no flag is in both.
unfoldable pub listvars : Flags → Flags → Vars → List Var
unfolding list_chains listed
listvars on off t = list_chains vtabsize 0 on off t

-- environment()
unfoldable pub environment : Vars → List Var
unfolding listvars
environment t = listvars (record no_flags { vexport = true }) (record no_flags { vunset = true }) t

abbrev flag_value : Bytes → Option Bytes
flag_value name = if has_eq name then some (value_of name) else none

abbrev set_flag : Flags → Bytes → Option Var → V Unit
set_flag flag name (some vp) =
    if has_eq name
    then setvar name (flag_value name) flag
    else change_var name λ v. record v { flags = or_flags v.flags flag }
set_flag flag name none = setvar name (flag_value name) flag

-- The loop of exportcmd over the names.
unfoldable pub export_each : Flags → List Bytes → V Unit
unfolding setvar has_eq value_of
export_each flag [] = ret tt
export_each flag (name ∷ names) = do
  _ ← (λ t. set_flag flag name (find name t) t)
  export_each flag names

abbrev readonly_flag : Flags
readonly_flag = record no_flags { vreadonly = true }

abbrev export_flag : Flags
export_flag = record no_flags { vexport = true }

-- argv[0][0] == 'r' ? VREADONLY : VEXPORT
abbrev pub flag_of : Bytes → Flags
flag_of name = if head_byte name == b'r' then readonly_flag else export_flag

-- With -p, or with no names, the variables are printed.
abbrev export_opt : Bytes → Opt → V Unit
export_opt name (Opt.option c r) = ret tt
export_opt name (Opt.at_end r) = export_each (flag_of name) r.argptr
export_opt name (Opt.illegal_option c) = fail (illegal_option c)
export_opt name (Opt.no_arg c) = fail (no_arg c)

unfoldable pub exportcmd : Bytes → Reader → V Unit
unfolding nextopt export_each
exportcmd name args = export_opt name (nextopt (codes "p") args)

unfoldable pub local_each : List Bytes → V Unit
unfolding mklocal
local_each [] = ret tt
local_each (name ∷ names) = do _ ← mklocal name; local_each names

abbrev local_opt : Opt → V Unit
local_opt (Opt.option c r) = local_each r.argptr
local_opt (Opt.at_end r) = local_each r.argptr
local_opt (Opt.illegal_option c) = fail (illegal_option c)
local_opt (Opt.no_arg c) = fail (no_arg c)

-- nextopt reads no option here.
unfoldable pub localcmd : Reader → V Unit
unfolding nextopt local_each
localcmd args t = if t.funcnest == 0 then err not_in_function t else local_opt (nextopt [] args) t

abbrev unset_one : ℕ → Bytes → V Unit
unset_one flag name =
    if not (flag == b'f')
    then unsetvar name
    else modify λ t. record t { calls = unset_function name ∷ t.calls }

-- The loop of unsetcmd over the names; `flag` is the last option.
unfoldable pub unset_each : ℕ → List Bytes → V Unit
unfolding unsetvar
unset_each flag [] = ret tt
unset_each flag (name ∷ names) = do _ ← unset_one flag name; unset_each flag names
